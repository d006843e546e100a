-- ===== src/Cmd/Common.antt =====
-- cmd/common.go: the options of kubectl, from the flags of a command line.
pub mod Parsed
use kubergrunt.Prelude.{String, str_eq, not, Bool, true, false, List, [], ◌∷◌, if◌then◌else◌}
use kubergrunt.Cloud.Types.{KubectlOptions}
use kubergrunt.Cloud.Request.{Call, Env}
use kubergrunt.Cloud.Monad.{M, pure, lift, ◌>>=◌, ◌>>◌, call}
use kubergrunt.Kubectl.Options.{eks_options}
use kubergrunt.Cmd.Cli.{Cli}

abbrev pub kubeconfig_flag_name : String
kubeconfig_flag_name = "kubeconfig"

abbrev pub kubectl_context_name_flag_name : String
kubectl_context_name_flag_name = "kubectl-context-name"

abbrev pub kubectl_server_flag_name : String
kubectl_server_flag_name = "kubectl-server-endpoint"

abbrev pub kubectl_ca_flag_name : String
kubectl_ca_flag_name = "kubectl-certificate-authority"

abbrev pub kubectl_token_flag_name : String
kubectl_token_flag_name = "kubectl-token"

abbrev pub kubectl_eks_cluster_arn_flag_name : String
kubectl_eks_cluster_arn_flag_name = "kubectl-eks-cluster-arn"

-- The options of which only those of one scheme are set.
unfoldable pub direct_options : String → String → String → KubectlOptions
direct_options server ca token = record {
  context_name = "";
  config_path = "";
  server = server;
  base64_pem_certificate_authority = ca;
  bearer_token = token;
  eks_cluster_arn = "";
}

unfoldable pub config_options : String → String → KubectlOptions
config_options context_name config_path = record {
  context_name = context_name;
  config_path = config_path;
  server = "";
  base64_pem_certificate_authority = "";
  bearer_token = "";
  eks_cluster_arn = "";
}

-- KubeConfigPathFromHomeDir
unfoldable pub kube_config_path_from_home_dir : Env → M String
kube_config_path_from_home_dir env = do
  home ← call env Call.home_dir
  pure (env.path_join (home ∷ ".kube" ∷ "config" ∷ []))

abbrev pub use_direct : Cli → Bool
use_direct cli = not (str_eq (cli.string_flag kubectl_server_flag_name) "")

abbrev pub use_eks_cluster : Cli → Bool
use_eks_cluster cli = not (str_eq (cli.string_flag kubectl_eks_cluster_arn_flag_name) "")

module _ (env : Env) (cli : Cli) where
  unfoldable pub parse_direct : M KubectlOptions
  parse_direct = do
    _ ← lift (cli.string_flag_required kubectl_ca_flag_name)
    _ ← lift (cli.string_flag_required kubectl_token_flag_name)
    pure (
        direct_options (cli.string_flag kubectl_server_flag_name)
          (cli.string_flag kubectl_ca_flag_name) (cli.string_flag kubectl_token_flag_name))

  unfoldable pub config_path : String → M String
  config_path kubeconfig_path =
      if str_eq kubeconfig_path "" then kube_config_path_from_home_dir env else pure kubeconfig_path

  unfoldable pub parse_config : M KubectlOptions
  parse_config = do
    path ← config_path (cli.string_flag kubeconfig_flag_name)
    pure (config_options (cli.string_flag kubectl_context_name_flag_name) path)

  unfoldable pub parse_without_server : M KubectlOptions
  parse_without_server =
      if use_eks_cluster cli
      then pure (eks_options (cli.string_flag kubectl_eks_cluster_arn_flag_name))
      else parse_config

  unfoldable pub parse_kubectl_options : M KubectlOptions
  parse_kubectl_options = if use_direct cli then parse_direct else parse_without_server
