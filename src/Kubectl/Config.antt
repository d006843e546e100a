-- ===== src/Kubectl/Config.antt =====
-- kubectl/config.go: entries of a kubeconfig.
use kubergrunt.Prelude.{String, []}
use kubergrunt.Strings.{insert}
use kubergrunt.Cloud.Types.{KubeConfig}
use kubergrunt.Cloud.Request.{Call, Env}
use kubergrunt.Cloud.Monad.{M, pure, lift, ◌>>=◌, ◌>>◌, call}

-- api.NewConfig
abbrev pub new_config : KubeConfig
new_config = record { clusters = []; auth_infos = []; contexts = []; current_context = "" }

abbrev pub initial_blank_kubeconfig : String
initial_blank_kubeconfig =
    "apiVersion: v1\nclusters: []\ncontexts: []\ncurrent-context: \"\"\nkind: Config\npreferences: {}\nusers: []\n"

module _ (env : Env) where
  unfoldable pub create_initial_config : String → M (Unit {0})
  create_initial_config kubeconfig_path = do
    call env (Call.mkdir_all (env.dir kubeconfig_path))
    call env (Call.write_file kubeconfig_path initial_blank_kubeconfig)

  unfoldable pub add_cluster_to_config : KubeConfig → String → String → String → M KubeConfig
  add_cluster_to_config config name endpoint b64_certificate_authority_data = do
    certificate_authority_data ← lift (env.decode_string b64_certificate_authority_data)
    pure (record config {
      clusters = insert name (endpoint, certificate_authority_data) config.clusters;
    })

unfoldable pub add_context_to_config : KubeConfig → String → String → String → KubeConfig
add_context_to_config config context_name cluster_name auth_info_name = record config {
  contexts = insert context_name (cluster_name, auth_info_name) config.contexts;
}
