-- ===== src/Kubectl/Options.antt =====
-- kubectl/options.go and the client of kubectl/client.go: how the program authenticates to the
-- cluster.
use kubergrunt.Prelude.{String, str_eq, not, if◌then◌else◌}
use kubergrunt.Strings.{insert}
use kubergrunt.Cloud.Types.{
  AuthScheme, config_based, direct_auth, eks_cluster_based, KubectlOptions, KubeConfig,
}
use kubergrunt.Cloud.Failure.{auth_scheme_not_supported}
use kubergrunt.Cloud.Request.{Call, Answer, reply, failure, Env}
use kubergrunt.Cloud.Monad.{M, pure, lift, or_panic, attempt, ◌>>=◌, ◌>>◌, call}
use kubergrunt.EksAwsHelper.{
  get_cluster_by_arn, get_cluster_name_from_arn, get_kubernetes_token_for_cluster,
}
use kubergrunt.Kubectl.Config.{
  new_config, create_initial_config, add_cluster_to_config, add_context_to_config,
}

unfoldable pub auth_scheme : KubectlOptions → AuthScheme
auth_scheme options =
    if not (str_eq options.eks_cluster_arn "")
    then eks_cluster_based
    else if not (str_eq options.server "")
    then direct_auth
    else config_based

-- The options for an EKS cluster, with nothing else set.
unfoldable pub eks_options : String → KubectlOptions
eks_options arn = record {
  context_name = "";
  config_path = "";
  server = "";
  base64_pem_certificate_authority = "";
  bearer_token = "";
  eks_cluster_arn = arn;
}

pub record ServerInfo : Type 0 where
  pub server : String
  pub base64_pem_certificate_authority : String
  pub bearer_token : String

module _ (env : Env) where
  unfoldable pub get_kube_credentials_from_eks_cluster : String → M ServerInfo
  get_kube_credentials_from_eks_cluster eks_cluster_arn = do
    found ← get_cluster_by_arn env eks_cluster_arn
    cluster ← or_panic found
    cluster_name ← get_cluster_name_from_arn env eks_cluster_arn
    token ← get_kubernetes_token_for_cluster env cluster_name
    pure (record {
      server = cluster.endpoint;
      base64_pem_certificate_authority = cluster.certificate_authority;
      bearer_token = token;
    })

  unfoldable pub save_config_to_file : KubeConfig → String → M (Unit {0})
  save_config_to_file config tmpfile = do
    create_initial_config env tmpfile
    call env (Call.modify_config tmpfile config)

  unfoldable pub temp_config_from_direct_auth_info : String → ServerInfo → M (Unit {0})
  temp_config_from_direct_auth_info tmpfile server_info = do
    config ←
        add_cluster_to_config env new_config "default" server_info.server
          server_info.base64_pem_certificate_authority
    let authed = record config {
      auth_infos = insert "default" server_info.bearer_token config.auth_infos;
    }
    let linked = add_context_to_config authed "default" "default" "default"
    save_config_to_file (record linked { current_context = "default" }) tmpfile

  unfoldable pub temp_config_from_eks_cluster_info : String → String → M (Unit {0})
  temp_config_from_eks_cluster_info tmpfile eks_cluster_arn = do
    info ← get_kube_credentials_from_eks_cluster eks_cluster_arn
    temp_config_from_direct_auth_info tmpfile info

  -- The switch of TempConfigFromAuthInfo: the name and the error that are returned together.
  unfoldable pub temp_config_for_scheme :
      KubectlOptions → String → AuthScheme → M (String × Answer (Unit {0}))
  temp_config_for_scheme options tmpfile direct_auth = do
    r ← attempt (
        temp_config_from_direct_auth_info tmpfile (record {
          server = options.server;
          base64_pem_certificate_authority = options.base64_pem_certificate_authority;
          bearer_token = options.bearer_token;
        }))
    pure (tmpfile, r)
  temp_config_for_scheme options tmpfile eks_cluster_based = do
    r ← attempt (temp_config_from_eks_cluster_info tmpfile options.eks_cluster_arn)
    pure (tmpfile, r)
  temp_config_for_scheme options tmpfile config_based =
      pure ("", failure (auth_scheme_not_supported config_based))

  -- TempConfigFromAuthInfo after the close of the new file, and after its creation.
  unfoldable pub temp_config_when_closed :
      KubectlOptions → String → Answer (Unit {0}) → M (String × Answer (Unit {0}))
  temp_config_when_closed options tmpfile (failure e) = pure (tmpfile, failure e)
  temp_config_when_closed options tmpfile (reply _) =
      temp_config_for_scheme options tmpfile (auth_scheme options)

  unfoldable pub temp_config_when_created :
      KubectlOptions → Answer String → M (String × Answer (Unit {0}))
  temp_config_when_created options (failure e) = pure ("", failure e)
  temp_config_when_created options (reply tmpfile) = do
    r ← attempt (call env (Call.close_file tmpfile))
    temp_config_when_closed options tmpfile r

  -- TempConfigFromAuthInfo: the name of the file ("" where there is none), and the error.
  unfoldable pub temp_config_from_auth_info : KubectlOptions → M (String × Answer (Unit {0}))
  temp_config_from_auth_info options = do
    created ← attempt (call env Call.temp_file)
    temp_config_when_created options created

  -- LoadApiClientConfigFromOptions and kubernetes.NewForConfig, by the scheme.
  unfoldable pub client_for_scheme : KubectlOptions → AuthScheme → M (Unit {0})
  client_for_scheme options config_based =
      call env (Call.load_client_config options.config_path options.context_name)
  client_for_scheme options direct_auth = do
    ca_data ← lift (env.decode_string options.base64_pem_certificate_authority)
    call env (Call.new_for_config options.server options.bearer_token ca_data)
  client_for_scheme options eks_cluster_based = do
    info ← get_kube_credentials_from_eks_cluster options.eks_cluster_arn
    ca_data ← lift (env.decode_string info.base64_pem_certificate_authority)
    call env (Call.new_for_config info.server info.bearer_token ca_data)

  -- GetKubernetesClientFromOptions
  unfoldable pub get_kubernetes_client_from_options : KubectlOptions → M (Unit {0})
  get_kubernetes_client_from_options options = client_for_scheme options (auth_scheme options)
