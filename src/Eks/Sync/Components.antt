-- ===== src/Eks/Sync/Components.antt =====
-- eks/sync.go: SyncClusterComponents.
use kubergrunt.Prelude.{String, Bool, Option, List, [], ◌∷◌, if◌then◌else◌}
use kubergrunt.Strings.Bytes.{bytes}
use kubergrunt.Cloud.Types.{Text}
use kubergrunt.Cloud.Failure.{unsupported_eks_version, impossible}
use kubergrunt.Cloud.Request.{Call, Env}
use kubergrunt.Cloud.Monad.{M, pure, raise, or_panic, ◌>>=◌, ◌>>◌, call}
use kubergrunt.EksAwsHelper.{get_cluster_by_arn, get_region_from_arn}
use kubergrunt.Kubectl.Options.{eks_options, get_kubernetes_client_from_options}
use kubergrunt.Eks.AutoScaling.{string_value}
use kubergrunt.Eks.EksBuild.{find_latest_eks_build}
use kubergrunt.Eks.Sync.Versions.{
  kube_proxy_repo_path, core_dns_repo_path, supported_versions, core_dns_version_lookup_table,
  kube_proxy_version_lookup_table, amazon_vpc_cni_version_lookup_table, value_of, get_repo_domain,
}
use kubergrunt.Eks.Sync.Images.{upgrade_kube_proxy, upgrade_core_dns}
use kubergrunt.Eks.Sync.VpcCni.{update_vpc_cni}

pub record SkipComponentsConfig : Type 0 where
  pub kube_proxy : Bool
  pub core_dns : Bool
  pub vpc_cni : Bool

-- The token of the only entry.
unfoldable pub only_token : List (Option String) → M String
only_token (token ∷ []) = pure (string_value token)
only_token _ = raise (impossible "AWS_DID_NOT_RETURN_DOCKER_TOKEN")

module _ (env : Env) where
  unfoldable pub get_docker_login_token : String → M String
  get_docker_login_token region = do
    call env (Call.new_session region)
    tokens ← call env Call.get_authorization_token
    only_token tokens

  unfoldable pub ensure_supported : String → M (Unit {0})
  ensure_supported k8s_version =
      if env.list_contains_element supported_versions k8s_version
      then pure tt
      else raise (unsupported_eks_version k8s_version)

  -- One component, unless it is skipped.
  unfoldable pub sync_unless : Bool → M (Unit {0}) → M (Unit {0})
  sync_unless skip sync = if skip then pure tt else sync

  -- The upgrades of the three components.
  unfoldable pub sync_components :
      String → String → Text → Text → String → Bool → String → SkipComponentsConfig → M (Unit {0})
  sync_components arn region kube_proxy_version core_dns_version vpc_cni_version should_wait
        wait_timeout skip =
      do
        get_kubernetes_client_from_options env (eks_options arn)
        sync_unless skip.kube_proxy (
            upgrade_kube_proxy env (eks_options arn) region kube_proxy_version should_wait
              wait_timeout)
        sync_unless skip.core_dns (
            upgrade_core_dns env (eks_options arn) region core_dns_version should_wait wait_timeout)
        sync_unless skip.vpc_cni (update_vpc_cni env (eks_options arn) region vpc_cni_version)

  -- The versions of a cluster's components, and their upgrades.
  unfoldable pub sync_to_version :
      String → String → Bool → String → SkipComponentsConfig → M (Unit {0})
  sync_to_version arn k8s_version should_wait wait_timeout skip = do
    ensure_supported k8s_version
    region ← get_region_from_arn env arn
    token ← get_docker_login_token region
    kube_proxy_version ←
        find_latest_eks_build env token (get_repo_domain region) kube_proxy_repo_path
          (bytes (value_of kube_proxy_version_lookup_table k8s_version))
    core_dns_version ←
        find_latest_eks_build env token (get_repo_domain region) core_dns_repo_path
          (bytes (value_of core_dns_version_lookup_table k8s_version))
    sync_components arn region kube_proxy_version core_dns_version
        (value_of amazon_vpc_cni_version_lookup_table k8s_version) should_wait wait_timeout skip

  unfoldable pub sync_cluster_components :
      String → Bool → String → SkipComponentsConfig → M (Unit {0})
  sync_cluster_components eks_cluster_arn should_wait wait_timeout skip_config = do
    found ← get_cluster_by_arn env eks_cluster_arn
    cluster_info ← or_panic found
    sync_to_version eks_cluster_arn cluster_info.version should_wait wait_timeout skip_config
