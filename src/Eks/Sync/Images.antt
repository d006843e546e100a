-- ===== src/Eks/Sync/Images.antt =====
-- eks/sync.go: the upgrades of kube-proxy and CoreDNS.
use kubergrunt.Prelude.{String, Bool, true, false, List, [], ◌∷◌, ◌++◌, length, if◌then◌else◌}
use kubergrunt.Strings.{insert}
use kubergrunt.Strings.Bytes.{bytes, contains}
use kubergrunt.Strings.Dict.{text_eq}
use kubergrunt.Cloud.Types.{Text, Order, older, same, newer, KubectlOptions, ConfigMap, PatchString}
use kubergrunt.Cloud.Failure.{unexpected_configuration}
use kubergrunt.Cloud.Request.{Call, Env}
use kubergrunt.Cloud.Monad.{M, pure, raise, lift, ◌>>=◌, ◌>>◌, call}
use kubergrunt.Kubectl.Command.{run_kubectl}
use kubergrunt.Eks.CorednsPermissions.{update_coredns_permissions_for_183_compatibility}
use kubergrunt.Eks.Sync.Versions.{
  kube_proxy_repo_path, core_dns_repo_path, value_of, get_repo_domain,
}

abbrev pub component_namespace : String
component_namespace = "kube-system"

abbrev pub kube_proxy_daemon_set_name : String
kube_proxy_daemon_set_name = "kube-proxy"

abbrev pub coredns_deployment_name : String
coredns_deployment_name = "coredns"

abbrev pub coredns_config_map_name : String
coredns_config_map_name = "coredns"

abbrev pub coredns_config_map_config_key : String
coredns_config_map_config_key = "Corefile"

-- fmt.Sprintf("%s/%s:v%s", ...)
unfoldable pub target_image : String → Text → Text → Text
target_image region repo_path version =
    get_repo_domain region ++ (b'/' ∷ (repo_path ++ (b':' ∷ b'v' ∷ version)))

-- The patch of the image of the first container.
abbrev pub image_patch : Text → List PatchString
image_patch image =
    record { op = "replace"; path = "/spec/template/spec/containers/0/image"; value = image } ∷ []

-- The image of the only container.
unfoldable pub only_image : String → List Text → M Text
only_image component (image ∷ []) = pure image
only_image component images = raise (unexpected_configuration component (length images))

-- Whether the first version is the second one or a newer one.
unfoldable pub at_least : Order → Bool
at_least older = false
at_least same = true
at_least newer = true

abbrev pub rollout_status_args : String → String → List String
rollout_status_args resource wait_timeout =
    "rollout" ∷ "status" ∷ resource ∷ "-n" ∷ component_namespace ∷ "--timeout" ∷ wait_timeout ∷ []

module _ (env : Env) where
  unfoldable pub get_current_deployed_kube_proxy_image : M Text
  get_current_deployed_kube_proxy_image = do
    images ← call env (Call.get_daemon_set component_namespace kube_proxy_daemon_set_name)
    only_image "kube-proxy" images

  unfoldable pub update_kube_proxy_daemonset_image : Text → M (Unit {0})
  update_kube_proxy_daemonset_image image = do
    patch ← lift (env.marshal_patches (image_patch image))
    call env (Call.patch_daemon_set component_namespace kube_proxy_daemon_set_name patch)

  unfoldable pub get_current_deployed_core_dns_image : M Text
  get_current_deployed_core_dns_image = do
    images ← call env (Call.get_deployment component_namespace coredns_deployment_name)
    only_image "coredns" images

  unfoldable pub update_core_dns_deployment_image : Text → M (Unit {0})
  update_core_dns_deployment_image image = do
    patch ← lift (env.marshal_patches (image_patch image))
    call env (Call.patch_deployment component_namespace coredns_deployment_name patch)

  -- The wait for a roll out, where one is asked for.
  unfoldable pub wait_for_roll_out : KubectlOptions → String → Bool → String → M (Unit {0})
  wait_for_roll_out options resource should_wait wait_timeout =
      if should_wait
      then run_kubectl env options (rollout_status_args resource wait_timeout)
      else pure tt

  -- Where the image is not the wanted one: update it, and wait for it.
  unfoldable pub replace_kube_proxy : KubectlOptions → Text → Bool → String → M (Unit {0})
  replace_kube_proxy options image should_wait wait_timeout = do
    update_kube_proxy_daemonset_image image
    wait_for_roll_out options "daemonset/kube-proxy" should_wait wait_timeout

  unfoldable pub upgrade_kube_proxy : KubectlOptions → String → Text → Bool → String → M (Unit {0})
  upgrade_kube_proxy options aws_region kube_proxy_version should_wait wait_timeout = do
    current_image ← get_current_deployed_kube_proxy_image
    if text_eq current_image (target_image aws_region kube_proxy_repo_path kube_proxy_version)
        then pure tt
        else replace_kube_proxy options
            (target_image aws_region kube_proxy_repo_path kube_proxy_version) should_wait
            wait_timeout

  unfoldable pub semver_string_compare : Text → Text → M Order
  semver_string_compare v1 v2 = do
    parsed_v1 ← lift (env.semver_make v1)
    parsed_v2 ← lift (env.semver_make v2)
    pure (env.semver_compare parsed_v1 parsed_v2)

  unfoldable pub remove_upstream_keyword_from_coredns_config_map : ConfigMap → M (Unit {0})
  remove_upstream_keyword_from_coredns_config_map config_map = do
    new_config_data ← lift (
        env.replace_all_string "[\\s]+upstream[\\t\\r\\n]+"
          (value_of config_map.entries coredns_config_map_config_key) "\n")
    call env (
        Call.update_config_map (record config_map {
          entries = insert coredns_config_map_config_key new_config_data config_map.entries;
        }))

  unfoldable pub reformat_if_old : ConfigMap → M (Unit {0})
  reformat_if_old config_map =
      if contains (bytes (value_of config_map.entries coredns_config_map_config_key))
        (bytes "upstream")
      then remove_upstream_keyword_from_coredns_config_map config_map
      else pure tt

  unfoldable pub update_coredns_config_map_for_170_compatibility : M (Unit {0})
  update_coredns_config_map_for_170_compatibility = do
    config_map ← call env (Call.get_config_map component_namespace coredns_config_map_name)
    reformat_if_old config_map

  -- A step that is taken from a version of CoreDNS on.
  unfoldable pub if_at_least : Text → Text → M (Unit {0}) → M (Unit {0})
  if_at_least core_dns_version first_version step = do
    compare_val ← semver_string_compare core_dns_version first_version
    if at_least compare_val then step else pure tt

  unfoldable pub replace_core_dns : KubectlOptions → Text → Bool → String → M (Unit {0})
  replace_core_dns options image should_wait wait_timeout = do
    update_core_dns_deployment_image image
    wait_for_roll_out options "deployment/coredns" should_wait wait_timeout

  unfoldable pub upgrade_core_dns : KubectlOptions → String → Text → Bool → String → M (Unit {0})
  upgrade_core_dns options aws_region core_dns_version should_wait wait_timeout = do
    if_at_least core_dns_version (bytes "1.7.0-eksbuild.1")
        update_coredns_config_map_for_170_compatibility
    if_at_least core_dns_version (bytes "1.8.3-eksbuild.1")
        (update_coredns_permissions_for_183_compatibility env)
    current_image ← get_current_deployed_core_dns_image
    if text_eq current_image (target_image aws_region core_dns_repo_path core_dns_version)
        then pure tt
        else replace_core_dns options (target_image aws_region core_dns_repo_path core_dns_version)
            should_wait wait_timeout
