-- ===== src/Tests/Sync.antt =====
-- The theorem on the sync of the core components, applied in the small cluster (eks/sync.go).
use kubergrunt.Prelude.{true, false, [], ◌||◌, refl, if◌then◌else◌, some}
use kubergrunt.Strings.Bytes.{bytes, has_prefix, contains, replace_from}
use kubergrunt.Strings.Dict.{text_eq, find, put}
use kubergrunt.Cloud.Request.{Call, Reply, Answer, reply, History, Env}
use kubergrunt.Eks.Sync.Components.{
  SkipComponentsConfig, sync_cluster_components, only_token, get_docker_login_token,
  ensure_supported, sync_unless, sync_components, sync_to_version,
}
use kubergrunt.Eks.Sync.Synced.{Synced, sync_cluster_components-Synced}
use kubergrunt.Eks.Sync.Images.{
  target_image, only_image, at_least, get_current_deployed_kube_proxy_image,
  update_kube_proxy_daemonset_image, get_current_deployed_core_dns_image,
  update_core_dns_deployment_image, wait_for_roll_out, replace_kube_proxy, upgrade_kube_proxy,
  semver_string_compare, remove_upstream_keyword_from_coredns_config_map, reformat_if_old,
  update_coredns_config_map_for_170_compatibility, if_at_least, replace_core_dns, upgrade_core_dns,
}
use kubergrunt.Eks.Sync.Versions.{
  value_or_empty, value_of, account_or_default, get_repo_domain, kube_proxy_repo_path,
}
use kubergrunt.Strings.{lookup, insert}
use kubergrunt.Strings.Split.{onto_head, split, join}
use kubergrunt.Eks.EksBuild.{
  decimal, version_of, is_some, tag_exists_of_status, tag_exists_in_repo, search_builds, found_tag,
  find_latest_eks_build,
}
use kubergrunt.Eks.CorednsPermissions.{
  new_rule, rule_grants, scan_rules, has_endpoint_slices_permissions, update_rules,
  update_coredns_permissions_for_183_compatibility,
}
use kubergrunt.Kubectl.Options.{
  auth_scheme, eks_options, get_kube_credentials_from_eks_cluster, save_config_to_file,
  temp_config_from_direct_auth_info, temp_config_from_eks_cluster_info, temp_config_for_scheme,
  temp_config_when_closed, temp_config_when_created, temp_config_from_auth_info, client_for_scheme,
  get_kubernetes_client_from_options,
}
use kubergrunt.Kubectl.Config.{create_initial_config, add_cluster_to_config, add_context_to_config}
use kubergrunt.Kubectl.Command.{
  remove_temp_file, run_with_temp_config, run_for_scheme, run_kubectl_with_output, run_kubectl,
}
use kubergrunt.Cloud.Monad.{pure, raise, crash, hang, lift, or_panic, ◌>>=◌, attempt, call}
use kubergrunt.EksAwsHelper.{
  cluster_name_of_resource, get_cluster_name_from_arn, get_region_from_arn, new_eks_client,
  get_cluster_by_arn, get_kubernetes_token_for_cluster,
}
use kubergrunt.Eks.Sync.InPlace.{KubeProxyAt}
use kubergrunt.Eks.Sync.Unlisted.{sync_cluster_components-unlisted}
use kubergrunt.Cloud.Types.{Cluster}
use kubergrunt.Tests.World.{world}

-- The first builds of the images are in the registry.
abbrev registry : History → (c : Call) → Answer (Reply c)
registry h (Call.get_manifest _ _ _ tag) = reply (
    if text_eq tag (bytes "v1.34.1-eksbuild.1") || text_eq tag (bytes "v1.12.4-eksbuild.1")
    then 200
    else 404)
registry h c = world.respond h c

abbrev cluster : Env
cluster = record world { respond = registry }

abbrev all : SkipComponentsConfig
all = record { kube_proxy = false; core_dns = false; vpc_cni = true }

sync_cluster_components-Synced_example :
    Synced cluster "arn" all (sync_cluster_components cluster "arn" true "10m" all []).1
unfolding only_token get_docker_login_token ensure_supported sync_unless sync_components
    sync_to_version sync_cluster_components target_image only_image at_least
    get_current_deployed_kube_proxy_image update_kube_proxy_daemonset_image
    get_current_deployed_core_dns_image update_core_dns_deployment_image wait_for_roll_out
    replace_kube_proxy upgrade_kube_proxy semver_string_compare
    remove_upstream_keyword_from_coredns_config_map reformat_if_old
    update_coredns_config_map_for_170_compatibility if_at_least replace_core_dns upgrade_core_dns
    value_or_empty value_of account_or_default get_repo_domain lookup insert has_prefix contains
    replace_from onto_head split join text_eq find put decimal version_of is_some
    tag_exists_of_status tag_exists_in_repo search_builds found_tag find_latest_eks_build new_rule
    rule_grants scan_rules has_endpoint_slices_permissions update_rules
    update_coredns_permissions_for_183_compatibility auth_scheme eks_options
    get_kube_credentials_from_eks_cluster save_config_to_file temp_config_from_direct_auth_info
    temp_config_from_eks_cluster_info temp_config_for_scheme temp_config_when_closed
    temp_config_when_created temp_config_from_auth_info client_for_scheme
    get_kubernetes_client_from_options create_initial_config add_cluster_to_config
    add_context_to_config remove_temp_file run_with_temp_config run_for_scheme
    run_kubectl_with_output run_kubectl pure raise crash hang lift or_panic ◌>>=◌ attempt call
    cluster_name_of_resource get_cluster_name_from_arn get_region_from_arn new_eks_client
    get_cluster_by_arn get_kubernetes_token_for_cluster
sync_cluster_components-Synced_example =
    sync_cluster_components-Synced cluster "arn" true "10m" all [] refl

-- A cluster of a version without an entry.
abbrev old_cluster : Cluster
old_cluster = record {
  arn = some "arn";
  status = "ACTIVE";
  endpoint = "https://cluster";
  certificate_authority = "pem";
  version = "1.25";
}

abbrev old_registry : History → (c : Call) → Answer (Reply c)
old_registry h (Call.describe_cluster _) = reply (some old_cluster)
old_registry h c = world.respond h c

abbrev old : Env
old = record world { respond = old_registry }

sync_cluster_components-unlisted_example :
    KubeProxyAt old
      (target_image "eu-west-1" kube_proxy_repo_path [])
      (sync_cluster_components old "arn" false "10m" all []).1
unfolding only_token get_docker_login_token ensure_supported sync_unless sync_components
    sync_to_version sync_cluster_components target_image only_image at_least
    get_current_deployed_kube_proxy_image update_kube_proxy_daemonset_image
    get_current_deployed_core_dns_image update_core_dns_deployment_image wait_for_roll_out
    replace_kube_proxy upgrade_kube_proxy semver_string_compare
    remove_upstream_keyword_from_coredns_config_map reformat_if_old
    update_coredns_config_map_for_170_compatibility if_at_least replace_core_dns upgrade_core_dns
    value_or_empty value_of account_or_default get_repo_domain lookup insert has_prefix contains
    replace_from onto_head split join text_eq find put decimal version_of is_some
    tag_exists_of_status tag_exists_in_repo search_builds found_tag find_latest_eks_build new_rule
    rule_grants scan_rules has_endpoint_slices_permissions update_rules
    update_coredns_permissions_for_183_compatibility auth_scheme eks_options
    get_kube_credentials_from_eks_cluster save_config_to_file temp_config_from_direct_auth_info
    temp_config_from_eks_cluster_info temp_config_for_scheme temp_config_when_closed
    temp_config_when_created temp_config_from_auth_info client_for_scheme
    get_kubernetes_client_from_options create_initial_config add_cluster_to_config
    add_context_to_config remove_temp_file run_with_temp_config run_for_scheme
    run_kubectl_with_output run_kubectl pure raise crash hang lift or_panic ◌>>=◌ attempt call
    cluster_name_of_resource get_cluster_name_from_arn get_region_from_arn new_eks_client
    get_cluster_by_arn get_kubernetes_token_for_cluster
sync_cluster_components-unlisted_example =
    sync_cluster_components-unlisted old "arn" (record { region = "eu-west-1"; resource = [] })
      old_cluster false "10m" all [] refl (λ h. refl) refl refl refl
