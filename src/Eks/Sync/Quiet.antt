-- ===== src/Eks/Sync/Quiet.antt =====
-- The upgrades of the core components (eks/sync.go) terminate no instance and write no state file.
use kubergrunt.Prelude.{String, Bool, ◌&&◌, List, [], ◌∷◌, Option, none, some}
use kubergrunt.Strings.Bytes.{bytes, contains}
use kubergrunt.Strings.Dict.{text_eq}
use kubergrunt.Eks.Sync.Versions.{value_of}
use kubergrunt.Cloud.Types.{Text, KubectlOptions, ConfigMap, PolicyRule}
use kubergrunt.Cloud.Request.{Call, Env}
use kubergrunt.Cloud.Monad.{M}
use kubergrunt.Cloud.Quiet.{
  Quiet, Quiet-bind, Quiet-call, Quiet-pure, Quiet-raise, Quiet-lift, Quiet-if, Quiet-attempt,
}
use kubergrunt.Kubectl.Quiet.{run_kubectl-Quiet}
use kubergrunt.Eks.CorednsPermissions.{
  coredns_cluster_role_name, update_rules, update_coredns_permissions_for_183_compatibility,
}
use kubergrunt.Eks.Sync.VpcCni.{
  write_lines, scan_result, copy_manifest, download_vpc_cni_manifest_and_update_region,
  apply_manifest, download_and_apply, apply_for_region, apply_by_region, update_vpc_cni,
}
use kubergrunt.Cloud.Failure.{Error}
use kubergrunt.Eks.Sync.Images.{
  component_namespace, kube_proxy_daemon_set_name, coredns_deployment_name, coredns_config_map_name,
  coredns_config_map_config_key, only_image, at_least, get_current_deployed_kube_proxy_image,
  get_current_deployed_core_dns_image, update_kube_proxy_daemonset_image,
  update_core_dns_deployment_image, wait_for_roll_out, replace_kube_proxy, replace_core_dns,
  upgrade_kube_proxy, upgrade_core_dns, semver_string_compare, if_at_least,
  remove_upstream_keyword_from_coredns_config_map, reformat_if_old,
  update_coredns_config_map_for_170_compatibility,
}

only_image-Quiet : (component : String) (images : List Text) → Quiet (only_image component images)
unfolding only_image
only_image-Quiet component [] = Quiet-raise _
only_image-Quiet component (image ∷ []) = Quiet-pure image
only_image-Quiet component (image ∷ other ∷ images) = Quiet-raise _

module _ (env : Env) where
  pub wait-Quiet :
      (options : KubectlOptions) (resource : String) (should_wait : Bool) (timeout : String)
      → Quiet (wait_for_roll_out env options resource should_wait timeout)
  unfolding wait_for_roll_out
  wait-Quiet options resource should_wait timeout =
      Quiet-if should_wait _ _ (run_kubectl-Quiet env options _) (Quiet-pure tt)

  kube_proxy_image-Quiet : Quiet (get_current_deployed_kube_proxy_image env)
  unfolding get_current_deployed_kube_proxy_image
  kube_proxy_image-Quiet =
      Quiet-bind _ _
        (Quiet-call env (Call.get_daemon_set component_namespace kube_proxy_daemon_set_name) tt)
        (only_image-Quiet "kube-proxy")

  core_dns_image-Quiet : Quiet (get_current_deployed_core_dns_image env)
  unfolding get_current_deployed_core_dns_image
  core_dns_image-Quiet =
      Quiet-bind _ _
        (Quiet-call env (Call.get_deployment component_namespace coredns_deployment_name) tt)
        (only_image-Quiet "coredns")

  replace_kube_proxy-Quiet :
      (options : KubectlOptions) (image : Text) (should_wait : Bool) (timeout : String)
      → Quiet (replace_kube_proxy env options image should_wait timeout)
  unfolding replace_kube_proxy update_kube_proxy_daemonset_image
  replace_kube_proxy-Quiet options image should_wait timeout =
      Quiet-bind _ _
        (Quiet-bind _ _ (Quiet-lift _) (λ patch.
          Quiet-call env
            (Call.patch_daemon_set component_namespace kube_proxy_daemon_set_name patch) tt))
        (λ _. wait-Quiet options _ should_wait timeout)

  replace_core_dns-Quiet :
      (options : KubectlOptions) (image : Text) (should_wait : Bool) (timeout : String)
      → Quiet (replace_core_dns env options image should_wait timeout)
  unfolding replace_core_dns update_core_dns_deployment_image
  replace_core_dns-Quiet options image should_wait timeout =
      Quiet-bind _ _
        (Quiet-bind _ _ (Quiet-lift _) (λ patch.
          Quiet-call env (Call.patch_deployment component_namespace coredns_deployment_name patch)
            tt))
        (λ _. wait-Quiet options _ should_wait timeout)

  pub upgrade_kube_proxy-Quiet :
      (options : KubectlOptions) (region : String) (version : Text) (should_wait : Bool)
      (timeout : String)
      → Quiet (upgrade_kube_proxy env options region version should_wait timeout)
  unfolding upgrade_kube_proxy
  upgrade_kube_proxy-Quiet options region version should_wait timeout =
      Quiet-bind _ _ kube_proxy_image-Quiet (λ current.
        Quiet-if (text_eq current _) _ _ (Quiet-pure tt)
          (replace_kube_proxy-Quiet options _ should_wait timeout))

  reformat-Quiet : (config_map : ConfigMap) → Quiet (reformat_if_old env config_map)
  unfolding reformat_if_old remove_upstream_keyword_from_coredns_config_map
  reformat-Quiet config_map =
      Quiet-if
        (contains (bytes (value_of config_map.entries coredns_config_map_config_key))
          (bytes "upstream"))
        _ _
        (Quiet-bind _ _ (Quiet-lift _) (λ new_config. Quiet-call env (Call.update_config_map _) tt))
        (Quiet-pure tt)

  config_map-Quiet : Quiet (update_coredns_config_map_for_170_compatibility env)
  unfolding update_coredns_config_map_for_170_compatibility
  config_map-Quiet =
      Quiet-bind _ _
        (Quiet-call env (Call.get_config_map component_namespace coredns_config_map_name) tt)
        reformat-Quiet

  rules-Quiet : (rules : List PolicyRule) (held : Bool × Bool) → Quiet (update_rules env rules held)
  unfolding update_rules
  rules-Quiet rules (has_list, has_watch) =
      Quiet-if (has_list && has_watch) _ _ (Quiet-pure tt)
        (Quiet-call env (Call.update_cluster_role coredns_cluster_role_name _) tt)

  permissions-Quiet : Quiet (update_coredns_permissions_for_183_compatibility env)
  unfolding update_coredns_permissions_for_183_compatibility
  permissions-Quiet =
      Quiet-bind _ _ (Quiet-call env (Call.get_cluster_role coredns_cluster_role_name) tt)
        (λ rules. rules-Quiet rules _)

  pub if_at_least-Quiet :
      (version first : Text) (step : M (Unit {0}))
      → Quiet step
      → Quiet (if_at_least env version first step)
  unfolding if_at_least semver_string_compare
  if_at_least-Quiet version first step q =
      Quiet-bind _ _
        (Quiet-bind _ _ (Quiet-lift _) (λ v1. Quiet-bind _ _ (Quiet-lift _) (λ v2. Quiet-pure _)))
        (λ order. Quiet-if (at_least order) _ _ q (Quiet-pure tt))

  pub upgrade_core_dns-Quiet :
      (options : KubectlOptions) (region : String) (version : Text) (should_wait : Bool)
      (timeout : String)
      → Quiet (upgrade_core_dns env options region version should_wait timeout)
  unfolding upgrade_core_dns
  upgrade_core_dns-Quiet options region version should_wait timeout =
      Quiet-bind _ _ (if_at_least-Quiet version _ _ config_map-Quiet) (λ _.
        Quiet-bind _ _ (if_at_least-Quiet version _ _ permissions-Quiet) (λ _.
          Quiet-bind _ _ core_dns_image-Quiet (λ current.
            Quiet-if (text_eq current _) _ _ (Quiet-pure tt)
              (replace_core_dns-Quiet options _ should_wait timeout))))

  write_lines-Quiet :
      (fpath region : String) (lines : List Text) → Quiet (write_lines env fpath region lines)
  unfolding write_lines
  write_lines-Quiet fpath region [] = Quiet-pure tt
  write_lines-Quiet fpath region (line ∷ lines) =
      Quiet-bind _ _ (Quiet-call env (Call.write_line fpath _) tt)
        (λ _. write_lines-Quiet fpath region lines)

  scan_result-Quiet : (e : Option Error) → Quiet (scan_result e)
  unfolding scan_result
  scan_result-Quiet none = Quiet-pure tt
  scan_result-Quiet (some e) = Quiet-raise e

  copy-Quiet : (url fpath region : String) → Quiet (copy_manifest env url fpath region)
  unfolding copy_manifest
  copy-Quiet url fpath region = Quiet-bind _ _ (Quiet-call env (Call.http_get url) tt) (λ body.
      Quiet-bind _ _ (write_lines-Quiet fpath region body.0) (λ _. scan_result-Quiet body.1))

  download-Quiet :
      (url fpath region : String)
      → Quiet (download_vpc_cni_manifest_and_update_region env url fpath region)
  unfolding download_vpc_cni_manifest_and_update_region
  download-Quiet url fpath region =
      Quiet-bind _ _ (Quiet-call env (Call.create_file fpath) tt) (λ _.
        Quiet-bind _ _ (Quiet-attempt _ (copy-Quiet url fpath region)) (λ copied.
          Quiet-bind _ _ (Quiet-attempt _ (Quiet-call env (Call.close_file fpath) tt))
            (λ _. Quiet-lift copied)))

  apply-Quiet :
      (options : KubectlOptions) (region base_url path : String)
      → Quiet (download_and_apply env options region base_url path)
  unfolding download_and_apply apply_manifest
  apply-Quiet options region base_url path =
      Quiet-bind _ _ (download-Quiet _ path region) (λ _. run_kubectl-Quiet env options _)

  for_region-Quiet :
      (options : KubectlOptions) (region base_url : String)
      → Quiet (apply_for_region env options region base_url)
  unfolding apply_for_region
  for_region-Quiet options region base_url =
      Quiet-bind _ _ (Quiet-call env (Call.temp_dir "kubergrunt-sync") tt) (λ dir.
        Quiet-bind _ _ (Quiet-attempt _ (apply-Quiet options region base_url _)) (λ applied.
          Quiet-bind _ _ (Quiet-attempt _ (Quiet-call env (Call.remove_all dir) tt))
            (λ _. Quiet-lift applied)))

  by_region-Quiet :
      (options : KubectlOptions) (region base_url : String) (manifest : Option String)
      → Quiet (apply_by_region env options region base_url manifest)
  unfolding apply_by_region apply_manifest
  by_region-Quiet options region base_url none = for_region-Quiet options region base_url
  by_region-Quiet options region base_url (some manifest) = run_kubectl-Quiet env options _

  pub update_vpc_cni-Quiet :
      (options : KubectlOptions) (region version : String)
      → Quiet (update_vpc_cni env options region version)
  unfolding update_vpc_cni
  update_vpc_cni-Quiet options region version = by_region-Quiet options region _ _
