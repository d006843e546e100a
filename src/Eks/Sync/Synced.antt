-- ===== src/Eks/Sync/Synced.antt =====
-- What a sync of the core components that succeeds has done (eks/sync.go, SyncClusterComponents).
use kubergrunt.Prelude.{String, Bool, true, Option, some, ◌≡◌, inr, subst}
use kubergrunt.Strings.Bytes.{bytes}
use kubergrunt.Cloud.Types.{Text, Arn, Cluster}
use kubergrunt.Cloud.Request.{reply, History, Env}
use kubergrunt.Cloud.Monad.{ok, ◌>>=◌}
use kubergrunt.Cloud.Yields.{Yields, Yields-ok}
use kubergrunt.Cloud.Lasting.{Lasting, Lasting-both, Triple-lasting}
use kubergrunt.Cloud.Triple.{
  Triple, Triple-pure, Triple-raise, Triple-if, Triple-bind, Triple-or_panic, Triple-weaken,
  Triple-yields, Triple-assume, Triple-some, yields-Triple,
}
use kubergrunt.Kubectl.Quiet.{region_from_arn-Quiet}
use kubergrunt.EksAwsHelper.Found.{Described, region-Yields, cluster-Yields}
use kubergrunt.Eks.EksBuild.{find_latest_eks_build}
use kubergrunt.Eks.EksBuild.Tagged.{Tagged, Tagged-Lasting, find_latest-Triple, find_latest-Quiet}
use kubergrunt.Eks.Sync.Versions.{
  kube_proxy_repo_path, core_dns_repo_path, supported_versions, core_dns_version_lookup_table,
  kube_proxy_version_lookup_table, amazon_vpc_cni_version_lookup_table, value_of, get_repo_domain,
}
use kubergrunt.Eks.Sync.Components.{
  SkipComponentsConfig, ensure_supported, sync_components, sync_to_version, sync_cluster_components,
}
use kubergrunt.Eks.Sync.UpToDate.{then-Triple, token-Quiet, UpToDate, components-Triple}

module _ (env : Env) where
  -- The components are at the images of the versions that are in the tables for the version of the
  -- cluster, with a build of which the repository has said that it has the tag.
  abbrev pub AtVersion : String → String → SkipComponentsConfig → History → Type 0
  AtVersion region k8s_version skip h =
      (token : String) × (kube_proxy_version : Text) × (core_dns_version : Text) × Tagged env token
        (get_repo_domain region) kube_proxy_repo_path
        (bytes (value_of kube_proxy_version_lookup_table k8s_version)) kube_proxy_version h
      × Tagged env token (get_repo_domain region) core_dns_repo_path
          (bytes (value_of core_dns_version_lookup_table k8s_version)) core_dns_version h
      × UpToDate env region kube_proxy_version core_dns_version skip h

  versions-Triple :
      (P : History → Type 0) (region cluster_arn k8s_version : String) (should_wait : Bool)
      (timeout : String) (skip : SkipComponentsConfig) (token : String)
      → Lasting P
      → Triple P
          (do
            kube_proxy_version ←
                find_latest_eks_build env token
                  (get_repo_domain region)
                  kube_proxy_repo_path
                  (bytes (value_of kube_proxy_version_lookup_table k8s_version))
            core_dns_version ←
                find_latest_eks_build env token
                  (get_repo_domain region)
                  core_dns_repo_path
                  (bytes (value_of core_dns_version_lookup_table k8s_version))
            sync_components env cluster_arn region kube_proxy_version core_dns_version
                (value_of amazon_vpc_cni_version_lookup_table k8s_version)
                should_wait
                timeout
                skip)
          (λ _ h. P h × AtVersion region k8s_version skip h)
  versions-Triple P region cluster_arn k8s_version should_wait timeout skip token l =
      let domain = get_repo_domain region in
      let kp_base = bytes (value_of kube_proxy_version_lookup_table k8s_version) in
      let cd_base = bytes (value_of core_dns_version_lookup_table k8s_version) in
      then-Triple (Tagged env token domain kube_proxy_repo_path kp_base) _ _ l
        (find_latest-Quiet env token domain kube_proxy_repo_path kp_base)
        (yields-Triple _ (find_latest-Triple env token domain kube_proxy_repo_path kp_base))
        (λ kp.
          let l1 =
            Lasting-both P _ l (Tagged-Lasting env token domain kube_proxy_repo_path kp_base kp) in
          then-Triple (Tagged env token domain core_dns_repo_path cd_base) _ _ l1
            (find_latest-Quiet env token domain core_dns_repo_path cd_base)
            (yields-Triple _ (find_latest-Triple env token domain core_dns_repo_path cd_base))
            (λ cd.
              Triple-weaken _ (λ h k. k) (λ _ h k. (k.0.0.0, (token, kp, cd, k.0.0.1, k.0.1, k.1)))
                (components-Triple env _ cluster_arn region kp cd _ should_wait timeout skip (
                  Lasting-both _ _ l1
                    (Tagged-Lasting env token domain core_dns_repo_path cd_base cd)))))

  -- The version is one of the supported ones.
  abbrev pub Supported : String → Type 0
  Supported k8s_version = env.list_contains_element supported_versions k8s_version ≡ true

  to_version-Triple :
      (P : History → Type 0) (arn : Arn) (cluster_arn k8s_version : String) (should_wait : Bool)
      (timeout : String) (skip : SkipComponentsConfig)
      → Lasting P
      → env.parse_arn cluster_arn ≡ reply arn
      → Triple P
          (sync_to_version env cluster_arn k8s_version should_wait timeout skip)
          (λ _ h. Supported k8s_version × (P h × AtVersion arn.region k8s_version skip h))
  unfolding sync_to_version ensure_supported
  to_version-Triple P arn cluster_arn k8s_version should_wait timeout skip l parsed =
      Triple-bind (λ _ h. P h × Supported k8s_version) _ _
        (Triple-if (env.list_contains_element supported_versions k8s_version) _ _
          (λ supported. Triple-pure tt (λ h p. (p, supported))) (λ _. Triple-raise _))
        (λ _.
          then-Triple (λ region _. region ≡ arn.region) _ _
            (Lasting-both P (λ _. Supported k8s_version) l (λ e h k. k))
            (region_from_arn-Quiet env cluster_arn) (region-Yields env cluster_arn arn parsed)
            (λ region.
              Triple-assume _ (λ h k. k.1)
                (λ same.
                  Triple-bind (λ _ h. P h × Supported k8s_version) _ _
                    (Triple-weaken _ (λ h k. k.0) (λ _ h k. k)
                      (Triple-lasting (λ h. P h × Supported k8s_version) _
                        (Lasting-both P (λ _. Supported k8s_version) l (λ e h k. k))
                        (token-Quiet env region)))
                    (λ token.
                      Triple-weaken _ (λ h k. k)
                        (λ _ h k.
                          (k.0.1, (k.0.0, subst (λ r. AtVersion r k8s_version skip h) same k.1)))
                        (versions-Triple _ region cluster_arn k8s_version should_wait timeout skip
                          token (Lasting-both P (λ _. Supported k8s_version) l (λ e h k. k)))))))

  -- What AWS has said of the cluster, and what was done for it.
  abbrev pub Synced : String → SkipComponentsConfig → History → Type 0
  Synced cluster_arn skip h =
      (arn : Arn) × (cluster : Cluster) × Described env cluster_arn arn (some cluster) h
      × Supported cluster.version
      × AtVersion arn.region cluster.version skip h

  Described-Lasting :
      (cluster_arn : String) (arn : Arn) (cluster : Option Cluster)
      → Lasting (Described env cluster_arn arn cluster)
  Described-Lasting cluster_arn arn cluster e h k = (k.0, inr k.1)

  Described-Triple :
      (cluster_arn : String) (cluster : Cluster) (should_wait : Bool) (timeout : String)
      (skip : SkipComponentsConfig)
      → Triple
          (λ h. (arn : Arn) × Described env cluster_arn arn (some cluster) h)
          (sync_to_version env cluster_arn cluster.version should_wait timeout skip)
          (λ _ h. Synced cluster_arn skip h)
  Described-Triple cluster_arn cluster should_wait timeout skip = Triple-some _ (λ arn.
      Triple-assume _ (λ h k. k.0)
        (λ parsed.
          Triple-weaken _ (λ h k. k) (λ _ h k. (arn, cluster, k.1.0, k.0, k.1.1))
            (to_version-Triple (Described env cluster_arn arn (some cluster)) arn cluster_arn
              cluster.version should_wait timeout skip
              (Described-Lasting cluster_arn arn (some cluster)) parsed)))

  sync-Yields :
      (cluster_arn : String) (should_wait : Bool) (timeout : String) (skip : SkipComponentsConfig)
      → Yields
          (sync_cluster_components env cluster_arn should_wait timeout skip)
          (λ _ h. Synced cluster_arn skip h)
  unfolding sync_cluster_components
  sync-Yields cluster_arn should_wait timeout skip = yields-Triple _ (
      Triple-bind _ _ _ (Triple-yields _ (cluster-Yields env cluster_arn)) (λ found.
        Triple-bind (λ cluster h. (arn : Arn) × Described env cluster_arn arn (some cluster) h) _ _
          (Triple-or_panic found (λ cluster same h k.
            subst (λ o. (arn : Arn) × Described env cluster_arn arn o h) same k))
          (λ cluster. Described-Triple cluster_arn cluster should_wait timeout skip)))

  -- When a sync succeeds, AWS has described the cluster of the ARN, and its version is one of those
  -- in the list of supported versions. For kube-proxy and for CoreDNS there is a version, which is
  -- that of the table for the version of the cluster, or of which the registry of the ARN's region
  -- has answered that it has the tag; and each of the two that is not skipped has been read with the
  -- image of its version in its only container, or has been patched to it by a request that was
  -- accepted.
  pub sync_cluster_components-Synced :
      (cluster_arn : String) (should_wait : Bool) (timeout : String) (skip : SkipComponentsConfig)
      (h : History)
      → (sync_cluster_components env cluster_arn should_wait timeout skip h).0 ≡ ok tt
      → Synced cluster_arn skip
          (sync_cluster_components env cluster_arn should_wait timeout skip h).1
  sync_cluster_components-Synced cluster_arn should_wait timeout skip h =
      Yields-ok {Q = λ _ h. Synced cluster_arn skip h} _ h
        (sync-Yields cluster_arn should_wait timeout skip)
