-- ===== src/Eks/Sync/Unlisted.antt =====
-- A sync for a version of Kubernetes that the table of kube-proxy versions has no entry for
-- (eks/sync.go).
use kubergrunt.Prelude.{
  String, Bool, true, false, some, [], ◌∷◌, ◌≡◌, sym, ap, ◌∙◌, subst, inl, inr,
}
use kubergrunt.Strings.Bytes.{bytes, contains}
use kubergrunt.Cloud.Types.{Text, Arn, Cluster}
use kubergrunt.Cloud.Request.{Call, Reply, Answer, reply, History, Env}
use kubergrunt.Cloud.Monad.{ok}
use kubergrunt.Cloud.Answered.{Answered}
use kubergrunt.EksAwsHelper.{cluster_name_of_resource}
use kubergrunt.Eks.EksBuild.{eksbuild}
use kubergrunt.Eks.EksBuild.Tagged.{Tagged}
use kubergrunt.Eks.Sync.Versions.{kube_proxy_repo_path, kube_proxy_version_lookup_table, value_of}
use kubergrunt.Eks.Sync.Images.{target_image}
use kubergrunt.Eks.Sync.InPlace.{KubeProxyAt}
use kubergrunt.Eks.Sync.Components.{SkipComponentsConfig, sync_cluster_components}
use kubergrunt.Eks.Sync.Synced.{Synced, sync_cluster_components-Synced}

-- A request that always has the same answer has had no other.
only_answer :
    (env : Env) (c : Call) (a b : Answer (Reply c)) (h : History)
    → ((h' : History) → env.respond h' c ≡ b)
    → Answered env c a h
    → a ≡ b
only_answer env c a b [] always never = absurd never
only_answer env c a b (e ∷ h) always (inl (same, answered)) = sym answered ∙ always h
only_answer env c a b (e ∷ h) always (inr before) = only_answer env c a b h always before

-- The version of an empty base is empty.
untagged :
    (env : Env) (token : String) (domain path base version : Text) (h : History)
    → base ≡ []
    → Tagged env token domain path base version h
    → version ≡ []
unfolding contains
untagged env token domain path base version h empty (inl (plain, same)) = same ∙ empty
untagged env token domain path base version h empty (inr (listed, build, same, tag)) =
    let none : contains [] eksbuild ≡ true = subst (λ b. contains b eksbuild ≡ true) empty listed in
    absurd cc

module _ (env : Env) where
  -- If AWS always describes the cluster of an ARN with a version that the table of kube-proxy
  -- versions has no entry for, then a sync that succeeds and does not skip kube-proxy has read
  -- kube-proxy with an image that has an empty version, or has patched it to that image.
  pub sync_cluster_components-unlisted :
      (cluster_arn : String) (arn : Arn) (cluster : Cluster) (should_wait : Bool) (timeout : String)
      (skip : SkipComponentsConfig) (h : History)
      → env.parse_arn cluster_arn ≡ reply arn
      → ((h' : History)
          → env.respond h' (Call.describe_cluster (cluster_name_of_resource arn.resource))
            ≡ reply (some cluster))
      → value_of kube_proxy_version_lookup_table cluster.version ≡ ""
      → skip.kube_proxy ≡ false
      → (sync_cluster_components env cluster_arn should_wait timeout skip h).0 ≡ ok tt
      → KubeProxyAt env
          (target_image arn.region kube_proxy_repo_path [])
          (sync_cluster_components env cluster_arn should_wait timeout skip h).1
  sync_cluster_components-unlisted cluster_arn arn cluster should_wait timeout skip h parsed always
        unlisted taken e =
      at_empty _ (sync_cluster_components-Synced env cluster_arn should_wait timeout skip h e)
    where
      at_empty :
          (h : History)
          → Synced env cluster_arn skip h
          → KubeProxyAt env (target_image arn.region kube_proxy_repo_path []) h
      at_empty h
            (
              arn',
              cluster',
              (parsed', answered),
              supported,
              (token, kp, cd, kp_tag, cd_tag, (kp_at, cd_at)),
            ) =
          let same_arn : arn' ≡ arn = cc in
          let there : Answered env (Call.describe_cluster (cluster_name_of_resource arn.resource))
              (reply (some cluster')) h =
            subst
              (λ (a : Arn).
                Answered env (Call.describe_cluster (cluster_name_of_resource a.resource))
                  (reply (some cluster')) h)
              same_arn answered in
          let one =
            only_answer env (Call.describe_cluster (cluster_name_of_resource arn.resource))
              (reply (some cluster')) (reply (some cluster)) h always there in
          let same_cluster : cluster' ≡ cluster = cc in
          let base : bytes (value_of kube_proxy_version_lookup_table cluster'.version) ≡ [] =
            ap (λ (c : Cluster). bytes (value_of kube_proxy_version_lookup_table c.version))
              same_cluster
            ∙ ap bytes unlisted in
          subst (λ (a : Arn). KubeProxyAt env (target_image a.region kube_proxy_repo_path []) h)
            same_arn
            (subst
              (λ version. KubeProxyAt env (target_image arn'.region kube_proxy_repo_path version) h)
              (untagged env token _ _ _ kp h base kp_tag) (kp_at taken))
