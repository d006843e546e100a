-- ===== src/Eks/Sync/UpToDate.antt =====
-- The images of the components that are not skipped (eks/sync.go).
use kubergrunt.Prelude.{String, Bool, true, false, Option, List, ◌≡◌}
use kubergrunt.Cloud.Types.{Text}
use kubergrunt.Cloud.Request.{Call, History, Env}
use kubergrunt.Cloud.Monad.{M, ◌>>=◌}
use kubergrunt.Cloud.Quiet.{Quiet, Quiet-bind, Quiet-call, Quiet-pure, Quiet-raise, Quiet-if}
use kubergrunt.Cloud.Yields.{Yields, Yields-pure}
use kubergrunt.Cloud.Lasting.{Lasting, Lasting-both, Triple-lasting, Triple-both}
use kubergrunt.Cloud.Triple.{Triple, Triple-bind, Triple-weaken, Triple-yields, yields-Triple}
use kubergrunt.Kubectl.Options.{eks_options}
use kubergrunt.Kubectl.Quiet.{client-Quiet}
use kubergrunt.Eks.Sync.Versions.{kube_proxy_repo_path, core_dns_repo_path}
use kubergrunt.Eks.Sync.Images.{target_image}
use kubergrunt.Eks.Sync.Quiet.{
  upgrade_kube_proxy-Quiet, upgrade_core_dns-Quiet, update_vpc_cni-Quiet,
}
use kubergrunt.Eks.Sync.InPlace.{
  KubeProxyAt, CoreDnsAt, KubeProxyAt-Lasting, CoreDnsAt-Lasting, kube_proxy-Triple,
  core_dns-Triple,
}
use kubergrunt.Eks.Sync.Components.{
  SkipComponentsConfig, only_token, get_docker_login_token, sync_unless, sync_components,
}

only_token-Quiet : (tokens : List (Option String)) → Quiet (only_token tokens)
unfolding only_token
only_token-Quiet List.[] = Quiet-raise _
only_token-Quiet (List.◌∷◌ token List.[]) = Quiet-pure _
only_token-Quiet (List.◌∷◌ token (List.◌∷◌ other tokens)) = Quiet-raise _

-- Code that adds what it yields to what holds already.
pub then-Triple :
    {A B : Type 0} {P : History → Type 0} (Q : A → History → Type 0) {R : B → History → Type 0}
    (m : M A) (next : A → M B)
    → Lasting P
    → Quiet m
    → Yields m Q
    → ((a : A) → Triple (λ h. P h × Q a h) (next a) R)
    → Triple P (m >>= next) R
then-Triple {P} Q m next l q y rest = Triple-bind _ m next (Triple-both P m l q y) rest

module _ (env : Env) where
  pub token-Quiet : (region : String) → Quiet (get_docker_login_token env region)
  unfolding get_docker_login_token
  token-Quiet region =
      Quiet-bind _ _ (Quiet-call env (Call.new_session region) tt)
        (λ _. Quiet-bind _ _ (Quiet-call env Call.get_authorization_token tt) only_token-Quiet)

  unless-Quiet : (skip : Bool) (m : M (Unit {0})) → Quiet m → Quiet (sync_unless env skip m)
  unfolding sync_unless
  unless-Quiet skip m q = Quiet-if skip _ _ (Quiet-pure tt) q

  unless-Yields :
      (skip : Bool) (m : M (Unit {0})) (Q : History → Type 0)
      → Yields m (λ _ h. Q h)
      → Yields (sync_unless env skip m) (λ _ h. skip ≡ false → Q h)
  unfolding sync_unless
  unless-Yields true m Q y = Yields-pure tt (λ h e. cc)
  unless-Yields false m Q y =
      yields-Triple _ (Triple-weaken _ (λ h k. k) (λ _ h k _. k) (Triple-yields _ y))

  -- Each component that is not skipped is at the image of its version.
  abbrev pub UpToDate : String → Text → Text → SkipComponentsConfig → History → Type 0
  UpToDate region kube_proxy_version core_dns_version skip h =
      (skip.kube_proxy ≡ false
        → KubeProxyAt env (target_image region kube_proxy_repo_path kube_proxy_version) h)
      × (skip.core_dns ≡ false
          → CoreDnsAt env (target_image region core_dns_repo_path core_dns_version) h)

  pub components-Triple :
      (P : History → Type 0) (arn region : String) (kp cd : Text) (cni : String)
      (should_wait : Bool) (timeout : String) (skip : SkipComponentsConfig)
      → Lasting P
      → Triple P
          (sync_components env arn region kp cd cni should_wait timeout skip)
          (λ _ h. P h × UpToDate region kp cd skip h)
  unfolding sync_components
  components-Triple P arn region kp cd cni should_wait timeout skip l =
      let KP : History → Type 0 = λ h.
        skip.kube_proxy ≡ false → KubeProxyAt env (target_image region kube_proxy_repo_path kp) h in
      let CD : History → Type 0 =
        λ h. skip.core_dns ≡ false → CoreDnsAt env (target_image region core_dns_repo_path cd) h in
      let kp_lasts : Lasting KP = λ e h k s. KubeProxyAt-Lasting env _ e h (k s) in
      let cd_lasts : Lasting CD = λ e h k s. CoreDnsAt-Lasting env _ e h (k s) in
      Triple-bind (λ _ h. P h) _ _ (Triple-lasting P _ l (client-Quiet env (eks_options arn)))
        (λ _.
          then-Triple (λ _ h. KP h) _ _ l
            (unless-Quiet _ _
              (upgrade_kube_proxy-Quiet env (eks_options arn) region kp should_wait timeout))
            (unless-Yields skip.kube_proxy _ _ (
              yields-Triple _
                (kube_proxy-Triple env (eks_options arn) region kp should_wait timeout)))
            (λ _.
              then-Triple (λ _ h. CD h) _ _ (Lasting-both P KP l kp_lasts)
                (unless-Quiet _ _
                  (upgrade_core_dns-Quiet env (eks_options arn) region cd should_wait timeout))
                (unless-Yields skip.core_dns _ _ (
                  yields-Triple _
                    (core_dns-Triple env (eks_options arn) region cd should_wait timeout)))
                (λ _.
                  Triple-weaken _ (λ h k. (k.0.0, (k.0.1, k.1))) (λ _ h k. k)
                    (Triple-lasting (λ h. P h × (KP h × CD h)) _
                      (Lasting-both P _ l (Lasting-both KP CD kp_lasts cd_lasts))
                      (unless-Quiet _ _ (update_vpc_cni-Quiet env (eks_options arn) region cni))))))
