-- ===== src/Eks/Sync/InPlace.antt =====
-- What an upgrade of kube-proxy or CoreDNS that returns has seen or done (eks/sync.go).
use kubergrunt.Prelude.{String, Bool, List, [], ◌∷◌, ◌≡◌, refl, ◌⊎◌, inl, inr, subst}
use kubergrunt.Strings.Dict.{text_eq, eq_of_text_eq}
use kubergrunt.Cloud.Types.{Text, KubectlOptions}
use kubergrunt.Cloud.Request.{Call, reply, History, Env}
use kubergrunt.Cloud.Monad.{M}
use kubergrunt.Cloud.Yields.{Yields-any}
use kubergrunt.Cloud.Answered.{Answered}
use kubergrunt.Cloud.Lasting.{Lasting, Triple-lasting}
use kubergrunt.Cloud.Triple.{
  Triple, Triple-pure, Triple-raise, Triple-lift, Triple-if, Triple-bind, Triple-call,
  Triple-weaken, Triple-yields,
}
use kubergrunt.Eks.Sync.Versions.{kube_proxy_repo_path, core_dns_repo_path}
use kubergrunt.Eks.Sync.Quiet.{wait-Quiet}
use kubergrunt.Eks.Sync.Images.{
  component_namespace, kube_proxy_daemon_set_name, coredns_deployment_name, target_image,
  image_patch, only_image, get_current_deployed_kube_proxy_image,
  get_current_deployed_core_dns_image, update_kube_proxy_daemonset_image,
  update_core_dns_deployment_image, replace_kube_proxy, replace_core_dns, upgrade_kube_proxy,
  upgrade_core_dns,
}

module _ (env : Env) where
  -- The daemon set of kube-proxy has the image in its only container, or was patched to have it.
  abbrev pub KubeProxyAt : Text → History → Type 0
  KubeProxyAt image h =
      Answered env (Call.get_daemon_set component_namespace kube_proxy_daemon_set_name)
        (reply (image ∷ [])) h
      ⊎ ((json : String) × (env.marshal_patches (image_patch image) ≡ reply json)
          × Answered env (Call.patch_daemon_set component_namespace kube_proxy_daemon_set_name json)
              (reply tt) h)

  -- So too the deployment of CoreDNS.
  abbrev pub CoreDnsAt : Text → History → Type 0
  CoreDnsAt image h =
      Answered env (Call.get_deployment component_namespace coredns_deployment_name)
        (reply (image ∷ [])) h
      ⊎ ((json : String) × (env.marshal_patches (image_patch image) ≡ reply json)
          × Answered env (Call.patch_deployment component_namespace coredns_deployment_name json)
              (reply tt) h)

  pub KubeProxyAt-Lasting : (image : Text) → Lasting (KubeProxyAt image)
  KubeProxyAt-Lasting image e h (inl running) = inl (inr running)
  KubeProxyAt-Lasting image e h (inr (json, same, patched)) = inr (json, same, inr patched)

  pub CoreDnsAt-Lasting : (image : Text) → Lasting (CoreDnsAt image)
  CoreDnsAt-Lasting image e h (inl running) = inl (inr running)
  CoreDnsAt-Lasting image e h (inr (json, same, patched)) = inr (json, same, inr patched)

  only-Triple :
      (component : String) (images : List Text) (P : List Text → History → Type 0)
      → Triple (P images) (only_image component images) (λ image h. P (image ∷ []) h)
  unfolding only_image
  only-Triple component [] P = Triple-raise _
  only-Triple component (image ∷ []) P = Triple-pure image (λ h p. p)
  only-Triple component (image ∷ other ∷ images) P = Triple-raise _

  kube_proxy_image-Triple :
      Triple
        (λ _. Unit {0})
        (get_current_deployed_kube_proxy_image env)
        (λ image h.
          Answered env
            (Call.get_daemon_set component_namespace kube_proxy_daemon_set_name)
            (reply (image ∷ []))
            h)
  unfolding get_current_deployed_kube_proxy_image
  kube_proxy_image-Triple =
      Triple-bind
        (λ images h.
          Answered env (Call.get_daemon_set component_namespace kube_proxy_daemon_set_name)
            (reply images) h)
        _ _
        (Triple-call env (Call.get_daemon_set component_namespace kube_proxy_daemon_set_name)
          (λ h images _ e. inl (refl, e)))
        (λ images. only-Triple "kube-proxy" images (λ images h.
          Answered env (Call.get_daemon_set component_namespace kube_proxy_daemon_set_name)
            (reply images) h))

  replace_kube_proxy-Triple :
      (options : KubectlOptions) (image : Text) (should_wait : Bool) (timeout : String)
      → Triple
          (λ _. Unit {0})
          (replace_kube_proxy env options image should_wait timeout)
          (λ _ h. KubeProxyAt image h)
  unfolding replace_kube_proxy update_kube_proxy_daemonset_image
  replace_kube_proxy-Triple options image should_wait timeout =
      Triple-bind (λ _ h. KubeProxyAt image h) _ _
        (Triple-bind (λ json _. env.marshal_patches (image_patch image) ≡ reply json) _ _
          (Triple-lift _ (λ json e h _. e))
          (λ json.
            Triple-call env
              (Call.patch_daemon_set component_namespace kube_proxy_daemon_set_name json)
              (λ h _ same e. inr (json, same, inl (refl, e)))))
        (λ _.
          Triple-lasting (KubeProxyAt image) _ (KubeProxyAt-Lasting image)
            (wait-Quiet env options _ should_wait timeout))

  pub kube_proxy-Triple :
      (options : KubectlOptions) (region : String) (version : Text) (should_wait : Bool)
      (timeout : String)
      → Triple
          (λ _. Unit {0})
          (upgrade_kube_proxy env options region version should_wait timeout)
          (λ _ h. KubeProxyAt (target_image region kube_proxy_repo_path version) h)
  unfolding upgrade_kube_proxy
  kube_proxy-Triple options region version should_wait timeout =
      let target = target_image region kube_proxy_repo_path version in
      Triple-bind _ _ _ kube_proxy_image-Triple (λ current.
        Triple-if (text_eq current target) _ _
          (λ same. Triple-pure tt (λ h running. inl (
            subst
              (λ image.
                Answered env (Call.get_daemon_set component_namespace kube_proxy_daemon_set_name)
                  (reply (image ∷ [])) h)
              (eq_of_text_eq current target same) running)))
          (λ _.
            Triple-weaken _ (λ h _. tt) (λ _ h done. done)
              (replace_kube_proxy-Triple options target should_wait timeout)))

  any-Triple : {A : Type 0} (m : M A) → Triple (λ _. Unit {0}) m (λ _ _. Unit {0})
  any-Triple m = Triple-yields m (Yields-any m)

  core_dns_image-Triple :
      Triple
        (λ _. Unit {0})
        (get_current_deployed_core_dns_image env)
        (λ image h.
          Answered env
            (Call.get_deployment component_namespace coredns_deployment_name)
            (reply (image ∷ []))
            h)
  unfolding get_current_deployed_core_dns_image
  core_dns_image-Triple =
      Triple-bind
        (λ images h.
          Answered env (Call.get_deployment component_namespace coredns_deployment_name)
            (reply images) h)
        _ _
        (Triple-call env (Call.get_deployment component_namespace coredns_deployment_name)
          (λ h images _ e. inl (refl, e)))
        (λ images. only-Triple "coredns" images (λ images h.
          Answered env (Call.get_deployment component_namespace coredns_deployment_name)
            (reply images) h))

  replace_core_dns-Triple :
      (options : KubectlOptions) (image : Text) (should_wait : Bool) (timeout : String)
      → Triple
          (λ _. Unit {0})
          (replace_core_dns env options image should_wait timeout)
          (λ _ h. CoreDnsAt image h)
  unfolding replace_core_dns update_core_dns_deployment_image
  replace_core_dns-Triple options image should_wait timeout =
      Triple-bind (λ _ h. CoreDnsAt image h) _ _
        (Triple-bind (λ json _. env.marshal_patches (image_patch image) ≡ reply json) _ _
          (Triple-lift _ (λ json e h _. e))
          (λ json.
            Triple-call env (Call.patch_deployment component_namespace coredns_deployment_name json)
              (λ h _ same e. inr (json, same, inl (refl, e)))))
        (λ _.
          Triple-lasting (CoreDnsAt image) _ (CoreDnsAt-Lasting image)
            (wait-Quiet env options _ should_wait timeout))

  pub core_dns-Triple :
      (options : KubectlOptions) (region : String) (version : Text) (should_wait : Bool)
      (timeout : String)
      → Triple
          (λ _. Unit {0})
          (upgrade_core_dns env options region version should_wait timeout)
          (λ _ h. CoreDnsAt (target_image region core_dns_repo_path version) h)
  unfolding upgrade_core_dns
  core_dns-Triple options region version should_wait timeout =
      let target = target_image region core_dns_repo_path version in
      Triple-bind (λ _ _. Unit {0}) _ _ (any-Triple _)
        (λ _.
          Triple-bind (λ _ _. Unit {0}) _ _ (any-Triple _)
            (λ _. Triple-bind _ _ _ core_dns_image-Triple (λ current.
              Triple-if (text_eq current target) _ _
                (λ same. Triple-pure tt (λ h running. inl (
                  subst
                    (λ image.
                      Answered env (Call.get_deployment component_namespace coredns_deployment_name)
                        (reply (image ∷ [])) h)
                    (eq_of_text_eq current target same) running)))
                (λ _.
                  Triple-weaken _ (λ h _. tt) (λ _ h done. done)
                    (replace_core_dns-Triple options target should_wait timeout)))))
