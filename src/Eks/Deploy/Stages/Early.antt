-- ===== src/Eks/Deploy/Stages/Early.antt =====
-- The stages that bring up new nodes and empty the old ones (eks/deploy_state.go).
use kubergrunt.Prelude.{
  ℕ, String, Bool, true, false, some, List, [], ◌∷◌, ◌++◌, ◌≡◌, refl, sym, subst, arith,
  if◌then◌else◌,
}
use kubergrunt.Cloud.Types.{Asg, DeployState, KubectlOptions}
use kubergrunt.Cloud.Request.{History, Env}
use kubergrunt.Cloud.Retry.{Retry, RetryLaws}
use kubergrunt.Cloud.Monad.{M, pure, or_panic, ◌>>=◌}
use kubergrunt.Cloud.Quiet.{Extends, Quiet, Quiet-if, Quiet-pure, quiet_rules}
use kubergrunt.Eks.Quiet.{
  get_asg_info-Quiet, set_asg_max_size-Quiet, wait_for_capacity-Quiet, scale_up-Quiet,
  drain_in_asg-Quiet, cordon_in_asg-Quiet, wait_and_verify-Quiet,
}
use kubergrunt.Eks.Deploy.{
  Session, first_asg, set_first_asg, persisted, get_default_max_retries, ensure_max_retries,
  steady_asg_info, gather_asg_info, set_max_capacity, scale_up, wait_for_nodes, cordon_nodes,
  drain_nodes,
}
use kubergrunt.Eks.Deploy.Trace.{EnvLaws, Honest, Honest-Extends, originals_of, AllDetached}
use kubergrunt.Eks.Deploy.Meets.{
  Meets, Meets-pure, Meets-or_panic, Meets-if, Meets-bind, Meets-quiet, Meets-weaken,
}
use kubergrunt.Eks.Deploy.Stages.Writes.{persisted-Meets}

-- An honest session in which a stage is done.
abbrev pub Ready : (DeployState → Bool) → Session → History → Type 0
Ready flag s h = Honest s.state h × (flag s.state ≡ true)

pub Ready-Extends :
    (flag : DeployState → Bool) (s : Session) (h h' : History)
    → Extends h h'
    → Ready flag s h
    → Ready flag s h'
Ready-Extends flag s h h' x r = (Honest-Extends s.state x r.0, r.1)

-- A change to the first group that leaves its original instances.
originals-set_first_asg :
    (asg : Asg) (asgs : List Asg) (old : Asg)
    → first_asg asgs ≡ some old
    → asg.original_instances ≡ old.original_instances
    → originals_of (set_first_asg asg asgs) ≡ originals_of asgs
unfolding first_asg set_first_asg
originals-set_first_asg asg [] old e o = refl
originals-set_first_asg asg (a ∷ rest) old e o = ground arith

module _ (env : Env) (laws : EnvLaws env) where
  -- A stage whose work is quiet: it is skipped when it is done, and marked as done after its work.
  pub stage-Meets :
      {X : Type 0} (before after : DeployState → Bool) (s : Session) (work : Asg → M X)
      (next : Asg → X → Session)
      → ((asg : Asg) → Quiet (work asg))
      → ((asg : Asg) (x : X) (h : History)
          → first_asg s.state.asgs ≡ some asg
          → after s.state ≡ false
          → Ready before s h
          → Honest (next asg x).state h)
      → ((asg : Asg) (x : X) → after (next asg x).state ≡ true)
      → Meets env
          (Ready before s)
          (if after s.state
            then pure s
            else (or_panic (first_asg s.state.asgs) >>= λ asg.
                work asg >>= λ x. persisted env (next asg x)))
          (Ready after)
  stage-Meets before after s work next quiet honest marked =
      Meets-if env (after s.state) (pure s) _ (λ skip. Meets-pure env s (λ h k. (k.0, skip)))
        (λ todo.
          Meets-bind env (or_panic (first_asg s.state.asgs)) _
            (Meets-or_panic env
              {Q = λ asg h. (first_asg s.state.asgs ≡ some asg) × Ready before s h}
              (first_asg s.state.asgs) (λ asg e h k. (e, k)))
            (λ asg.
              Meets-bind env (work asg) _
                (Meets-quiet env laws (work asg) (quiet asg)
                  (λ h h' x k. (k.0, Ready-Extends before s h h' x k.1)))
                (λ x.
                  Meets-weaken env {P = λ h. Honest (next asg x).state h}
                    {P' = λ h. (first_asg s.state.asgs ≡ some asg) × Ready before s h}
                    (persisted env (next asg x)) (λ h k. honest asg x h k.0 todo k.1)
                    (λ t h k. subst (λ u. Ready after u h) (sym k.0) (k.1, marked asg x))
                    (persisted-Meets env laws (next asg x)))))

  -- The old group's record was changed in a way that leaves its original instances.
  regrouped :
      (asg new : Asg) (s : Session) (h : History)
      → first_asg s.state.asgs ≡ some asg
      → new.original_instances ≡ asg.original_instances
      → Honest s.state h
      → s.state.detach_instances_done ≡ true
      → AllDetached (originals_of (set_first_asg new s.state.asgs)) h
  regrouped asg new s h found same k d =
      subst (λ ids. AllDetached ids h)
        (sym (originals-set_first_asg new s.state.asgs asg found same)) (k.detached d)

  pub set_max_capacity-Meets :
      (s : Session)
      → Meets env
          (Ready (λ t. t.gather_asg_info_done) s)
          (set_max_capacity env s)
          (Ready (λ t. t.set_max_capacity_done))
  unfolding set_max_capacity
  set_max_capacity-Meets s =
      stage-Meets (λ t. t.gather_asg_info_done) (λ t. t.set_max_capacity_done) s _ _
        (λ asg. Quiet-if _ _ _ (set_asg_max_size-Quiet env _ _) (Quiet-pure tt))
        (λ asg x h found todo k. record {
          order = ground arith;
          detached = regrouped asg _ s h found refl k.0;
        })
        (λ asg x. refl)

  pub scale_up-Meets :
      (s : Session)
      → Meets env
          (Ready (λ t. t.set_max_capacity_done) s)
          (scale_up env s)
          (Ready (λ t. t.scale_up_done))
  unfolding scale_up
  scale_up-Meets s =
      stage-Meets (λ t. t.set_max_capacity_done) (λ t. t.scale_up_done) s _ _
        (λ asg. scale_up-Quiet env _ _ _ _ _)
        (λ asg x h found todo k. record {
          order = ground arith;
          detached = regrouped asg _ s h found refl k.0;
        })
        (λ asg x. refl)

  pub cordon_nodes-Meets :
      (options : KubectlOptions) (s : Session)
      → Meets env
          (Ready (λ t. t.wait_for_nodes_done) s)
          (cordon_nodes env options s)
          (Ready (λ t. t.cordon_nodes_done))
  unfolding cordon_nodes
  cordon_nodes-Meets options s =
      stage-Meets (λ t. t.wait_for_nodes_done) (λ t. t.cordon_nodes_done) s _ _
        (λ asg. cordon_in_asg-Quiet env options _)
        (λ asg x h found todo k. record { order = ground arith; detached = k.0.detached })
        (λ asg x. refl)

  pub drain_nodes-Meets :
      (options : KubectlOptions) (timeout : ℕ) (delete : Bool) (s : Session)
      → Meets env
          (Ready (λ t. t.cordon_nodes_done) s)
          (drain_nodes env options timeout delete s)
          (Ready (λ t. t.drain_nodes_done))
  unfolding drain_nodes
  drain_nodes-Meets options timeout delete s =
      stage-Meets (λ t. t.cordon_nodes_done) (λ t. t.drain_nodes_done) s _ _
        (λ asg. drain_in_asg-Quiet env options _ timeout delete)
        (λ asg x h found todo k. record { order = ground arith; detached = k.0.detached })
        (λ asg x. refl)

  pub wait_for_nodes-Meets :
      (lib : Retry) (rl : RetryLaws lib) (options : KubectlOptions) (s : Session)
      → Meets env
          (Ready (λ t. t.scale_up_done) s)
          (wait_for_nodes env lib options s)
          (Ready (λ t. t.wait_for_nodes_done))
  unfolding wait_for_nodes
  wait_for_nodes-Meets lib rl options s =
      stage-Meets (λ t. t.scale_up_done) (λ t. t.wait_for_nodes_done) s _ _
        (λ asg. wait_and_verify-Quiet env lib rl _ options _ _)
        (λ asg x h found todo k. record { order = ground arith; detached = k.0.detached })
        (λ asg x. refl)

  default_retries-Quiet : (n sleep : ℕ) → Quiet (get_default_max_retries n sleep)
  unfolding get_default_max_retries
  default_retries-Quiet n sleep = search quiet_rules

  ensure-Quiet : (retries sleep n : ℕ) → Quiet (ensure_max_retries retries sleep n)
  unfolding ensure_max_retries
  ensure-Quiet retries sleep n = search (quiet_rules, default_retries-Quiet)

  steady-Quiet : (asg : Asg) (retries sleep : ℕ) → Quiet (steady_asg_info env asg retries sleep)
  unfolding steady_asg_info
  steady-Quiet asg retries sleep =
      search (quiet_rules, get_asg_info-Quiet env, wait_for_capacity-Quiet env)

  -- Appending a group to a list that holds one leaves the first.
  gathered-Honest :
      (asg : Asg) (s : DeployState) (h : History)
      → Honest s h
      → s.gather_asg_info_done ≡ false
      → Honest (record s { gather_asg_info_done = true; asgs = s.asgs ++ (asg ∷ []) }) h
  gathered-Honest asg s h k todo = record {
    order = ground arith;
    detached = λ d. absurd (ground arith);
  }

  Honest-grows : (s : DeployState) (h h' : History) → Extends h h' → Honest s h → Honest s h'
  Honest-grows s h h' = Honest-Extends s

  -- The branch that looks the group up and writes the first checkpoint.
  gather_new-Meets :
      (asg : Asg) (retries : ℕ) (s : Session)
      → s.state.gather_asg_info_done ≡ false
      → let next : Session = record {
        state = record s.state { gather_asg_info_done = true; asgs = s.state.asgs ++ (asg ∷ []) };
        max_retries = retries;
        sleep_between_retries = s.sleep_between_retries;
      } in
        Meets env (λ h. Honest s.state h) (persisted env next) (Ready (λ t. t.gather_asg_info_done))
  gather_new-Meets asg retries s todo =
      Meets-weaken env (persisted env _) (λ h k. gathered-Honest asg s.state h k todo)
        (λ t h k. subst (λ u. Ready (λ t'. t'.gather_asg_info_done) u h) (sym k.0) (k.1, refl))
        (persisted-Meets env laws _)

  pub gather_asg_info-Meets :
      (name : String) (s : Session)
      → Meets env
          (λ h. Honest s.state h)
          (gather_asg_info env name s)
          (Ready (λ t. t.gather_asg_info_done))
  unfolding gather_asg_info
  gather_asg_info-Meets name s =
      Meets-if env s.state.gather_asg_info_done _ _
        (λ done.
          Meets-bind env (or_panic (first_asg s.state.asgs)) _
            (Meets-quiet env laws _ (search quiet_rules) (Honest-grows s.state))
            (λ asg.
              Meets-bind env (ensure_max_retries _ _ _) _
                (Meets-quiet env laws _ (ensure-Quiet _ _ _) (Honest-grows s.state))
                (λ retries. Meets-pure env _ (λ h k. (k, done)))))
        (λ todo.
          Meets-bind env _ _
            (Meets-quiet env laws _ (get_asg_info-Quiet env name) (Honest-grows s.state))
            (λ info.
              Meets-bind env _ _
                (Meets-quiet env laws _ (ensure-Quiet _ _ _) (Honest-grows s.state))
                (λ retries.
                  Meets-bind env _ _
                    (Meets-quiet env laws _ (steady-Quiet info retries _) (Honest-grows s.state))
                    (λ asg. gather_new-Meets asg retries s todo))))
