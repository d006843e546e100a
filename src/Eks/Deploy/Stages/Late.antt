-- ===== src/Eks/Deploy/Stages/Late.antt =====
-- The stages that remove the old nodes (eks/deploy_state.go, eks/asg.go, eks/instances.go).
use kubergrunt.Prelude.{
  String, Bool, true, some, List, [], ◌∷◌, ◌++◌, ◌≡◌, refl, sym, subst, arith, inl, inr, All-append,
  All-append_left, All-append_right, In,
}
use mathlib.Core.List.{flatten}
use kubergrunt.Cloud.Types.{Asg, DeployState}
use kubergrunt.Cloud.Failure.{Error}
use kubergrunt.Cloud.Request.{Call, Answer, reply, failure, Event, History, Env}
use kubergrunt.Cloud.Monad.{M, or_panic, ◌>>=◌, attempt, call}
use kubergrunt.Cloud.Quiet.{
  Extends, Quiet, Quiet-bind, Quiet-attempt, Quiet-answer, Quiet-pure,
  wait_until_instance_terminated-Quiet, quiet_rules,
}
use kubergrunt.Eks.Quiet.{set_asg_max_size-Quiet}
use kubergrunt.Eks.AutoScaling.{detach_batches}
use kubergrunt.Eks.AutoScaling
use kubergrunt.Eks.Instances.{add_error, after_terminate, terminate_batches, terminate_result}
use kubergrunt.Eks.Instances
use kubergrunt.Eks.Deploy.{
  Session, first_asg, persisted, detach_instances, terminate_instances, restore_capacity,
}
use kubergrunt.Eks.Deploy.Trace.{
  EnvLaws, Honest, Honest-more, Honest-Extends, originals_of, AllDetached, AllDetached-more,
  AllDetached-Extends,
}
use kubergrunt.Eks.Deploy.Meets.{
  Meets, Meets-pure, Meets-or_panic, Meets-if, Meets-bind, Meets-quiet, Meets-weaken, Meets-assume,
}
use kubergrunt.Eks.Deploy.Stages.Writes.{Meets-call, Meets-try, persisted-Meets}
use kubergrunt.Eks.Deploy.Stages.Early.{Ready}

-- Each id of a batch that was detached is detached.
batch-AllDetached :
    (name : String) (batch all : List String) (h : History)
    → ((id : String) → In id batch → In id all)
    → AllDetached batch (record { request = Call.detach_instances name all; succeeded = true } ∷ h)
batch-AllDetached name [] all h sub = tt
batch-AllDetached name (id ∷ ids) all h sub =
    (inl (sub id (inl refl)), batch-AllDetached name ids all h (λ i m. sub i (inr m)))

-- What stays true of the instances that are detached, whatever is requested next.
abbrev Kept : DeployState → List String → History → Type 0
Kept s ids h = Honest s h × AllDetached ids h

Kept-more :
    (s : DeployState) (ids : List String) (e : Event) (h : History)
    → Kept s ids h
    → Kept s ids (e ∷ h)
Kept-more s ids e h k = (Honest-more s e h k.0, AllDetached-more ids e h k.1)

Kept-Extends :
    (s : DeployState) (ids : List String) (h h' : History)
    → Extends h h'
    → Kept s ids h
    → Kept s ids h'
Kept-Extends s ids h h' x k = (Honest-Extends s x k.0, AllDetached-Extends ids x k.1)

module _ (env : Env) (laws : EnvLaws env) where
  -- Where all the requests succeed, all the ids of all batches are detached.
  detach_batches-Meets :
      (name : String) (batches : List (List String)) (s : DeployState) (before : List String)
      → Meets env
          (Kept s before)
          (detach_batches env name batches)
          (λ _ h. Kept s before h × AllDetached (flatten batches) h)
  unfolding detach_batches flatten
  detach_batches-Meets name [] s before = Meets-pure env tt (λ h k. (k, tt))
  detach_batches-Meets name (batch ∷ batches) s before =
      Meets-bind env (call env (Call.detach_instances name batch)) _
        (Meets-call env (Call.detach_instances name batch) {Q = λ _ h. Kept s (before ++ batch) h}
          (λ h sound k. tt)
          (λ h _ sound k e. (
            Honest-more s _ h k.0,
            All-append _ before batch
                (AllDetached-more before
                  (record { request = Call.detach_instances name batch; succeeded = true }) h k.1)
                (batch-AllDetached name batch batch h (λ i m. m)),
          )))
        (λ _.
          Meets-weaken env (detach_batches env name batches) (λ h k. k)
            (λ _ h k. (
              (k.0.0, All-append_left _ before batch k.0.1),
              All-append _ batch (flatten batches) (All-append_right _ before batch k.0.1) k.1,
            ))
            (detach_batches-Meets name batches s (before ++ batch)))

  after_terminate-Quiet :
      (batch : List String) (errs : List Error) (r : Answer (Unit {0}))
      → Quiet (after_terminate env batch errs r)
  unfolding after_terminate
  after_terminate-Quiet batch errs (failure e) = search quiet_rules
  after_terminate-Quiet batch errs (reply _) =
      Quiet-bind _ _ (Quiet-attempt _ (wait_until_instance_terminated-Quiet env batch))
        (λ waited. Quiet-answer waited _ _ (λ _. Quiet-pure _) (λ e. Quiet-pure _))

  -- Detached instances may be terminated.
  terminate_batches-Meets :
      (batches : List (List String)) (errs : List Error) (s : DeployState)
      → Meets env
          (Kept s (flatten batches))
          (terminate_batches env batches errs)
          (λ _ h. Honest s h)
  unfolding terminate_batches flatten
  terminate_batches-Meets [] errs s = Meets-pure env errs (λ h k. k.0)
  terminate_batches-Meets (batch ∷ batches) errs s =
      Meets-bind env (attempt (call env (Call.terminate_instances batch))) _
        (Meets-try env (Call.terminate_instances batch) {Q = λ _ h. Kept s (flatten batches) h}
          (λ h sound k. All-append_left _ batch (flatten batches) k.1)
          (λ h r sound k e.
            Kept-more s (flatten batches) _ h
              (k.0, All-append_right _ batch (flatten batches) k.1)))
        (λ r.
          Meets-bind env (after_terminate env batch errs r) _
            (Meets-quiet env laws _ (after_terminate-Quiet batch errs r)
              (Kept-Extends s (flatten batches)))
            (λ errs'. terminate_batches-Meets batches errs' s))

  result-Quiet : (errs : List Error) → Quiet (terminate_result errs)
  unfolding terminate_result
  result-Quiet [] = search quiet_rules
  result-Quiet (e ∷ es) = search quiet_rules

  terminate-Meets :
      (ids : List String) (s : DeployState)
      → Meets env (Kept s ids) (Instances.terminate_instances env ids) (λ _ h. Honest s h)
  unfolding Instances.terminate_instances
  terminate-Meets ids s =
      Meets-bind env _ _
        (Meets-weaken env _
          (λ h k. (
            k.0,
            subst (λ l. AllDetached l h) (sym (laws.flatten-batches ids 1000 (omega arith))) k.1,
          ))
          (λ _ h k. k) (terminate_batches-Meets (env.batch_list_into_groups_of ids 1000) [] s))
        (λ errs. Meets-quiet env laws _ (result-Quiet errs) (λ h h' x. Honest-Extends s x))

  detach-Meets :
      (name : String) (ids : List String) (s : DeployState)
      → Meets env (Honest s) (AutoScaling.detach_instances env name ids) (λ _ h. Kept s ids h)
  unfolding AutoScaling.detach_instances
  detach-Meets name ids s =
      Meets-weaken env _ (λ h k. (k, tt))
        (λ _ h k.
          (k.0.0, subst (λ l. AllDetached l h) (laws.flatten-batches ids 20 (omega arith)) k.1))
        (detach_batches-Meets name (env.batch_list_into_groups_of ids 20) s [])

  -- A stage that is not done: its work on the first group, and the mark.
  work-Meets :
      (before after : DeployState → Bool) (s : Session) (work : Asg → M (Unit {0})) (next : Session)
      (K : History → Type 0)
      → ((asg : Asg)
          → first_asg s.state.asgs ≡ some asg
          → before s.state ≡ true
          → Meets env (Honest s.state) (work asg) (λ _ h. K h))
      → (before s.state ≡ true → (h : History) → K h → Honest next.state h)
      → after next.state ≡ true
      → Meets env
          (Ready before s)
          (or_panic (first_asg s.state.asgs) >>= λ asg. work asg >>= λ _. persisted env next)
          (Ready after)
  work-Meets before after s work next K works honest marked =
      Meets-assume env _ (λ h k. k.1)
        (λ ready.
          Meets-bind env (or_panic (first_asg s.state.asgs)) _
            (Meets-or_panic env
              {Q = λ asg h. (first_asg s.state.asgs ≡ some asg) × Honest s.state h}
              (first_asg s.state.asgs) (λ asg e h k. (e, k.0)))
            (λ asg.
              Meets-assume env _ (λ h k. k.0)
                (λ found.
                  Meets-bind env (work asg) _
                    (Meets-weaken env (work asg) (λ h k. k.1) (λ _ h k. k) (works asg found ready))
                    (λ _.
                      Meets-weaken env (persisted env next) (honest ready)
                        (λ t h k. subst (λ u. Ready after u h) (sym k.0) (k.1, marked))
                        (persisted-Meets env laws next)))))

  originals-first :
      (asg : Asg) (asgs : List Asg)
      → first_asg asgs ≡ some asg
      → asg.original_instances ≡ originals_of asgs
  unfolding first_asg
  originals-first asg [] e = cc
  originals-first asg (a ∷ rest) e = ground arith

  pub detach_instances-Meets :
      (s : Session)
      → Meets env
          (Ready (λ t. t.drain_nodes_done) s)
          (detach_instances env s)
          (Ready (λ t. t.detach_instances_done))
  unfolding detach_instances
  detach_instances-Meets s =
      Meets-if env s.state.detach_instances_done _ _ (λ skip. Meets-pure env s (λ h k. (k.0, skip)))
        (λ todo.
          work-Meets (λ t. t.drain_nodes_done) (λ t. t.detach_instances_done) s _ _
            (Kept s.state (originals_of s.state.asgs))
            (λ asg found ready.
              subst
                (λ ids.
                  Meets env (Honest s.state)
                    (AutoScaling.detach_instances env asg.name asg.original_instances)
                    (λ _ h. Kept s.state ids h))
                (originals-first asg s.state.asgs found) (detach-Meets asg.name _ s.state))
            (λ ready h k. record { order = ground arith; detached = λ _. k.1 }) refl)

  pub terminate_instances-Meets :
      (s : Session)
      → Meets env
          (Ready (λ t. t.detach_instances_done) s)
          (terminate_instances env s)
          (Ready (λ t. t.terminate_instances_done))
  unfolding terminate_instances
  terminate_instances-Meets s =
      Meets-if env s.state.terminate_instances_done _ _
        (λ skip. Meets-pure env s (λ h k. (k.0, skip)))
        (λ todo.
          work-Meets (λ t. t.detach_instances_done) (λ t. t.terminate_instances_done) s _ _
            (Honest s.state)
            (λ asg found ready.
              Meets-weaken env _
                (λ h k. (
                  k,
                  subst (λ ids. AllDetached ids h) (sym (originals-first asg s.state.asgs found))
                      (k.detached ready),
                ))
                (λ _ h k. k) (terminate-Meets asg.original_instances s.state))
            (λ ready h k. record { order = ground arith; detached = k.detached }) refl)

  pub restore_capacity-Meets :
      (s : Session)
      → Meets env
          (Ready (λ t. t.terminate_instances_done) s)
          (restore_capacity env s)
          (Ready (λ t. t.terminate_instances_done))
  unfolding restore_capacity
  restore_capacity-Meets s =
      Meets-if env s.state.restore_capacity_done _ _ (λ skip. Meets-pure env s (λ h k. k))
        (λ todo.
          Meets-assume env _ (λ h k. k.1)
            (λ ready.
              work-Meets (λ t. t.terminate_instances_done) (λ t. t.terminate_instances_done) s _ s
                (Honest s.state)
                (λ asg found _.
                  Meets-quiet env laws _ (set_asg_max_size-Quiet env _ _)
                    (λ h h' x. Honest-Extends s.state x))
                (λ _ h k. k) ready))
