-- ===== src/Eks/Instances/Laws.antt =====
-- What terminateInstances of eks/instances.go does whatever AWS answers.
use kubergrunt.Prelude.{
  String, List, [], ◌∷◌, ◌++◌, ◌≡◌, refl, sym, subst, ◌⊎◌, inl, inr, All, All-map, All-append,
  All-append_left, All-append_right,
}
use kubergrunt.Cloud.Failure.{Error}
use kubergrunt.Cloud.Request.{Call, Answer, reply, failure, succeeds, Event, History, Env}
use kubergrunt.Cloud.Monad.{ok, M, pure}
use kubergrunt.Cloud.Returns.{
  Returns, Returns-pure, Returns-bind, Returns-try, Returns-weaken, Returns-assume, Always-ok,
}
use kubergrunt.Eks.Instances.{
  add_error, after_terminate, terminate_batches, terminate_result, terminate_instances,
}

-- The batch was requested to be terminated.
abbrev pub Asked : List String → History → Type 0
Asked batch [] = ⊥
Asked batch (e ∷ h) = (e.request ≡ Call.terminate_instances batch) ⊎ Asked batch h

abbrev pub AllAsked : List (List String) → History → Type 0
AllAsked batches h = All (λ b. Asked b h) batches

AllAsked-more :
    (batches : List (List String)) (e : Event) (h : History)
    → AllAsked batches h
    → AllAsked batches (e ∷ h)
AllAsked-more batches e h = All-map (λ b. Asked b h) (λ b. Asked b (e ∷ h)) (λ b. inr) batches

module _ (env : Env) where
  -- No error is collected, whatever becomes of the requests.
  after_terminate-Returns :
      (batch : List String) (r : Answer (Unit {0})) (asked : List (List String))
      → Returns
          (AllAsked asked)
          (after_terminate env batch [] r)
          (λ errs h. (errs ≡ []) × AllAsked asked h)
  unfolding after_terminate add_error
  after_terminate-Returns batch (failure e) asked = Returns-pure [] (λ h k. (refl, k))
  after_terminate-Returns batch (reply _) asked =
      Returns-bind _ _
        (Returns-try env (Call.wait_until_instance_terminated batch) {Q = λ _ h. AllAsked asked h}
          (λ h r k e.
            AllAsked-more asked
              (record {
                request = Call.wait_until_instance_terminated batch;
                succeeded = succeeds r;
              })
              h k))
        (λ waited. settle waited)
    where
      settle :
          (waited : Answer (Unit {0}))
          → Returns
              (AllAsked asked)
              (elim waited as (λ _. M (List Error)) [ reply _ ↦ pure [] | failure e ↦ pure [] ])
              (λ errs h. (errs ≡ []) × AllAsked asked h)
      settle (reply _) = Returns-pure [] (λ h k. (refl, k))
      settle (failure e) = Returns-pure [] (λ h k. (refl, k))

  terminate_batches-Returns :
      (batches before : List (List String))
      → Returns
          (AllAsked before)
          (terminate_batches env batches [])
          (λ errs h. (errs ≡ []) × AllAsked before h × AllAsked batches h)
  unfolding terminate_batches
  terminate_batches-Returns [] before = Returns-pure [] (λ h k. (refl, k, tt))
  terminate_batches-Returns (batch ∷ batches) before =
      Returns-bind _ _
        (Returns-try env (Call.terminate_instances batch)
          {Q = λ _ h. AllAsked (before ++ (batch ∷ [])) h}
          (λ h r k e.
            All-append _ before (batch ∷ [])
              (AllAsked-more before
                (record { request = Call.terminate_instances batch; succeeded = succeeds r }) h k)
              (inl refl, tt)))
        (λ r. Returns-bind _ _ (after_terminate-Returns batch r (before ++ (batch ∷ []))) (λ errs.
          Returns-assume _ (λ h k. k.0)
            (λ no_errors.
              subst
                (λ es.
                  Returns (λ h. (errs ≡ []) × AllAsked (before ++ (batch ∷ [])) h)
                    (terminate_batches env batches es)
                    (λ out h. (out ≡ []) × AllAsked before h × AllAsked (batch ∷ batches) h))
                (sym no_errors)
                (Returns-weaken (terminate_batches env batches []) (λ h k. k.1)
                  (λ out h k. (
                    k.0,
                    All-append_left _ before (batch ∷ []) k.1,
                    ((All-append_right _ before (batch ∷ []) k.1).0, k.2),
                  ))
                  (terminate_batches-Returns batches (before ++ (batch ∷ [])))))))

  terminate_instances-Returns :
      (id_list : List String)
      → Returns
          (λ _. Unit {0})
          (terminate_instances env id_list)
          (λ _ h. AllAsked (env.batch_list_into_groups_of id_list 1000) h)
  unfolding terminate_instances
  terminate_instances-Returns id_list =
      Returns-bind _ _
        (Returns-weaken _ (λ h k. tt) (λ out h k. k)
          (terminate_batches-Returns (env.batch_list_into_groups_of id_list 1000) []))
        (λ errs.
          Returns-assume _ (λ h k. k.0)
            (λ no_errors. rw no_errors (unfold terminate_result in Returns-pure tt (λ h k. k.2))))

  -- Whatever AWS answers to any request, terminateInstances requests every batch of the instances to
  -- be terminated, and returns without an error.
  pub terminate_instances-never_fails :
      (id_list : List String) (h : History)
      → let (r, h') = terminate_instances env id_list h in
        (r ≡ ok tt) × AllAsked (env.batch_list_into_groups_of id_list 1000) h'
  terminate_instances-never_fails id_list h =
      let k =
        Always-ok (λ _ h'. AllAsked (env.batch_list_into_groups_of id_list 1000) h')
          (terminate_instances env id_list h).0 (terminate_instances env id_list h).1
          ((terminate_instances-Returns id_list).at h tt) in
      (k.1, k.2)
