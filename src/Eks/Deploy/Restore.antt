-- ===== src/Eks/Deploy/Restore.antt =====
-- The restored capacity in a run that is resumed (eks/deploy_state.go, restoreCapacity).
use kubergrunt.Prelude.{
  String, Bool, true, false, some, List, ◌∷◌, ◌≡◌, refl, subst, sym, ap, if◌then◌else◌,
}
use kubergrunt.Cloud.Types.{Asg}
use kubergrunt.Cloud.Request.{Call, reply, History, Env}
use kubergrunt.Cloud.Retry.{Retry}
use kubergrunt.Cloud.Monad.{ok, M, pure, or_panic, ◌>>=◌, ◌>>◌}
use kubergrunt.Cloud.Triple.{
  Triple, Triple-bind, Triple-call, Triple-lift, Triple-pure, Triple-assume, Triple-weaken,
}
use kubergrunt.Cloud.Yields.{
  IfOk, Yields, Yields-pure, Yields-if, Yields-bind, Yields-bind_at, Yields-ok,
}
use kubergrunt.Eks.AutoScaling.{set_asg_max_size}
use kubergrunt.Eks.Deploy.{
  Session, first_asg, persist, persisted, detach_instances, terminate_instances, restore_capacity,
  remove_old_nodes,
}

-- All the removal is marked as done, but not the restored capacity, for the group.
abbrev pub Unmarked : Asg → Session → Type 0
Unmarked asg s =
    (s.state.detach_instances_done ≡ true)
    × (s.state.terminate_instances_done ≡ true)
    × (s.state.restore_capacity_done ≡ false)
    × (first_asg s.state.asgs ≡ some asg)

-- One request more, which succeeded.
abbrev made : Call → History → History
made c h = record { request = c; succeeded = true } ∷ h

module _ (env : Env) where
  -- After a history, the maximum size of the group was set back by a request that succeeded, and the
  -- state was written, and there was no other request.
  abbrev pub RestoredAfter : Asg → Session → History → History → Type 0
  RestoredAfter asg s before after =
      (bytes : String) × (env.marshal s.state ≡ reply bytes)
      × (after ≡ (
          record { request = Call.write_file s.state.path bytes; succeeded = true }
          ∷ record {
            request = Call.update_auto_scaling_group asg.name asg.original_max_capacity;
            succeeded = true;
          }
          ∷ before))

  then_same :
      {R : Session → History → Type 0} (s : Session) (before : History) (m : M Session)
      (next : Session → M Session)
      → Triple (λ h. h ≡ before) m (λ t h. (t ≡ s) × (h ≡ before))
      → Triple (λ h. h ≡ before) (next s) R
      → Triple (λ h. h ≡ before) (m >>= next) R
  then_same {R} s before m next first rest =
      Triple-bind (λ t h. (t ≡ s) × (h ≡ before)) m next first
        (λ t.
          Triple-assume (next t) (λ h k. k.0)
            (λ same.
              subst (λ u. Triple (λ h. (t ≡ s) × (h ≡ before)) (next u) R) (sym same)
                (Triple-weaken (next s) (λ h k. k.1) (λ _ h k. k) rest)))

  with_first :
      {P : History → Type 0} {R : Session → History → Type 0} (asg : Asg) (asgs : List Asg)
      (next : Asg → M Session)
      → first_asg asgs ≡ some asg
      → Triple P (next asg) R
      → Triple P (or_panic (first_asg asgs) >>= next) R
  unfolding or_panic ◌>>=◌ pure
  with_first asg asgs next found t = rw found t

  when_done :
      {P : History → Type 0} {R : Session → History → Type 0} (done : Bool) (m n : M Session)
      → done ≡ true
      → Triple P m R
      → Triple P (if done then m else n) R
  when_done true m n e t = t
  when_done false m n e t = cc

  when_not_done :
      {P : History → Type 0} {R : Session → History → Type 0} (done : Bool) (m n : M Session)
      → done ≡ false
      → Triple P n R
      → Triple P (if done then m else n) R
  when_not_done true m n e t = cc
  when_not_done false m n e t = t

  detach-skips :
      (s : Session) (before : History)
      → s.state.detach_instances_done ≡ true
      → Triple (λ h. h ≡ before) (detach_instances env s) (λ t h. (t ≡ s) × (h ≡ before))
  unfolding detach_instances
  detach-skips s before marked = when_done _ _ _ marked (Triple-pure s (λ h e. (refl, e)))

  terminate-skips :
      (s : Session) (before : History)
      → s.state.terminate_instances_done ≡ true
      → Triple (λ h. h ≡ before) (terminate_instances env s) (λ t h. (t ≡ s) × (h ≡ before))
  unfolding terminate_instances
  terminate-skips s before marked = when_done _ _ _ marked (Triple-pure s (λ h e. (refl, e)))

  restore-Triple :
      (asg : Asg) (s : Session) (before : History)
      → s.state.restore_capacity_done ≡ false
      → first_asg s.state.asgs ≡ some asg
      → Triple
          (λ h. h ≡ before)
          (restore_capacity env s)
          (λ s' h. (s' ≡ s) × RestoredAfter asg s before h)
  unfolding restore_capacity set_asg_max_size persisted persist
  restore-Triple asg s before unmarked found =
      let restored : History =
        record {
          request = Call.update_auto_scaling_group asg.name asg.original_max_capacity;
          succeeded = true;
        }
        ∷ before in
      when_not_done _ _ _ unmarked (
        with_first asg s.state.asgs _ found (
          Triple-bind (λ _ h. h ≡ restored) _ _
            (Triple-call env (Call.update_auto_scaling_group asg.name asg.original_max_capacity)
              (λ h a e _.
                ap (made (Call.update_auto_scaling_group asg.name asg.original_max_capacity)) e))
            (λ _.
              Triple-bind (λ _ h. RestoredAfter asg s before h) _ _
                (Triple-bind (λ bytes h. (env.marshal s.state ≡ reply bytes) × (h ≡ restored)) _ _
                  (Triple-lift (env.marshal s.state) (λ bytes e h k. (e, k)))
                  (λ bytes.
                    Triple-call env (Call.write_file s.state.path bytes) (λ h a (e, k) _.
                      (bytes, e, ap (made (Call.write_file s.state.path bytes)) k))))
                (λ _. Triple-pure s (λ h k. (refl, k))))))

  -- A run from there restores the capacity.
  again-Triple :
      (lib : Retry) (asg : Asg) (s : Session) (before : History)
      → Unmarked asg s
      → Triple
          (λ h. h ≡ before)
          (remove_old_nodes env lib s)
          (λ s' h. (s' ≡ s) × RestoredAfter asg s before h)
  unfolding remove_old_nodes
  again-Triple lib asg s before (detached, terminated, unmarked, found) =
      then_same s before (detach_instances env s) _ (detach-skips s before detached) (
        then_same s before (terminate_instances env s) _ (terminate-skips s before terminated)
          (restore-Triple asg s before unmarked found))

  -- A stage gives a session with a property that the one it starts from has, if the stage is done,
  -- and that the one it writes has.
  stage-Yields :
      (P : Session → Type 0) (s next : Session) (done : Bool) (work : Asg → M (Unit {0}))
      → (done ≡ true → P s)
      → P next
      → Yields
          (if done
            then pure s
            else (do asg ← or_panic (first_asg s.state.asgs); work asg; persisted env next))
          (λ t _. P t)
  unfolding persisted
  stage-Yields P s next done work old new =
      Yields-if done _ _ (λ e. Yields-pure s (λ h. old e))
        (λ _.
          Yields-bind _ _
            (λ asg. Yields-bind _ _ (λ _. Yields-bind _ _ (λ _. Yields-pure next (λ h. new)))))

  Detached : Asg → Session → Type 0
  Detached asg s =
      (s.state.detach_instances_done ≡ true)
      × (s.state.restore_capacity_done ≡ false)
      × (first_asg s.state.asgs ≡ some asg)

  remove-Yields :
      (lib : Retry) (asg : Asg) (s : Session)
      → s.state.restore_capacity_done ≡ false
      → first_asg s.state.asgs ≡ some asg
      → Yields (remove_old_nodes env lib s) (λ s' _. Unmarked asg s')
  unfolding remove_old_nodes detach_instances terminate_instances restore_capacity Detached
  remove-Yields lib asg s unmarked found =
      Yields-bind_at _ _
        (stage-Yields (Detached asg) s _ s.state.detach_instances_done _ (λ e. (e, unmarked, found))
          (refl, unmarked, found))
        (λ s₁ h (d, u, f).
          (Yields-bind_at {R = λ s' _. Unmarked asg s'} _ _
              (stage-Yields (Unmarked asg) s₁ _ s₁.state.terminate_instances_done _
                (λ e. (d, e, u, f)) (d, refl, u, f))
              (λ s₂ h' k.
                (stage-Yields (Unmarked asg) s₂ s₂ s₂.state.restore_capacity_done _ (λ _. k) k).at
                  h')).at
            h)

  -- After the last stages have succeeded for a group from a state in which the restored capacity was
  -- not marked, a run that takes them up again, at any later time, and succeeds, detaches and
  -- terminates nothing, but sets the maximum size of the group back to the original once more, and
  -- writes the same state once more, and makes no other request.
  pub remove_old_nodes-restores_again :
      (lib : Retry) (asg : Asg) (s s' s'' : Session) (h before : History)
      → s.state.restore_capacity_done ≡ false
      → first_asg s.state.asgs ≡ some asg
      → (remove_old_nodes env lib s h).0 ≡ ok s'
      → (remove_old_nodes env lib s' before).0 ≡ ok s''
      → (s'' ≡ s') × RestoredAfter asg s' before (remove_old_nodes env lib s' before).1
  remove_old_nodes-restores_again lib asg s s' s'' h before unmarked found first again =
      let left =
        Yields-ok {Q = λ t _. Unmarked asg t} _ h (remove-Yields lib asg s unmarked found) first in
      let R = λ (t : Session) (g : History). (t ≡ s') × RestoredAfter asg s' before g in
      subst (λ r. IfOk R r (remove_old_nodes env lib s' before).1) again
        ((again-Triple lib asg s' before left).at before refl)
