-- ===== src/Eks/Cleanup/Gone.antt =====
-- What is known of the network interfaces of a group when deleteDependencies returns
-- (eks/cleanup.go).
use kubergrunt.Prelude.{
  String, eq_iff, true, Bool-cases, List, [], ◌∷◌, ◌≡◌, refl, ap, ◌∙◌, inl, inr, All,
}
use kubergrunt.Cloud.Types.{NetworkInterface}
use kubergrunt.Cloud.Failure.{Error, external, max_retries_exceeded}
use kubergrunt.Cloud.Request.{Call, Answer, reply, failure, succeeds, History, Env}
use kubergrunt.Cloud.Retry.{Retry, RetryLaws, AfterTry}
use kubergrunt.Cloud.Monad.{Outcome, ok, err, panic, hangs, M, pure, raise, ◌>>=◌, attempt}
use kubergrunt.Cloud.Yields.{IfOk, Yields-ok}
use kubergrunt.Cloud.Answered.{Answered, Answered-more}
use kubergrunt.Cloud.Lasting.{Lasting, Lasting-both, Lasting-All, Triple-lasting}
use kubergrunt.Cloud.Retried.{Triple-retry, try-AfterTry}
use kubergrunt.Cloud.Triple.{
  Triple, Triple-pure, Triple-bind, Triple-call, Triple-weaken, yields-Triple,
}
use kubergrunt.Eks.Cleanup.Quiet.{detach-Quiet, delete-Quiet, wait_if_any-Quiet}
use kubergrunt.Eks.Cleanup.{
  wait_sleep_between_retries, wait_max_retries, has_code, is_ni_not_found_err, after_retry,
  deleted_answer, poll_deleted, wait_for_network_interfaces_to_be_deleted, delete_dependencies,
}

abbrev pub ni_not_found : Error
ni_not_found = external "InvalidNetworkInterfaceID.NotFound"

pub has_code_lem : (code : String) (e : Error) → has_code code e ≡ true → e ≡ external code
unfolding has_code
has_code_lem code (external c) h = ap external ((eq_iff c code).0 h)
has_code_lem code _ h = cc

module _ (env : Env) where
  -- AWS answered that the interface does not exist.
  abbrev pub Gone : NetworkInterface → History → Type 0
  Gone ni =
      Answered env (Call.describe_network_interface ni.network_interface_id) (failure ni_not_found)

  Gone-Lasting : (ni : NetworkInterface) → Lasting (Gone ni)
  Gone-Lasting ni = Answered-more env _ _

  -- What delete_dependencies has found and seen gone.
  abbrev pub Cleared : String → History → Type 0
  Cleared group h =
      (nis : List NetworkInterface) × Answered env (Call.describe_network_interfaces_of_group group)
        (reply nis) h
      × All (λ ni. Gone ni h) nis

  pub Cleared-Lasting : (group : String) → Lasting (Cleared group)
  Cleared-Lasting group e h (nis, found, gone) =
      (nis, inr found, Lasting-All Gone nis Gone-Lasting e h gone)

  judge_deleted :
      (P : History → Type 0) (ni : NetworkInterface)
      → Lasting P
      → (h : History) (a : Answer (Unit {0})) → P h
      → env.respond h (Call.describe_network_interface ni.network_interface_id) ≡ a
      → let after : History =
          record {
            request = Call.describe_network_interface ni.network_interface_id;
            succeeded = succeeds a;
          }
          ∷ h in
        AfterTry P (λ h. P h × Gone ni h) (deleted_answer a after).0 (deleted_answer a after).1
  unfolding deleted_answer raise pure is_ni_not_found_err
  judge_deleted P ni l h (reply _) p e = l _ h p
  judge_deleted P ni l h (failure x) p e =
      elim (Bool-cases (has_code "InvalidNetworkInterfaceID.NotFound" x)) [
        | inl gone ↦ rw gone (l _ h p, inl (refl, e ∙ ap failure (has_code_lem _ x gone)))
        | inr other ↦ rw other (l _ h p)
      ]

  poll_deleted-AfterTry :
      (P : History → Type 0) (ni : NetworkInterface)
      → Lasting P
      → (h : History) → P h
      → let out = poll_deleted env ni.network_interface_id h in
        AfterTry P (λ h. P h × Gone ni h) out.0 out.1
  unfolding poll_deleted
  poll_deleted-AfterTry P ni l =
      try-AfterTry env (Call.describe_network_interface ni.network_interface_id) deleted_answer P
        (λ h. P h × Gone ni h) (judge_deleted P ni l)

fails-IfOk :
    (timeout e : Error) (Q : Unit {0} → History → Type 0) (h : History)
    → IfOk Q (after_retry timeout (failure e) h).0 (after_retry timeout (failure e) h).1
unfolding after_retry raise
fails-IfOk timeout max_retries_exceeded Q h = tt
fails-IfOk timeout _ Q h = tt

loop-IfOk :
    (timeout : Error) (Q : History → Type 0) (r : Outcome (Unit {0})) (h : History)
    → IfOk (λ _ h'. Q h') r h
    → let m : M (Unit {0}) = (λ _. (r, h)) in
      let out = (attempt m >>= after_retry timeout) h in IfOk (λ _ h'. Q h') out.0 out.1
unfolding attempt ◌>>=◌ after_retry pure
loop-IfOk timeout Q (ok a) h q = q
loop-IfOk timeout Q (err e) h q = fails-IfOk timeout e (λ _ h'. Q h') h
loop-IfOk timeout Q panic h q = tt
loop-IfOk timeout Q hangs h q = tt

-- A retry loop whose errors are returned, a timeout under another name.
pub Triple-after_retry :
    (timeout : Error) {P : History → Type 0} (Q : History → Type 0) (m : M (Unit {0}))
    → Triple P m (λ _ h. Q h)
    → Triple P (attempt m >>= after_retry timeout) (λ _ h. Q h)
unfolding attempt ◌>>=◌ after_retry
Triple-after_retry timeout Q m t = record {
  at = λ h p. loop-IfOk timeout Q (m h).0 (m h).1 (t.at h p);
}

module _ (env : Env) (lib : Retry) (laws : RetryLaws lib) where
  -- The last wait ends when all are gone.
  wait_deleted-Triple :
      (nis : List NetworkInterface) (P : History → Type 0)
      → Lasting P
      → Triple P
          (wait_for_network_interfaces_to_be_deleted env lib nis)
          (λ _ h. P h × All (λ ni. Gone env ni h) nis)
  unfolding wait_for_network_interfaces_to_be_deleted
  wait_deleted-Triple [] P l = Triple-pure tt (λ h p. (p, tt))
  wait_deleted-Triple (ni ∷ nis) P l =
      Triple-bind (λ _ h. P h × Gone env ni h) _ _
        (Triple-after_retry _ (λ h. P h × Gone env ni h) _
          (Triple-retry lib laws P (λ h. P h × Gone env ni h) wait_max_retries
            wait_sleep_between_retries (poll_deleted env ni.network_interface_id)
            (poll_deleted-AfterTry env P ni l)))
        (λ _.
          Triple-weaken _ (λ h k. k) (λ _ h k. (k.0.0, (k.0.1, k.1)))
            (wait_deleted-Triple nis (λ h. P h × Gone env ni h)
              (Lasting-both P (Gone env ni) l (Gone-Lasting env ni))))

  pub delete_dependencies-Triple :
      (group : String) (P : History → Type 0)
      → Lasting P
      → Triple P (delete_dependencies env lib group) (λ _ h. P h × Cleared env group h)
  unfolding delete_dependencies
  delete_dependencies-Triple group P l =
      Triple-bind (λ nis. Found nis) _ _
        (Triple-call env (Call.describe_network_interfaces_of_group group)
          (λ h nis p e. (l _ h p, inl (refl, e))))
        (λ nis.
          Triple-bind (λ _. Found nis) _ _
            (Triple-lasting (Found nis) _ (keep nis) (detach-Quiet env nis))
            (λ _.
              Triple-bind (λ _. Found nis) _ _
                (Triple-lasting (Found nis) _ (keep nis) (wait_if_any-Quiet env lib laws nis))
                (λ _.
                  Triple-bind (λ _. Found nis) _ _
                    (Triple-lasting (Found nis) _ (keep nis) (delete-Quiet env lib laws nis))
                    (λ _.
                      Triple-weaken _ (λ h k. k) (λ _ h k. (k.0.0, (nis, k.0.1, k.1)))
                        (wait_deleted-Triple nis (Found nis) (keep nis))))))
    where
      Found : List NetworkInterface → History → Type 0
      Found nis h =
          P h × Answered env (Call.describe_network_interfaces_of_group group) (reply nis) h

      keep : (nis : List NetworkInterface) → Lasting (Found nis)
      keep nis = Lasting-both P _ l (Answered-more env _ _)

  -- When deleteDependencies returns without an error, AWS has listed the network interfaces of the
  -- group, and of each of them has answered that it does not exist. This holds for a retry library
  -- that makes no request but its action's, and returns without an error only after a run of the
  -- action that did.
  pub delete_dependencies-Cleared :
      (group : String) (h : History)
      → (delete_dependencies env lib group h).0 ≡ ok tt
      → Cleared env group (delete_dependencies env lib group h).1
  delete_dependencies-Cleared group h = Yields-ok {Q = λ _ h. Cleared env group h} _ h (
      yields-Triple _ (
        Triple-weaken _ (λ h k. k) (λ _ h k. k.1)
          (delete_dependencies-Triple group (λ _. Unit {0}) (λ e h k. tt))))
