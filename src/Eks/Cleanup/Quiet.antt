-- ===== src/Eks/Cleanup/Quiet.antt =====
-- The clean-up of network interfaces (eks/cleanup.go) terminates no instance and writes no file.
use kubergrunt.Prelude.{String, Option, none, some, List, [], ◌∷◌}
use kubergrunt.Cloud.Types.{Attachment, NetworkInterface}
use kubergrunt.Cloud.Failure.{Error, max_retries_exceeded}
use kubergrunt.Cloud.Request.{Call, Answer, reply, failure, Env}
use kubergrunt.Cloud.Retry.{Retry, RetryLaws}
use kubergrunt.Cloud.Quiet.{
  Quiet, Quiet-bind, Quiet-call, Quiet-attempt, Quiet-pure, Quiet-raise, Quiet-if, quiet_rules,
}
use kubergrunt.Eks.Quiet.{retry-Quiet}
use kubergrunt.Eks.Cleanup.{
  after_retry, detach_answer, delete_answer, detached_answer, request_detach, detach_attachment,
  detach_network_interfaces, try_delete, poll_detached, delete_network_interfaces,
  wait_for_network_interfaces_to_be_detached, wait_if_any,
}

after_retry-Quiet : (timeout : Error) (r : Answer (Unit {0})) → Quiet (after_retry timeout r)
unfolding after_retry
after_retry-Quiet timeout (reply _) = Quiet-pure tt
after_retry-Quiet timeout (failure max_retries_exceeded) = Quiet-raise _
after_retry-Quiet timeout (failure _) = Quiet-raise _

detach_answer-Quiet : (r : Answer (Unit {0})) → Quiet (detach_answer r)
unfolding detach_answer
detach_answer-Quiet (reply _) = search quiet_rules
detach_answer-Quiet (failure e) = search quiet_rules

delete_answer-Quiet : (r : Answer (Unit {0})) → Quiet (delete_answer r)
unfolding delete_answer
delete_answer-Quiet (reply _) = search quiet_rules
delete_answer-Quiet (failure e) = search quiet_rules

detached_answer-Quiet : (r : Answer (Option Attachment)) → Quiet (detached_answer r)
unfolding detached_answer
detached_answer-Quiet (reply a) = search quiet_rules
detached_answer-Quiet (failure e) = search quiet_rules

module _ (env : Env) where
  attachment-Quiet : (a : Option Attachment) → Quiet (detach_attachment env a)
  unfolding detach_attachment request_detach
  attachment-Quiet none = Quiet-pure tt
  attachment-Quiet (some a) = Quiet-if _ _ _ (Quiet-pure tt) (
      Quiet-bind _ _ (Quiet-attempt _ (Quiet-call env (Call.detach_network_interface _) tt))
        detach_answer-Quiet)

  pub detach-Quiet : (nis : List NetworkInterface) → Quiet (detach_network_interfaces env nis)
  unfolding detach_network_interfaces
  detach-Quiet [] = Quiet-pure tt
  detach-Quiet (ni ∷ nis) = Quiet-bind _ _ (attachment-Quiet ni.attachment) (λ _. detach-Quiet nis)

  try_delete-Quiet : (ni : Option String) → Quiet (try_delete env ni)
  unfolding try_delete
  try_delete-Quiet ni =
      Quiet-bind _ _ (Quiet-attempt _ (Quiet-call env (Call.delete_network_interface ni) tt))
        delete_answer-Quiet

  poll_detached-Quiet : (ni : Option String) → Quiet (poll_detached env ni)
  unfolding poll_detached
  poll_detached-Quiet ni =
      Quiet-bind _ _ (Quiet-attempt _ (Quiet-call env (Call.describe_attachment ni) tt))
        detached_answer-Quiet

module _ (env : Env) (lib : Retry) (laws : RetryLaws lib) where
  pub delete-Quiet : (nis : List NetworkInterface) → Quiet (delete_network_interfaces env lib nis)
  unfolding delete_network_interfaces
  delete-Quiet [] = Quiet-pure tt
  delete-Quiet (ni ∷ nis) =
      Quiet-bind _ _ (retry-Quiet env lib laws _ _ _ (try_delete-Quiet env ni.network_interface_id))
        (λ _. delete-Quiet nis)

  wait_detached-Quiet :
      (nis : List NetworkInterface) → Quiet (wait_for_network_interfaces_to_be_detached env lib nis)
  unfolding wait_for_network_interfaces_to_be_detached
  wait_detached-Quiet [] = Quiet-pure tt
  wait_detached-Quiet (ni ∷ nis) =
      Quiet-bind _ _
        (Quiet-bind _ _
          (Quiet-attempt _
            (retry-Quiet env lib laws _ _ _ (poll_detached-Quiet env ni.network_interface_id)))
          (after_retry-Quiet _))
        (λ _. wait_detached-Quiet nis)

  pub wait_if_any-Quiet : (nis : List NetworkInterface) → Quiet (wait_if_any env lib nis)
  unfolding wait_if_any
  wait_if_any-Quiet [] = Quiet-pure tt
  wait_if_any-Quiet (ni ∷ nis) = wait_detached-Quiet (ni ∷ nis)
