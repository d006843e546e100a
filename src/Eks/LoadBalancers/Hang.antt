-- ===== src/Eks/LoadBalancers/Hang.antt =====
-- The wait of eks/elb.go when a look-up of target health fails.
use kubergrunt.Prelude.{String, false, List, ◌∷◌, ◌≡◌, ap}
use kubergrunt.Cloud.Types.{TargetGroup}
use kubergrunt.Cloud.Failure.{Error, retry_fatal}
use kubergrunt.Cloud.Request.{Call, Answer, failure, History, Env}
use kubergrunt.Cloud.Retry.{Retry, RetryLaws}
use kubergrunt.Cloud.Monad.{Outcome, err, hangs, M, raise, hang, attempt, call}
use kubergrunt.Cloud.Runs.{bind-ok, bind-hangs, attempt-err, call-failure}
use kubergrunt.Kubectl.Nodes.{collect}
use kubergrunt.Eks.LoadBalancers.{
  target_sleep, send_result, judge_targets, poll_target_health,
  async_wait_for_any_instances_registered_to_target_group, wait_for_target_groups,
}

module _ (env : Env) (lib : Retry) (laws : RetryLaws lib) where
  -- The poll fails with a fatal error.
  poll_fatal :
      (group : TargetGroup) (ids : List String) (h : History) (e : Error)
      → env.respond h (Call.describe_target_health group.target_group_arn) ≡ failure e
      → poll_target_health env lib group ids h ≡ (
        err (retry_fatal e),
        record { request = Call.describe_target_health group.target_group_arn; succeeded = false }
            ∷ h,
      )
  unfolding poll_target_health judge_targets raise
  poll_fatal group ids h e p =
      bind-ok (attempt (call env request)) (judge_targets env lib ids) h after (failure e)
        (attempt-err (call env request) h after e (call-failure env request h e p))
    where
      request : Call
      request = Call.describe_target_health group.target_group_arn

      after : History
      after = record { request = request; succeeded = false } ∷ h

  async_hangs :
      (group : TargetGroup) (ids : List String) (h : History) (e : Error)
      → env.respond h (Call.describe_target_health group.target_group_arn) ≡ failure e
      → (async_wait_for_any_instances_registered_to_target_group env lib group ids h).0 ≡ hangs
  unfolding async_wait_for_any_instances_registered_to_target_group send_result hang
  async_hangs group ids h e p =
      ap (λ (r : Outcome (Answer (Unit {0})) × History). r.0)
        (bind-ok (attempt (lib.do_with_retry 40 target_sleep poll)) send_result h after
          (failure (retry_fatal e))
          (attempt-err (lib.do_with_retry 40 target_sleep poll) h after (retry_fatal e)
            (laws.stops_on_fatal 40 target_sleep poll h after e (poll_fatal group ids h e p))))
    where
      poll : M (Unit {0})
      poll = poll_target_health env lib group ids

      after : History
      after =
          record { request = Call.describe_target_health group.target_group_arn; succeeded = false }
          ∷ h

  -- If the first look-up of a target group's health fails, the wait for the target groups never
  -- returns. This holds for a retry library that stops at a fatal error and returns it.
  pub wait_for_target_groups-hangs :
      (group : TargetGroup) (groups : List TargetGroup) (ids : List String) (errs : List Error)
      (h : History) (e : Error)
      → env.respond h (Call.describe_target_health group.target_group_arn) ≡ failure e
      → (wait_for_target_groups env lib (group ∷ groups) ids errs h).0 ≡ hangs
  unfolding wait_for_target_groups
  wait_for_target_groups-hangs group groups ids errs h e p =
      bind-hangs (async_wait_for_any_instances_registered_to_target_group env lib group ids)
        (λ r. wait_for_target_groups env lib groups ids (collect env errs r)) h
        (async_hangs group ids h e p)
