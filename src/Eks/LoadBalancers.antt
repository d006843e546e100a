-- ===== src/Eks/LoadBalancers.antt =====
-- eks/elb.go, and waitForAnyInstancesRegisteredToELB of eks/asg.go: waiting until an instance is
-- registered to each load balancer. The goroutines, one for each target group, are run one after
-- another; one that blocks for ever blocks the wait for all of them.
pub mod Hang
use kubergrunt.Prelude.{
  ℕ, zero, suc, String, Bool, true, false, Option, none, some, List, [], ◌∷◌, ◌++◌, if◌then◌else◌,
}
use kubergrunt.Cloud.Types.{
  Text, ElbType, alb, nlb, clb, unknown_elb, ElbTargetType, instance_target, ip_target,
  unknown_elb_target, AwsLoadBalancer, TargetGroup,
}
use kubergrunt.Cloud.Failure.{
  Error, external, could_not_find_load_balancer, impossible, retry_fatal, multiple, of_list,
}
use kubergrunt.Cloud.Request.{Call, Answer, reply, failure, Env}
use kubergrunt.Cloud.Retry.{Retry}
use kubergrunt.Cloud.Monad.{M, pure, raise, hang, attempt, ◌>>=◌, ◌>>◌, call}
use kubergrunt.Kubectl.Nodes.{return_error, collect}

-- 15 seconds, in nanoseconds.
abbrev pub target_sleep : ℕ
target_sleep = 15000000000

-- What a goroutine sends on its channel. The channel holds one value and is read only when all
-- goroutines are done: after a fatal error the second send blocks.
unfoldable pub send_result : Answer (Unit {0}) → M (Answer (Unit {0}))
send_result (reply _) = pure (reply tt)
send_result (failure (retry_fatal e)) = hang
send_result (failure e) = pure (failure e)

module _ (env : Env) (lib : Retry) where
  -- Is one of the targets one of the instances?
  unfoldable pub any_expected_target : List String → List (Option String) → Bool
  any_expected_target instance_ids [] = false
  any_expected_target instance_ids (none ∷ targets) = any_expected_target instance_ids targets
  any_expected_target instance_ids (some instance_id ∷ targets) =
      if env.list_contains_element instance_ids instance_id
      then true
      else any_expected_target instance_ids targets

  -- What the poll makes of the reply.
  unfoldable pub judge_targets : List String → Answer (List (Option String)) → M (Unit {0})
  judge_targets instance_ids (failure e) = raise (retry_fatal e)
  judge_targets instance_ids (reply targets) =
      if any_expected_target instance_ids targets
      then pure tt
      else raise (external "No expected instances registered yet")

  -- The action that is retried.
  unfoldable pub poll_target_health : TargetGroup → List String → M (Unit {0})
  poll_target_health target_group instance_ids = do
    targets ← attempt (call env (Call.describe_target_health target_group.target_group_arn))
    judge_targets instance_ids targets

  unfoldable pub async_wait_for_any_instances_registered_to_target_group :
      TargetGroup → List String → M (Answer (Unit {0}))
  async_wait_for_any_instances_registered_to_target_group target_group instance_ids = do
    wait_err ←
        attempt (lib.do_with_retry 40 target_sleep (poll_target_health target_group instance_ids))
    send_result wait_err

  unfoldable pub wait_for_target_groups :
      List TargetGroup → List String → List Error → M (List Error)
  wait_for_target_groups [] instance_ids errs = pure errs
  wait_for_target_groups (target_group ∷ target_groups) instance_ids errs = do
    r ← async_wait_for_any_instances_registered_to_target_group target_group instance_ids
    wait_for_target_groups target_groups instance_ids (collect env errs r)

  unfoldable pub require_target_groups : List TargetGroup → M (List TargetGroup)
  require_target_groups [] = raise (impossible "ELB_HAS_UNEXPECTED_NUMBER_OF_TARGET_GROUPS")
  require_target_groups (t ∷ ts) = pure (t ∷ ts)

  -- The only load balancer of the reply, by its ARN; a `none` is a nil pointer.
  unfoldable pub only_load_balancer : Text → List (Option String) → M String
  only_load_balancer lb_name [] = raise (could_not_find_load_balancer lb_name)
  only_load_balancer lb_name (none ∷ []) = raise (impossible "ELB_IS_NULL_FROM_API")
  only_load_balancer lb_name (some arn ∷ []) = pure arn
  only_load_balancer lb_name (_ ∷ _ ∷ _) = raise (impossible "MORE_THAN_ONE_ELB_IN_LOOKUP")

  unfoldable pub get_elb_target_groups : Text → M (List TargetGroup)
  get_elb_target_groups lb_name = do
    load_balancers ← call env (Call.describe_load_balancers lb_name)
    arn ← only_load_balancer lb_name load_balancers
    target_groups ← call env (Call.describe_target_groups arn)
    require_target_groups target_groups

  unfoldable pub wait_for_any_instances_registered_to_alb_or_nlb : Text → List String → M (Unit {0})
  wait_for_any_instances_registered_to_alb_or_nlb lb_name instance_ids = do
    target_groups ← get_elb_target_groups lb_name
    errs ← wait_for_target_groups target_groups instance_ids []
    return_error (env.error_or_nil errs)

  unfoldable pub wait_for_any_instances_registered_to_clb : Text → List String → M (Unit {0})
  wait_for_any_instances_registered_to_clb lb_name instance_ids =
      call env (Call.wait_until_any_instance_in_service lb_name instance_ids)

  -- The switch on the type of the load balancer.
  unfoldable pub wait_by_type : ElbType → Text → List String → M (Unit {0})
  wait_by_type clb lb_name instance_ids =
      wait_for_any_instances_registered_to_clb lb_name instance_ids
  wait_by_type nlb lb_name instance_ids =
      wait_for_any_instances_registered_to_alb_or_nlb lb_name instance_ids
  wait_by_type alb lb_name instance_ids =
      wait_for_any_instances_registered_to_alb_or_nlb lb_name instance_ids
  wait_by_type unknown_elb lb_name instance_ids = raise (impossible "UNKNOWN_ELB_TYPE_IN_WAIT")

  -- One round of the loop, by the target type; the errors so far come in and go out. The round of
  -- an unknown target type starts a new list.
  unfoldable pub wait_for_load_balancer :
      ElbTargetType → AwsLoadBalancer → List String → List Error → M (List Error)
  wait_for_load_balancer ip_target elb instance_ids errs = pure errs
  wait_for_load_balancer unknown_elb_target elb instance_ids errs =
      pure (env.append_to_error (impossible "UNKNOWN_ELB_TARGET_TYPE_IN_WAIT"))
  wait_for_load_balancer instance_target elb instance_ids errs = do
    r ← attempt (wait_by_type elb.type_ elb.name instance_ids)
    pure (collect env errs r)

  unfoldable pub wait_for_load_balancers :
      List AwsLoadBalancer → List String → List Error → M (List Error)
  wait_for_load_balancers [] instance_ids errs = pure errs
  wait_for_load_balancers (elb ∷ elbs) instance_ids errs = do
    errs' ← wait_for_load_balancer elb.target_type elb instance_ids errs
    wait_for_load_balancers elbs instance_ids errs'

  unfoldable pub wait_for_any_instances_registered_to_elb :
      List AwsLoadBalancer → List String → M (Unit {0})
  wait_for_any_instances_registered_to_elb elbs instance_ids = do
    errs ← wait_for_load_balancers elbs instance_ids []
    return_error (env.error_or_nil errs)
