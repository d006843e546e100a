-- ===== src/Eks/Quiet.antt =====
-- The code of eks that the roll out runs before it terminates instances is quiet.
use kubergrunt.Prelude.{ℕ, zero, suc, String, Bool, List, [], ◌∷◌, ◌++◌, Option, none, some}
use mathlib.Core.List.{flatten}
use kubergrunt.Cloud.Types.{
  Text, AsgGroup, Ec2Instance, ElbType, alb, nlb, clb, unknown_elb, ElbTargetType, instance_target,
  ip_target, unknown_elb_target, AwsLoadBalancer, TargetGroup, KubectlOptions,
}
use kubergrunt.Cloud.Failure.{Error, retry_fatal}
use kubergrunt.Cloud.Request.{Answer, reply, failure, Env}
use kubergrunt.Cloud.Monad.{M}
use kubergrunt.Cloud.Retry.{Retry, RetryLaws}
use kubergrunt.Cloud.Quiet.{
  Extends, here, Extends-trans, Quiet, Quiet-option, Quiet-bind, Quiet-pure,
  describe_instances-Quiet, quiet_rules,
}
use kubergrunt.Kubectl.Quiet.{
  wait_ready-Quiet, return_error-Quiet, drain_nodes-Quiet, cordon_nodes-Quiet, get_lbs-Quiet,
}
use kubergrunt.Eks.Instances.{
  kube_node_names_from_instances, instance_pages, instance_details_from_ids,
}
use kubergrunt.Eks.LoadBalancers.{
  send_result, judge_targets, poll_target_health,
  async_wait_for_any_instances_registered_to_target_group, wait_for_target_groups,
  require_target_groups, only_load_balancer, get_elb_target_groups,
  wait_for_any_instances_registered_to_alb_or_nlb, wait_for_any_instances_registered_to_clb,
  wait_by_type, wait_for_load_balancer, wait_for_load_balancers,
  wait_for_any_instances_registered_to_elb,
}
use kubergrunt.Eks.AutoScaling.{
  first_group, get_asg_by_name, get_asg_info, set_asg_capacity, set_asg_max_size, wait_for_capacity,
  get_launched_instance_ids, scale_up, drain_nodes_in_asg, cordon_nodes_in_asg,
  wait_and_verify_new_instances,
}

node_names-Quiet : (instances : List Ec2Instance) → Quiet (kube_node_names_from_instances instances)
unfolding kube_node_names_from_instances
node_names-Quiet [] = search quiet_rules
node_names-Quiet (i ∷ is) = let ih = node_names-Quiet is in search quiet_rules depth 8

first_group-Quiet : (name : String) (groups : List AsgGroup) → Quiet (first_group name groups)
unfolding first_group
first_group-Quiet name [] = search quiet_rules
first_group-Quiet name (g ∷ gs) = search quiet_rules

send-Quiet : (r : Answer (Unit {0})) → Quiet (send_result r)
unfolding send_result
send-Quiet (reply _) = search quiet_rules
send-Quiet (failure (retry_fatal e)) = search quiet_rules
send-Quiet (failure _) = search quiet_rules

module _ (env : Env) where
  pages-Quiet :
      (fuel : ℕ) (ids : List String) (token : Option String) (found : List Ec2Instance)
      → Quiet (instance_pages env fuel ids token found)
  unfolding instance_pages
  pages-Quiet zero ids token found = search quiet_rules
  pages-Quiet (suc fuel) ids token found =
      Quiet-bind _ _ (describe_instances-Quiet env ids token) (λ page.
        Quiet-option page.next_token _ _ (Quiet-pure _)
          (λ token'. pages-Quiet fuel ids (some token') (found ++ flatten page.reservations)))

  details-Quiet : (ids : List String) → Quiet (instance_details_from_ids env ids)
  unfolding instance_details_from_ids
  details-Quiet ids = pages-Quiet env.max_pages ids none []

  asg_by_name-Quiet : (name : String) → Quiet (get_asg_by_name env name)
  unfolding get_asg_by_name
  asg_by_name-Quiet name = search (quiet_rules, first_group-Quiet)

  pub get_asg_info-Quiet : (name : String) → Quiet (get_asg_info env name)
  unfolding get_asg_info
  get_asg_info-Quiet name = search (quiet_rules, asg_by_name-Quiet)

  pub set_asg_max_size-Quiet : (name : String) (size : ℕ) → Quiet (set_asg_max_size env name size)
  unfolding set_asg_max_size
  set_asg_max_size-Quiet name size = search quiet_rules

  pub wait_for_capacity-Quiet :
      (name : String) (retries sleep : ℕ) → Quiet (wait_for_capacity env name retries sleep)
  unfolding wait_for_capacity
  wait_for_capacity-Quiet name zero sleep = search quiet_rules
  wait_for_capacity-Quiet name (suc retries) sleep =
      let ih = wait_for_capacity-Quiet name retries sleep in
      search (quiet_rules, asg_by_name-Quiet) depth 8

  launched-Quiet :
      (name : String) (ids : List String) → Quiet (get_launched_instance_ids env name ids)
  unfolding get_launched_instance_ids
  launched-Quiet name ids = search (quiet_rules, asg_by_name-Quiet)

  pub scale_up-Quiet :
      (name : String) (ids : List String) (capacity retries sleep : ℕ)
      → Quiet (scale_up env name ids capacity retries sleep)
  unfolding scale_up set_asg_capacity
  scale_up-Quiet name ids capacity retries sleep =
      search (quiet_rules, wait_for_capacity-Quiet, launched-Quiet) depth 8

  pub drain_in_asg-Quiet :
      (options : KubectlOptions) (ids : List String) (timeout : ℕ) (delete : Bool)
      → Quiet (drain_nodes_in_asg env options ids timeout delete)
  unfolding drain_nodes_in_asg
  drain_in_asg-Quiet options ids timeout delete =
      search (quiet_rules, details-Quiet, node_names-Quiet, drain_nodes-Quiet) depth 8

  pub cordon_in_asg-Quiet :
      (options : KubectlOptions) (ids : List String) → Quiet (cordon_nodes_in_asg env options ids)
  unfolding cordon_nodes_in_asg
  cordon_in_asg-Quiet options ids =
      search (quiet_rules, details-Quiet, node_names-Quiet, cordon_nodes-Quiet) depth 8

module _ (env : Env) (lib : Retry) (laws : RetryLaws lib) where
  pub retry-Quiet :
      (n sleep : ℕ) (action : M (Unit {0}))
      → Quiet action
      → Quiet (lib.do_with_retry n sleep action)
  retry-Quiet n sleep action q = record {
    at =
        laws.only_runs_action Extends (λ h. here) (λ h h' h'' p r. Extends-trans p r) n sleep action
          q.at;
  }

  judge-Quiet :
      (ids : List String) (r : Answer (List (Option String))) → Quiet (judge_targets env lib ids r)
  unfolding judge_targets
  judge-Quiet ids (failure e) = search quiet_rules
  judge-Quiet ids (reply targets) = search quiet_rules

  poll-Quiet :
      (group : TargetGroup) (ids : List String) → Quiet (poll_target_health env lib group ids)
  unfolding poll_target_health
  poll-Quiet group ids = search (quiet_rules, judge-Quiet)

  async-Quiet :
      (group : TargetGroup) (ids : List String)
      → Quiet (async_wait_for_any_instances_registered_to_target_group env lib group ids)
  unfolding async_wait_for_any_instances_registered_to_target_group
  async-Quiet group ids = search (quiet_rules, retry-Quiet, poll-Quiet, send-Quiet) depth 8

  groups-Quiet :
      (groups : List TargetGroup) (ids : List String) (errs : List Error)
      → Quiet (wait_for_target_groups env lib groups ids errs)
  unfolding wait_for_target_groups
  groups-Quiet [] ids errs = search quiet_rules
  groups-Quiet (g ∷ gs) ids errs = Quiet-bind _ _ (async-Quiet g ids) (λ r. groups-Quiet gs ids _)

  require-Quiet : (groups : List TargetGroup) → Quiet (require_target_groups env lib groups)
  unfolding require_target_groups
  require-Quiet [] = search quiet_rules
  require-Quiet (g ∷ gs) = search quiet_rules

  only-Quiet :
      (name : Text) (found : List (Option String)) → Quiet (only_load_balancer env lib name found)
  unfolding only_load_balancer
  only-Quiet name [] = search quiet_rules
  only-Quiet name (none ∷ []) = search quiet_rules
  only-Quiet name (some arn ∷ []) = search quiet_rules
  only-Quiet name (none ∷ _ ∷ _) = search quiet_rules
  only-Quiet name (some _ ∷ _ ∷ _) = search quiet_rules

  target_groups-Quiet : (name : Text) → Quiet (get_elb_target_groups env lib name)
  unfolding get_elb_target_groups
  target_groups-Quiet name = search (quiet_rules, require-Quiet, only-Quiet) depth 8

  alb_or_nlb-Quiet :
      (name : Text) (ids : List String)
      → Quiet (wait_for_any_instances_registered_to_alb_or_nlb env lib name ids)
  unfolding wait_for_any_instances_registered_to_alb_or_nlb
  alb_or_nlb-Quiet name ids =
      search (quiet_rules, target_groups-Quiet, groups-Quiet, return_error-Quiet) depth 8

  by_type-Quiet :
      (t : ElbType) (name : Text) (ids : List String) → Quiet (wait_by_type env lib t name ids)
  unfolding wait_by_type wait_for_any_instances_registered_to_clb
  by_type-Quiet clb name ids = search quiet_rules
  by_type-Quiet nlb name ids = alb_or_nlb-Quiet name ids
  by_type-Quiet alb name ids = alb_or_nlb-Quiet name ids
  by_type-Quiet unknown_elb name ids = search quiet_rules

  lb-Quiet :
      (t : ElbTargetType) (elb : AwsLoadBalancer) (ids : List String) (errs : List Error)
      → Quiet (wait_for_load_balancer env lib t elb ids errs)
  unfolding wait_for_load_balancer
  lb-Quiet ip_target elb ids errs = search quiet_rules
  lb-Quiet unknown_elb_target elb ids errs = search quiet_rules
  lb-Quiet instance_target elb ids errs = search (quiet_rules, by_type-Quiet)

  lbs-Quiet :
      (elbs : List AwsLoadBalancer) (ids : List String) (errs : List Error)
      → Quiet (wait_for_load_balancers env lib elbs ids errs)
  unfolding wait_for_load_balancers
  lbs-Quiet [] ids errs = search quiet_rules
  lbs-Quiet (elb ∷ elbs) ids errs =
      Quiet-bind _ _ (lb-Quiet elb.target_type elb ids errs) (λ errs'. lbs-Quiet elbs ids errs')

  elb-Quiet :
      (elbs : List AwsLoadBalancer) (ids : List String)
      → Quiet (wait_for_any_instances_registered_to_elb env lib elbs ids)
  unfolding wait_for_any_instances_registered_to_elb
  elb-Quiet elbs ids = search (quiet_rules, lbs-Quiet, return_error-Quiet)

  pub wait_and_verify-Quiet :
      (ids : List String) (options : KubectlOptions) (retries sleep : ℕ)
      → Quiet (wait_and_verify_new_instances env lib ids options retries sleep)
  unfolding wait_and_verify_new_instances
  wait_and_verify-Quiet ids options retries sleep =
      search
        (quiet_rules, details-Quiet, node_names-Quiet, wait_ready-Quiet, get_lbs-Quiet, elb-Quiet)
        depth 10
