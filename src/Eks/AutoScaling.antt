-- ===== src/Eks/AutoScaling.antt =====
-- eks/asg.go and getAsgInfo of eks/deploy_state.go: operations on one Auto Scaling Group. A capacity
-- is an int64 pattern, and a number of retries is a Go int that is not negative.
pub mod Capacity
use kubergrunt.Prelude.{
  ℕ, zero, suc, String, Bool, true, false, Option, none, some, List, [], ◌∷◌, ◌++◌, ◌==◌, map,
  if◌then◌else◌, length,
}
use kubergrunt.Cloud.Types.{AsgGroup, Asg, KubectlOptions}
use kubergrunt.Cloud.Failure.{lookup_error, could_not_meet_asg_capacity}
use kubergrunt.Cloud.Request.{Call, Env}
use kubergrunt.Cloud.Retry.{Retry}
use kubergrunt.Cloud.Monad.{M, pure, raise, ◌>>=◌, ◌>>◌, call}
use kubergrunt.Kubectl.Nodes.{wait_for_nodes_ready, drain_nodes, cordon_nodes}
use kubergrunt.Kubectl.Services.{get_aws_load_balancers}
use kubergrunt.Eks.Instances.{instance_details_from_ids, kube_node_names_from_instances}
use kubergrunt.Eks.LoadBalancers.{wait_for_any_instances_registered_to_elb}

-- aws.StringValue
abbrev pub string_value : Option String → String
string_value none = ""
string_value (some s) = s

unfoldable pub ids_from_asg_instances : List (Option String) → List String
ids_from_asg_instances = map string_value

unfoldable pub first_group : String → List AsgGroup → M AsgGroup
first_group asg_name [] = raise (lookup_error "ASG" asg_name "detailed data")
first_group asg_name (group ∷ _) = pure group

module _ (env : Env) where
  unfoldable pub get_asg_by_name : String → M AsgGroup
  get_asg_by_name asg_name = do
    groups ← call env (Call.describe_auto_scaling_groups asg_name)
    first_group asg_name groups

  unfoldable pub get_asg_info : String → M Asg
  get_asg_info asg_name = do
    asg ← get_asg_by_name asg_name
    pure (record {
      name = asg_name;
      original_capacity = asg.desired_capacity;
      max_capacity_for_update = 0;
      original_max_capacity = asg.max_size;
      original_instances = ids_from_asg_instances asg.instance_ids;
      new_instances = [];
    })

  unfoldable pub set_asg_capacity : String → ℕ → M (Unit {0})
  set_asg_capacity asg_name desired_capacity =
      call env (Call.set_desired_capacity asg_name desired_capacity)

  unfoldable pub set_asg_max_size : String → ℕ → M (Unit {0})
  set_asg_max_size asg_name max_size = call env (Call.update_auto_scaling_group asg_name max_size)

  -- The loop of waitForCapacity, on the retries that are left.
  unfoldable pub wait_for_capacity : String → ℕ → ℕ → M (Unit {0})
  wait_for_capacity asg_name zero sleep =
      raise (
        could_not_meet_asg_capacity asg_name
          "Timed out waiting for desired capacity to be reached.")
  wait_for_capacity asg_name (suc retries) sleep = do
    asg ← get_asg_by_name asg_name
    if length asg.instance_ids == asg.desired_capacity
        then pure tt
        else (do call env (Call.sleep sleep); wait_for_capacity asg_name retries sleep)

  -- The ids that the list does not hold.
  unfoldable pub launched_ids : List String → List String → List String
  launched_ids existing_ids [] = []
  launched_ids existing_ids (inst ∷ all_ids) =
      if env.list_contains_element existing_ids inst
      then launched_ids existing_ids all_ids
      else inst ∷ launched_ids existing_ids all_ids

  unfoldable pub get_launched_instance_ids : String → List String → M (List String)
  get_launched_instance_ids asg_name existing_instance_ids = do
    asg ← get_asg_by_name asg_name
    pure (launched_ids existing_instance_ids (ids_from_asg_instances asg.instance_ids))

  unfoldable pub scale_up : String → List String → ℕ → ℕ → ℕ → M (List String)
  scale_up asg_name original_instance_ids desired_capacity max_retries sleep = do
    set_asg_capacity asg_name desired_capacity
    wait_for_capacity asg_name max_retries sleep
    get_launched_instance_ids asg_name original_instance_ids

  -- One request for each batch, until one fails.
  unfoldable pub detach_batches : String → List (List String) → M (Unit {0})
  detach_batches asg_name [] = pure tt
  detach_batches asg_name (batch ∷ batches) = do
    call env (Call.detach_instances asg_name batch)
    detach_batches asg_name batches

  unfoldable pub detach_instances : String → List String → M (Unit {0})
  detach_instances asg_name id_list =
      detach_batches asg_name (env.batch_list_into_groups_of id_list 20)

  unfoldable pub drain_nodes_in_asg : KubectlOptions → List String → ℕ → Bool → M (Unit {0})
  drain_nodes_in_asg options asg_instance_ids drain_timeout delete_empty_dir_data = do
    instances ← instance_details_from_ids env asg_instance_ids
    node_names ← kube_node_names_from_instances instances
    drain_nodes env options node_names drain_timeout delete_empty_dir_data

  unfoldable pub cordon_nodes_in_asg : KubectlOptions → List String → M (Unit {0})
  cordon_nodes_in_asg options asg_instance_ids = do
    instances ← instance_details_from_ids env asg_instance_ids
    node_names ← kube_node_names_from_instances instances
    cordon_nodes env options node_names

module _ (env : Env) (lib : Retry) where
  unfoldable pub wait_and_verify_new_instances : List String → KubectlOptions → ℕ → ℕ → M (Unit {0})
  wait_and_verify_new_instances instance_ids options max_retries sleep = do
    instances ← instance_details_from_ids env instance_ids
    node_names ← kube_node_names_from_instances instances
    wait_for_nodes_ready env options node_names max_retries sleep
    elbs ← get_aws_load_balancers env options
    wait_for_any_instances_registered_to_elb env lib elbs instance_ids
