-- ===== src/Eks/Drain.antt =====
-- eks/drain.go: cordon and drain the instances of several groups.
use kubergrunt.Prelude.{ℕ, String, Bool, List, [], ◌∷◌, ◌++◌}
use kubergrunt.Cloud.Types.{KubectlOptions}
use kubergrunt.Cloud.Request.{Call, Env}
use kubergrunt.Cloud.Monad.{M, pure, ◌>>=◌, ◌>>◌, call}
use kubergrunt.Eks.AutoScaling.{get_asg_info, cordon_nodes_in_asg, drain_nodes_in_asg}

module _ (env : Env) where
  -- The loop over the groups, with the ids so far.
  unfoldable pub instance_ids_of_asgs : List String → List String → M (List String)
  instance_ids_of_asgs [] all_instance_ids = pure all_instance_ids
  instance_ids_of_asgs (asg_name ∷ asg_names) all_instance_ids = do
    asg_info ← get_asg_info env asg_name
    instance_ids_of_asgs asg_names (all_instance_ids ++ asg_info.original_instances)

  unfoldable pub drain_asg : String → List String → KubectlOptions → ℕ → Bool → M (Unit {0})
  drain_asg region asg_names options drain_timeout delete_empty_dir_data = do
    call env (Call.new_session region)
    all_instance_ids ← instance_ids_of_asgs asg_names []
    cordon_nodes_in_asg env options all_instance_ids
    drain_nodes_in_asg env options all_instance_ids drain_timeout delete_empty_dir_data
