-- ===== src/Tests/Deploy.antt =====
-- A roll out in the small cluster (eks/deploy.go, eks/deploy_state.go), and what the theorems say of
-- it.
use kubergrunt.Prelude.{true, false, [], ◌∷◌, ◌≡◌, refl, arith, ◌+◌, ◌*◌, ◌≤◌, ◌<◌}
use kubergrunt.Cloud.Types.{KubectlOptions, DeployState}
use kubergrunt.Cloud.Request.{reply, History, Env}
use kubergrunt.Cloud.Monad.{Outcome, ok, pure, or_panic, ◌>>=◌, call, lift, attempt}
use kubergrunt.Eks.AutoScaling.{set_asg_max_size, detach_batches}
use kubergrunt.Eks.AutoScaling
use kubergrunt.Eks.Instances.{terminate_batches, after_terminate, terminate_result}
use kubergrunt.Eks.Instances
use kubergrunt.Eks.Deploy.{
  Session, RollOut, roll_out_deployment, replace_nodes, set_max_capacity, first_asg, set_first_asg,
  remove_old_nodes, detach_instances, terminate_instances, restore_capacity, persisted, persist,
  num_waves, default_retries,
}
use kubergrunt.Eks.Deploy.Restore.{RestoredAfter, remove_old_nodes-restores_again}
use kubergrunt.Eks.Deploy.Retries.{default_retries_bounds}
use kubergrunt.Eks.Deploy.Trace.{Sound, InOrder}
use kubergrunt.Eks.Deploy.Resume.{replace_nodes-resumes}
use kubergrunt.Eks.Deploy.MaxSize.{Raised, set_max_capacity-Raised}
use kubergrunt.Eks.Deploy.Safety.{Runs, Within, Runs-Sound}
use kubergrunt.Tests.World.{world, group, after, world-EnvLaws, once, once-RetryLaws}

abbrev pub options : KubectlOptions
options = record {
  context_name = "";
  config_path = "/config";
  server = "";
  base64_pem_certificate_authority = "";
  bearer_token = "";
  eks_cluster_arn = "";
}

abbrev pub args : RollOut
args = record {
  region = "eu-west-1";
  eks_asg_name = "workers";
  kubectl_options = options;
  drain_timeout = 900000000000;
  delete_empty_dir_data = true;
  max_retries = 3;
  sleep_between_retries = 15000000000;
  ignore_recovery_file = false;
}

abbrev first_run : Outcome (Unit {0}) × History
first_run = roll_out_deployment world once args []

Runs-Sound_example : Sound world first_run.1
Runs-Sound_example =
    Runs-Sound world world-EnvLaws once once-RetryLaws {h = first_run.1}
      (Runs.run args Runs.none_yet Within.all)

-- The same world with an encoding that stands for no state.
abbrev forgetful : Env
forgetful = record world { marshal = λ _. reply "state" }

abbrev session : DeployState → Session
session state = record { state = state; max_retries = 3; sleep_between_retries = 0 }

-- The session of a run that picks up after the drain.
abbrev drained : Session
drained = session (after 6 (group 2 ("i-2" ∷ [])))

drained-InOrder : InOrder drained.state
drained-InOrder = record {
  gathered = λ _. refl;
  set_max = λ _. refl;
  scaled = λ _. refl;
  waited = λ _. refl;
  cordoned = λ _. refl;
  drained = λ _. refl;
  detached_first = λ e. cc;
}

replace_nodes-resumes_example : replace_nodes world once args drained [] ≡ (ok drained, [])
unfolding first_asg
replace_nodes-resumes_example =
    replace_nodes-resumes world once args drained [] (group 2 ("i-2" ∷ [])) drained-InOrder refl
      refl refl

abbrev gathered : Session
gathered = session (after 1 (group 0 []))

abbrev raised : Session
raised = session (after 2 (group 2 []))

set_max_capacity-Raised_example :
    Raised forgetful (group 0 []) raised (set_max_capacity forgetful gathered []).1
unfolding set_max_capacity first_asg set_first_asg or_panic ◌>>=◌ set_asg_max_size call persisted
    persist lift pure
set_max_capacity-Raised_example =
    set_max_capacity-Raised forgetful gathered raised (group 0 []) [] refl refl (omega arith)
      (omega arith) refl

-- The run that removes the old nodes, and the session that it leaves.
abbrev removed : Outcome Session × History
removed = remove_old_nodes forgetful once drained []

abbrev left : Session
left = session (after 8 (group 2 ("i-2" ∷ [])))

remove_old_nodes-restores_again_example :
    (left ≡ left)
    × RestoredAfter forgetful
        (group 2 ("i-2" ∷ []))
        left
        removed.1
        (remove_old_nodes forgetful once left removed.1).1
unfolding remove_old_nodes detach_instances terminate_instances restore_capacity first_asg or_panic
    ◌>>=◌ set_asg_max_size call persisted persist lift pure AutoScaling.detach_instances
    detach_batches Instances.terminate_instances terminate_batches after_terminate terminate_result
    attempt
remove_old_nodes-restores_again_example =
    remove_old_nodes-restores_again forgetful once (group 2 ("i-2" ∷ [])) drained left left []
      removed.1 refl refl refl refl

default_retries_bounds_example :
    let waves = num_waves 25 in
    let retries = default_retries 25 15 in
    (retries * 15 ≤ waves * 600)
    × (waves * 600 < retries * 15 + 15)
    × (25 ≤ waves * 10)
    × (waves * 10 < 25 + 10)
default_retries_bounds_example = default_retries_bounds 25 15 (omega arith) (omega arith)
