-- ===== src/Eks/Deploy.antt =====
-- eks/deploy.go and eks/deploy_state.go: the roll out of an Auto Scaling Group in stages, with a
-- state file that lets a later run pick up where one has stopped. A stage that fails ends the run,
-- so that the state in memory is needed only of a stage that succeeds. A max retries or a sleep is a
-- Go number that is not negative; a sleep is in nanoseconds.
pub mod Retries
pub mod Trace
pub mod Meets
pub mod Stages
pub mod Safety
pub mod Resume
pub mod MaxSize
pub mod Restore
use kubergrunt.Prelude.{
  ℕ, zero, suc, ◌+◌, ◌-◌, ◌*◌, ◌/◌, ◌%◌, ltb, String, Bool, true, false, Option, none, some, List,
  [], ◌∷◌, ◌++◌, ◌==◌, not, if◌then◌else◌, length,
}
use kubergrunt.Prelude.Words.{int64_mod, int64_sign, mul64, slt64}
use kubergrunt.Prelude.Float.{float64, fdiv, fadd, ceil, trunc}
use kubergrunt.Cloud.Types.{Asg, DeployState, KubectlOptions}
use kubergrunt.Cloud.Request.{Call, Answer, reply, failure, Env}
use kubergrunt.Cloud.Retry.{Retry}
use kubergrunt.Cloud.Monad.{M, pure, raise, crash, lift, or_panic, attempt, ◌>>=◌, ◌>>◌, call}
use kubergrunt.Eks.AutoScaling.{
  get_asg_info, set_asg_max_size, wait_for_capacity, wait_and_verify_new_instances,
  drain_nodes_in_asg, cordon_nodes_in_asg,
}
use kubergrunt.Eks.AutoScaling
use kubergrunt.Eks.Instances

abbrev pub default_state_file : String
default_state_file = "./.kubergrunt.state"

-- A DeployState with its two fields that are not written to disk.
pub record Session : Type 0 where
  pub state : DeployState
  pub max_retries : ℕ
  pub sleep_between_retries : ℕ

-- The arguments of RollOutDeployment.
pub record RollOut : Type 0 where
  pub region : String
  pub eks_asg_name : String
  pub kubectl_options : KubectlOptions
  pub drain_timeout : ℕ
  pub delete_empty_dir_data : Bool
  pub max_retries : ℕ
  pub sleep_between_retries : ℕ
  pub ignore_recovery_file : Bool

unfoldable pub new_deploy_state : String → DeployState
new_deploy_state path = record {
  gather_asg_info_done = false;
  set_max_capacity_done = false;
  scale_up_done = false;
  wait_for_nodes_done = false;
  cordon_nodes_done = false;
  drain_nodes_done = false;
  detach_instances_done = false;
  terminate_instances_done = false;
  restore_capacity_done = false;
  path = path;
  asgs = [];
}

-- The waves of ten instances, an int64 as the count is. The ceiling of a negative quotient is the
-- whole part of its absolute value.
unfoldable pub num_waves : ℕ → ℕ
num_waves scale_up_count =
    if ltb scale_up_count int64_sign
    then ceil (fdiv (float64 scale_up_count) (float64 10))
    else (int64_mod - trunc (fdiv (float64 (int64_mod - scale_up_count)) (float64 10))) % int64_mod

-- 600 seconds for each wave, in sleeps. A number of retries that is negative, after an overflow or
-- for a negative count, counts as 0.
unfoldable pub default_retries : ℕ → ℕ → ℕ
default_retries scale_up_count sleep_seconds =
    let seconds = mul64 (num_waves scale_up_count) 600 in
    if ltb seconds int64_sign then seconds / sleep_seconds else 0

-- math.Trunc(sleep.Seconds()), where Seconds adds the whole seconds and the rest
unfoldable pub whole_seconds : ℕ → ℕ
whole_seconds sleep =
    trunc (
      fadd (float64 (sleep / 1000000000))
        (fdiv (float64 (sleep % 1000000000)) (float64 1000000000)))

-- A sleep of less than a second is a division by zero.
unfoldable pub get_default_max_retries : ℕ → ℕ → M ℕ
get_default_max_retries scale_up_count sleep =
    let seconds = whole_seconds sleep in
    if seconds == 0 then crash else pure (default_retries scale_up_count seconds)

unfoldable pub ensure_max_retries : ℕ → ℕ → ℕ → M ℕ
ensure_max_retries max_retries sleep original_capacity =
    if max_retries == 0 then get_default_max_retries original_capacity sleep else pure max_retries

-- `state.ASGs[0]`
unfoldable pub first_asg : List Asg → Option Asg
first_asg [] = none
first_asg (asg ∷ _) = some asg

-- An assignment to a field of `state.ASGs[0]`.
unfoldable pub set_first_asg : Asg → List Asg → List Asg
set_first_asg asg [] = []
set_first_asg asg (_ ∷ asgs) = asg ∷ asgs

module _ (env : Env) where
  unfoldable pub persist : DeployState → M (Unit {0})
  persist state = do bytes ← lift (env.marshal state); call env (Call.write_file state.path bytes)

  -- The end of each stage: the state is written, and returned.
  unfoldable pub persisted : Session → M Session
  persisted s = do persist s.state; pure s

  -- DeployState.delete
  unfoldable pub delete : DeployState → M (Unit {0})
  delete state = call env (Call.remove_file state.path)

  unfoldable pub read_deploy_state : String → Answer String → M DeployState
  read_deploy_state file (failure _) = pure (new_deploy_state file)
  read_deploy_state file (reply bytes) = lift (env.unmarshal bytes)

  unfoldable pub load_deploy_state : String → Bool → M DeployState
  load_deploy_state file true = pure (new_deploy_state file)
  load_deploy_state file false = do
    bytes ← attempt (call env (Call.read_file file))
    read_deploy_state file bytes

  unfoldable pub init_deploy_state : String → Bool → ℕ → ℕ → M Session
  init_deploy_state file ignore_existing_file max_retries sleep = do
    state ← load_deploy_state file ignore_existing_file
    pure (record { state = state; max_retries = max_retries; sleep_between_retries = sleep })

  -- A group that is not in steady state is waited for, and looked up again.
  unfoldable pub steady_asg_info : Asg → ℕ → ℕ → M Asg
  steady_asg_info asg_info max_retries sleep =
      if asg_info.original_capacity == length asg_info.original_instances
      then pure asg_info
      else (do
        wait_for_capacity env asg_info.name max_retries sleep
        get_asg_info env asg_info.name)

  unfoldable pub gather_asg_info : String → Session → M Session
  gather_asg_info eks_asg_name s =
      if s.state.gather_asg_info_done
      then (do
        asg ← or_panic (first_asg s.state.asgs)
        retries ← ensure_max_retries s.max_retries s.sleep_between_retries asg.original_capacity
        pure (record s { max_retries = retries }))
      else (do
        asg_info ← get_asg_info env eks_asg_name
        retries ←
            ensure_max_retries s.max_retries s.sleep_between_retries asg_info.original_capacity
        asg ← steady_asg_info asg_info retries s.sleep_between_retries
        persisted (record {
          state = record s.state { gather_asg_info_done = true; asgs = s.state.asgs ++ (asg ∷ []) };
          max_retries = retries;
          sleep_between_retries = s.sleep_between_retries;
        }))

  unfoldable pub set_max_capacity : Session → M Session
  set_max_capacity s = if s.state.set_max_capacity_done then pure s else (do
    asg ← or_panic (first_asg s.state.asgs)
    let max_capacity = mul64 asg.original_capacity 2
    if slt64 asg.original_max_capacity max_capacity
        then set_asg_max_size env asg.name max_capacity
        else pure tt
    let asgs = set_first_asg (record asg { max_capacity_for_update = max_capacity }) s.state.asgs
    persisted (record s { state = record s.state { set_max_capacity_done = true; asgs = asgs } }))

  unfoldable pub scale_up : Session → M Session
  scale_up s = if s.state.scale_up_done then pure s else (do
    asg ← or_panic (first_asg s.state.asgs)
    new_ids ←
        AutoScaling.scale_up env asg.name asg.original_instances asg.max_capacity_for_update
          s.max_retries s.sleep_between_retries
    let asgs = set_first_asg (record asg { new_instances = new_ids }) s.state.asgs
    persisted (record s { state = record s.state { scale_up_done = true; asgs = asgs } }))

  unfoldable pub cordon_nodes : KubectlOptions → Session → M Session
  cordon_nodes options s = if s.state.cordon_nodes_done then pure s else (do
    asg ← or_panic (first_asg s.state.asgs)
    cordon_nodes_in_asg env options asg.original_instances
    persisted (record s { state = record s.state { cordon_nodes_done = true } }))

  unfoldable pub drain_nodes : KubectlOptions → ℕ → Bool → Session → M Session
  drain_nodes options drain_timeout delete_empty_dir_data s =
      if s.state.drain_nodes_done then pure s else (do
        asg ← or_panic (first_asg s.state.asgs)
        drain_nodes_in_asg env options asg.original_instances drain_timeout delete_empty_dir_data
        persisted (record s { state = record s.state { drain_nodes_done = true } }))

  unfoldable pub detach_instances : Session → M Session
  detach_instances s = if s.state.detach_instances_done then pure s else (do
    asg ← or_panic (first_asg s.state.asgs)
    AutoScaling.detach_instances env asg.name asg.original_instances
    persisted (record s { state = record s.state { detach_instances_done = true } }))

  unfoldable pub terminate_instances : Session → M Session
  terminate_instances s = if s.state.terminate_instances_done then pure s else (do
    asg ← or_panic (first_asg s.state.asgs)
    Instances.terminate_instances env asg.original_instances
    persisted (record s { state = record s.state { terminate_instances_done = true } }))

  -- The flag RestoreCapacityDone is not set here, nor anywhere else.
  unfoldable pub restore_capacity : Session → M Session
  restore_capacity s = if s.state.restore_capacity_done then pure s else (do
    asg ← or_panic (first_asg s.state.asgs)
    set_asg_max_size env asg.name asg.original_max_capacity
    persisted s)

module _ (env : Env) (lib : Retry) where
  unfoldable pub wait_for_nodes : KubectlOptions → Session → M Session
  wait_for_nodes options s = if s.state.wait_for_nodes_done then pure s else (do
    asg ← or_panic (first_asg s.state.asgs)
    wait_and_verify_new_instances env lib asg.new_instances options s.max_retries
        s.sleep_between_retries
    persisted env (record s { state = record s.state { wait_for_nodes_done = true } }))

  -- The stages, up to the drain of the old nodes and from there on.
  unfoldable pub replace_nodes : RollOut → Session → M Session
  replace_nodes args s₀ = do
    s₁ ← gather_asg_info env args.eks_asg_name s₀
    s₂ ← set_max_capacity env s₁
    s₃ ← scale_up env s₂
    s₄ ← wait_for_nodes args.kubectl_options s₃
    s₅ ← cordon_nodes env args.kubectl_options s₄
    drain_nodes env args.kubectl_options args.drain_timeout args.delete_empty_dir_data s₅

  unfoldable pub remove_old_nodes : Session → M Session
  remove_old_nodes s₀ = do
    s₁ ← detach_instances env s₀
    s₂ ← terminate_instances env s₁
    restore_capacity env s₂

  unfoldable pub roll_out_deployment : RollOut → M (Unit {0})
  roll_out_deployment args = do
    call env (Call.new_session args.region)
    s₀ ←
        init_deploy_state env default_state_file args.ignore_recovery_file args.max_retries
          args.sleep_between_retries
    s₁ ← replace_nodes args s₀
    s₂ ← remove_old_nodes s₁
    attempt (delete env s₂.state) >>= λ _. pure tt
