-- ===== src/Cloud/Quiet.antt =====
-- Code whose requests change nothing that the safety of a roll out rests on: it terminates no
-- instance and writes no file but a temporary one. One rule for each way to build code.
use kubergrunt.Prelude.{
  ℕ, String, Bool, true, false, Option, none, some, List, ◌∷◌, ◌≡◌, refl, if◌then◌else◌,
}
use kubergrunt.Cloud.Types.{Text, KubeConfig}
use kubergrunt.Cloud.Failure.{Error}
use kubergrunt.Cloud.Request.{Call, Answer, reply, failure, succeeds, History, Env}
use kubergrunt.Cloud.Monad.{
  Outcome, ok, err, panic, hangs, M, pure, raise, crash, hang, lift, or_panic, ◌>>=◌, attempt, call,
}
use kubergrunt.Kubectl.Config.{initial_blank_kubeconfig}

-- A request that neither terminates instances nor writes a file; writing the blank kubeconfig is
-- allowed.
abbrev pub IsQuiet : Call → Type 0
IsQuiet (Call.terminate_instances _) = ⊥
IsQuiet (Call.write_file _ bytes) = bytes ≡ initial_blank_kubeconfig
IsQuiet _ = Unit

-- The later history is the earlier one after quiet requests.
pub data Extends (h : History) : History → Type 0 where
  here : Extends h h
  more :
      {h' : History} (c : Call) (b : Bool)
      → IsQuiet c
      → Extends h h'
      → Extends h (record { request = c; succeeded = b } ∷ h')

pub Extends-trans : {h h' h'' : History} → Extends h h' → Extends h' h'' → Extends h h''
Extends-trans p here = p
Extends-trans p (more c b q r) = more c b q (Extends-trans p r)

pub record Quiet {A : Type 0} (m : M A) : Type 0 where
  pub at : (h : History) → Extends h (m h).1

module _ {A : Type 0} where
  pub Quiet-pure : (a : A) → Quiet (pure a)
  unfolding pure
  Quiet-pure a = record { at = λ h. here }

  pub Quiet-raise : (e : Error) → Quiet (raise {A = A} e)
  unfolding raise
  Quiet-raise e = record { at = λ h. here }

  pub Quiet-crash : Quiet (crash {A = A})
  unfolding crash
  Quiet-crash = record { at = λ h. here }

  pub Quiet-hang : Quiet (hang {A = A})
  unfolding hang
  Quiet-hang = record { at = λ h. here }

  pub Quiet-lift : (a : Answer A) → Quiet (lift a)
  unfolding lift
  Quiet-lift (reply a) = record { at = λ h. here }
  Quiet-lift (failure e) = record { at = λ h. here }

  pub Quiet-or_panic : (o : Option A) → Quiet (or_panic o)
  unfolding or_panic
  Quiet-or_panic none = record { at = λ h. here }
  Quiet-or_panic (some a) = record { at = λ h. here }

  pub Quiet-if : (b : Bool) (m n : M A) → Quiet m → Quiet n → Quiet (if b then m else n)
  Quiet-if true m n qm qn = qm
  Quiet-if false m n qm qn = qn

  pub Quiet-attempt : (m : M A) → Quiet m → Quiet (attempt m)
  unfolding attempt
  Quiet-attempt m q = record { at = λ h. keep h (m h) (q.at h) }
    where
      keep :
          (h : History) (r : Outcome A × History)
          → Extends h r.1
          → Extends h
              (elim r.0 as (λ _. Outcome (Answer A) × History) [
                | ok a ↦ (ok (reply a), r.1)
                | err e ↦ (ok (failure e), r.1)
                | panic ↦ (panic, r.1)
                | hangs ↦ (hangs, r.1)
              ]).1
      keep h (ok a, h') e = e
      keep h (err x, h') e = e
      keep h (panic, h') e = e
      keep h (hangs, h') e = e

module _ {A B : Type 0} where
  bind-Extends :
      (h : History) (f : A → M B) (r : Outcome A × History)
      → ((a : A) → Quiet (f a))
      → Extends h r.1
      → Extends h
          (elim r.0 as (λ _. Outcome B × History) [
            | ok a ↦ f a r.1
            | err e ↦ (err e, r.1)
            | panic ↦ (panic, r.1)
            | hangs ↦ (hangs, r.1)
          ]).1
  bind-Extends h f (ok a, h') q e = Extends-trans e ((q a).at h')
  bind-Extends h f (err x, h') q e = e
  bind-Extends h f (panic, h') q e = e
  bind-Extends h f (hangs, h') q e = e

  pub Quiet-bind : (m : M A) (f : A → M B) → Quiet m → ((a : A) → Quiet (f a)) → Quiet (m >>= f)
  unfolding ◌>>=◌
  Quiet-bind m f qm qf = record { at = λ h. bind-Extends h f (m h) qf (qm.at h) }

  -- A match on an optional value.
  pub Quiet-option :
      (o : Option A) (m : M B) (f : A → M B)
      → Quiet m
      → ((a : A) → Quiet (f a))
      → Quiet (elim o as (λ _. M B) [ none ↦ m | some a ↦ f a ])
  Quiet-option none m f qm qf = qm
  Quiet-option (some a) m f qm qf = qf a

  -- A match on the answer to a request.
  pub Quiet-answer :
      (r : Answer A) (f : A → M B) (g : Error → M B)
      → ((a : A) → Quiet (f a))
      → ((e : Error) → Quiet (g e))
      → Quiet (elim r as (λ _. M B) [ reply a ↦ f a | failure e ↦ g e ])
  Quiet-answer (reply a) f g qf qg = qf a
  Quiet-answer (failure e) f g qf qg = qg e

module _ (env : Env) where
  pub Quiet-call : (c : Call) → IsQuiet c → Quiet (call env c)
  unfolding call
  Quiet-call c q = record { at = λ h. more c (succeeds (env.respond h c)) q here }

  -- The same for each request, which is what `search` needs to see the reply's type.
  pub describe_auto_scaling_groups-Quiet :
      (a0 : String) → Quiet (call env (Call.describe_auto_scaling_groups a0))
  describe_auto_scaling_groups-Quiet a0 = Quiet-call (Call.describe_auto_scaling_groups a0) tt

  pub set_desired_capacity-Quiet :
      (a0 : String) (a1 : ℕ) → Quiet (call env (Call.set_desired_capacity a0 a1))
  set_desired_capacity-Quiet a0 a1 = Quiet-call (Call.set_desired_capacity a0 a1) tt

  pub update_auto_scaling_group-Quiet :
      (a0 : String) (a1 : ℕ) → Quiet (call env (Call.update_auto_scaling_group a0 a1))
  update_auto_scaling_group-Quiet a0 a1 = Quiet-call (Call.update_auto_scaling_group a0 a1) tt

  pub detach_instances-Quiet :
      (a0 : String) (a1 : List String) → Quiet (call env (Call.detach_instances a0 a1))
  detach_instances-Quiet a0 a1 = Quiet-call (Call.detach_instances a0 a1) tt

  pub describe_instances-Quiet :
      (a0 : List String) (a1 : Option String) → Quiet (call env (Call.describe_instances a0 a1))
  describe_instances-Quiet a0 a1 = Quiet-call (Call.describe_instances a0 a1) tt

  pub wait_until_instance_terminated-Quiet :
      (a0 : List String) → Quiet (call env (Call.wait_until_instance_terminated a0))
  wait_until_instance_terminated-Quiet a0 = Quiet-call (Call.wait_until_instance_terminated a0) tt

  pub wait_until_any_instance_in_service-Quiet :
      (a0 : Text) (a1 : List String)
      → Quiet (call env (Call.wait_until_any_instance_in_service a0 a1))
  wait_until_any_instance_in_service-Quiet a0 a1 =
      Quiet-call (Call.wait_until_any_instance_in_service a0 a1) tt

  pub describe_load_balancers-Quiet :
      (a0 : Text) → Quiet (call env (Call.describe_load_balancers a0))
  describe_load_balancers-Quiet a0 = Quiet-call (Call.describe_load_balancers a0) tt

  pub describe_target_groups-Quiet :
      (a0 : String) → Quiet (call env (Call.describe_target_groups a0))
  describe_target_groups-Quiet a0 = Quiet-call (Call.describe_target_groups a0) tt

  pub describe_target_health-Quiet :
      (a0 : String) → Quiet (call env (Call.describe_target_health a0))
  describe_target_health-Quiet a0 = Quiet-call (Call.describe_target_health a0) tt

  pub load_client_config-Quiet :
      (a0 : String) (a1 : String) → Quiet (call env (Call.load_client_config a0 a1))
  load_client_config-Quiet a0 a1 = Quiet-call (Call.load_client_config a0 a1) tt

  pub new_for_config-Quiet :
      (a0 : String) (a1 : String) (a2 : String) → Quiet (call env (Call.new_for_config a0 a1 a2))
  new_for_config-Quiet a0 a1 a2 = Quiet-call (Call.new_for_config a0 a1 a2) tt

  pub list_nodes-Quiet : Quiet (call env Call.list_nodes)
  list_nodes-Quiet = Quiet-call Call.list_nodes tt

  pub list_services-Quiet : (a0 : String) → Quiet (call env (Call.list_services a0))
  list_services-Quiet a0 = Quiet-call (Call.list_services a0) tt

  pub new_session-Quiet : (a0 : String) → Quiet (call env (Call.new_session a0))
  new_session-Quiet a0 = Quiet-call (Call.new_session a0) tt

  pub describe_cluster-Quiet : (a0 : Text) → Quiet (call env (Call.describe_cluster a0))
  describe_cluster-Quiet a0 = Quiet-call (Call.describe_cluster a0) tt

  pub new_token_generator-Quiet : Quiet (call env Call.new_token_generator)
  new_token_generator-Quiet = Quiet-call Call.new_token_generator tt

  pub get_token-Quiet : (a0 : Text) → Quiet (call env (Call.get_token a0))
  get_token-Quiet a0 = Quiet-call (Call.get_token a0) tt

  pub run_shell_command-Quiet :
      (a0 : String) (a1 : List String) → Quiet (call env (Call.run_shell_command a0 a1))
  run_shell_command-Quiet a0 a1 = Quiet-call (Call.run_shell_command a0 a1) tt

  pub modify_config-Quiet :
      (a0 : String) (a1 : KubeConfig) → Quiet (call env (Call.modify_config a0 a1))
  modify_config-Quiet a0 a1 = Quiet-call (Call.modify_config a0 a1) tt

  pub read_file-Quiet : (a0 : String) → Quiet (call env (Call.read_file a0))
  read_file-Quiet a0 = Quiet-call (Call.read_file a0) tt

  pub remove_file-Quiet : (a0 : String) → Quiet (call env (Call.remove_file a0))
  remove_file-Quiet a0 = Quiet-call (Call.remove_file a0) tt

  pub temp_file-Quiet : Quiet (call env Call.temp_file)
  temp_file-Quiet = Quiet-call Call.temp_file tt

  pub close_file-Quiet : (a0 : String) → Quiet (call env (Call.close_file a0))
  close_file-Quiet a0 = Quiet-call (Call.close_file a0) tt

  pub mkdir_all-Quiet : (a0 : String) → Quiet (call env (Call.mkdir_all a0))
  mkdir_all-Quiet a0 = Quiet-call (Call.mkdir_all a0) tt

  pub sleep-Quiet : (a0 : ℕ) → Quiet (call env (Call.sleep a0))
  sleep-Quiet a0 = Quiet-call (Call.sleep a0) tt

  pub write_blank-Quiet :
      (path : String) → Quiet (call env (Call.write_file path initial_blank_kubeconfig))
  write_blank-Quiet path = Quiet-call (Call.write_file path initial_blank_kubeconfig) refl

pub ruleset quiet_rules = (
  Quiet-pure, Quiet-raise, Quiet-crash, Quiet-hang, Quiet-lift, Quiet-or_panic, Quiet-if,
  Quiet-attempt, Quiet-bind, describe_auto_scaling_groups-Quiet, set_desired_capacity-Quiet,
  update_auto_scaling_group-Quiet, detach_instances-Quiet, describe_instances-Quiet,
  wait_until_instance_terminated-Quiet, wait_until_any_instance_in_service-Quiet,
  describe_load_balancers-Quiet, describe_target_groups-Quiet, describe_target_health-Quiet,
  load_client_config-Quiet, new_for_config-Quiet, list_nodes-Quiet, list_services-Quiet,
  new_session-Quiet, describe_cluster-Quiet, new_token_generator-Quiet, get_token-Quiet,
  run_shell_command-Quiet, modify_config-Quiet, read_file-Quiet, remove_file-Quiet, temp_file-Quiet,
  close_file-Quiet, mkdir_all-Quiet, sleep-Quiet, write_blank-Quiet,
)
