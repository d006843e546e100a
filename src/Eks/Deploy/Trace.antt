-- ===== src/Eks/Deploy/Trace.antt =====
-- What the requests of one or more roll outs must look like (eks/deploy.go, eks/deploy_state.go).
use kubergrunt.Prelude.{
  ℕ, String, Bool, true, List, [], ◌∷◌, ◌≡◌, ◌≢◌, ◌⊎◌, inl, inr, All, All-map, In,
}
use mathlib.Core.List.{flatten}
use kubergrunt.Cloud.Types.{Asg, DeployState}
use kubergrunt.Cloud.Request.{Call, reply, Event, History, Env}
use kubergrunt.Cloud.Quiet.{IsQuiet, Extends, here, more}
use kubergrunt.Kubectl.Config.{initial_blank_kubeconfig}
use kubergrunt.Eks.Deploy.{new_deploy_state}

-- The request is in the history, whether it succeeded or not.
abbrev pub Requested : Call → History → Type 0
Requested c [] = ⊥
Requested c (e ∷ h) = (e.request ≡ c) ⊎ Requested c h

-- What the roll out relies on: JSON gives a state back, the blank kubeconfig (which is YAML) is no
-- state, what is read from a file and parses as a state was written to that file by a request of
-- this history, and the batches of a list hold the list, if their size is not 0.
pub record EnvLaws (env : Env) : Type 0 where
  pub unmarshal-marshal :
      (s : DeployState) (bytes : String)
      → env.marshal s ≡ reply bytes
      → env.unmarshal bytes ≡ reply s
  pub blank_is_no_state : (s : DeployState) → env.unmarshal initial_blank_kubeconfig ≡ reply s → ⊥
  pub reads_written :
      (h : History) (path bytes : String) (s : DeployState)
      → env.respond h (Call.read_file path) ≡ reply bytes
      → env.unmarshal bytes ≡ reply s
      → Requested (Call.write_file path bytes) h
  pub flatten-batches :
      (ids : List String) (n : ℕ) → n ≢ 0 → flatten (env.batch_list_into_groups_of ids n) ≡ ids

abbrev pub DetachedBy : String → Call → Bool → Type 0
DetachedBy id (Call.detach_instances _ batch) true = In id batch
DetachedBy id _ _ = ⊥

-- A request that has succeeded detached the instance from its group.
abbrev pub Detached : String → History → Type 0
Detached id [] = ⊥
Detached id (e ∷ h) = DetachedBy id e.request e.succeeded ⊎ Detached id h

abbrev pub AllDetached : List String → History → Type 0
AllDetached ids h = All (λ id. Detached id h) ids

-- The instances that the state says are to be replaced.
abbrev pub originals_of : List Asg → List String
originals_of [] = []
originals_of (asg ∷ _) = asg.original_instances

-- No stage is marked as done before the one that comes before it.
pub record InOrder (s : DeployState) : Type 0 where
  pub gathered : s.set_max_capacity_done ≡ true → s.gather_asg_info_done ≡ true
  pub set_max : s.scale_up_done ≡ true → s.set_max_capacity_done ≡ true
  pub scaled : s.wait_for_nodes_done ≡ true → s.scale_up_done ≡ true
  pub waited : s.cordon_nodes_done ≡ true → s.wait_for_nodes_done ≡ true
  pub cordoned : s.drain_nodes_done ≡ true → s.cordon_nodes_done ≡ true
  pub drained : s.detach_instances_done ≡ true → s.drain_nodes_done ≡ true
  pub detached_first : s.terminate_instances_done ≡ true → s.detach_instances_done ≡ true

-- The state claims nothing that has not happened.
pub record Honest (s : DeployState) (h : History) : Type 0 where
  pub order : InOrder s
  pub detached : s.detach_instances_done ≡ true → AllDetached (originals_of s.asgs) h

module _ (env : Env) where
  -- What must have happened before a request: before a termination the instances have been
  -- detached, and a state that is written is honest.
  abbrev pub Justified : Call → History → Type 0
  Justified (Call.terminate_instances ids) h = AllDetached ids h
  Justified (Call.write_file _ bytes) h =
      (s : DeployState) → env.unmarshal bytes ≡ reply s → Honest s h
  Justified _ h = Unit

  -- Every request of the history was justified when it was made.
  abbrev pub Sound : History → Type 0
  Sound [] = Unit
  Sound (e ∷ h) = Justified e.request h × Sound h

pub Detached-Extends :
    (id : String) {h h' : History} → Extends h h' → Detached id h → Detached id h'
Detached-Extends id here d = d
Detached-Extends id (more c b q r) d = inr (Detached-Extends id r d)

pub AllDetached-Extends :
    (ids : List String) {h h' : History} → Extends h h' → AllDetached ids h → AllDetached ids h'
AllDetached-Extends ids {h} {h'} x =
    All-map (λ id. Detached id h) (λ id. Detached id h') (λ id. Detached-Extends id x) ids

pub AllDetached-more :
    (ids : List String) (e : Event) (h : History) → AllDetached ids h → AllDetached ids (e ∷ h)
AllDetached-more ids e h = All-map (λ id. Detached id h) (λ id. Detached id (e ∷ h)) (λ id. inr) ids

pub Honest-more : (s : DeployState) (e : Event) (h : History) → Honest s h → Honest s (e ∷ h)
Honest-more s e h k = record {
  order = k.order;
  detached = λ d. AllDetached-more (originals_of s.asgs) e h (k.detached d);
}

pub Honest-Extends : (s : DeployState) {h h' : History} → Extends h h' → Honest s h → Honest s h'
Honest-Extends s here k = k
Honest-Extends s (more {h' = h'} c b q r) k = Honest-more s _ h' (Honest-Extends s r k)

pub Honest-new : (path : String) (h : History) → Honest (new_deploy_state path) h
unfolding new_deploy_state
Honest-new path h = record {
  order = record {
    gathered = λ e. cc;
    set_max = λ e. cc;
    scaled = λ e. cc;
    waited = λ e. cc;
    cordoned = λ e. cc;
    drained = λ e. cc;
    detached_first = λ e. cc;
  };
  detached = λ e. cc;
}

module _ (env : Env) (laws : EnvLaws env) where
  quiet-Justified : (c : Call) (h : History) → IsQuiet c → Justified env c h
  quiet-Justified (Call.terminate_instances ids) h q = absurd q
  quiet-Justified (Call.write_file path bytes) h q =
      λ s e. absurd (laws.blank_is_no_state s (rw (← q) e))
  quiet-Justified _ h q = tt

  -- Quiet code keeps the history sound.
  pub Sound-Extends : {h h' : History} → Extends h h' → Sound env h → Sound env h'
  Sound-Extends here s = s
  Sound-Extends (more {h' = h'} c b q r) s = (quiet-Justified c h' q, Sound-Extends r s)

  -- A state that was written in a sound history is honest.
  pub written-Honest :
      (h : History) (path bytes : String) (s : DeployState)
      → Sound env h
      → env.unmarshal bytes ≡ reply s
      → Requested (Call.write_file path bytes) h
      → Honest s h
  written-Honest [] path bytes s sound e w = absurd w
  written-Honest (ev ∷ h) path bytes s sound e (inl same) =
      Honest-more s ev h (rw same at sound.0 s e)
  written-Honest (ev ∷ h) path bytes s sound e (inr w) =
      Honest-more s ev h (written-Honest h path bytes s sound.1 e w)
