-- ===== src/Eks/AutoScaling/Capacity.antt =====
-- What a wait for capacity has seen when it returns (eks/asg.go, waitForCapacity).
use kubergrunt.Prelude.{
  ℕ, zero, suc, String, true, List, [], ◌∷◌, ◌≡◌, refl, ◌==◌, length, arith, Bool-cases, inl, inr,
}
use kubergrunt.Cloud.Types.{AsgGroup}
use kubergrunt.Cloud.Request.{Call, reply, History, Env}
use kubergrunt.Cloud.Monad.{ok, pure, raise, call}
use kubergrunt.Cloud.Yields.{
  IfOk, Yields, Yields-raise, Yields-bind, Yields-bind_at, Yields-call, Yields-ok,
}
use kubergrunt.Eks.AutoScaling.{first_group, get_asg_by_name, wait_for_capacity}

-- The last request of the history looked the group up, and `g` came first in the reply.
pub record LookedUp (env : Env) (name : String) (g : AsgGroup) (h : History) : Type 0 where
  pub before : History
  pub others : List AsgGroup
  pub request :
      h ≡ (record { request = Call.describe_auto_scaling_groups name; succeeded = true } ∷ before)
  pub answer : env.respond before (Call.describe_auto_scaling_groups name) ≡ reply (g ∷ others)

-- The last look-up showed as many instances as are desired.
pub record AtCapacity (env : Env) (name : String) (h : History) : Type 0 where
  pub group : AsgGroup
  pub looked_up : LookedUp env name group h
  pub met : length group.instance_ids ≡ group.desired_capacity

equal_of_test : (a b : ℕ) → (a == b) ≡ true → a ≡ b
equal_of_test a b h = ground arith

module _ (env : Env) where
  first-LookedUp :
      (name : String) (before : History) (groups : List AsgGroup)
      → env.respond before (Call.describe_auto_scaling_groups name) ≡ reply groups
      → let h : History =
          record { request = Call.describe_auto_scaling_groups name; succeeded = true } ∷ before in
        IfOk
          (λ g h'. LookedUp env name g h')
          (first_group name groups h).0
          (first_group name groups h).1
  unfolding first_group raise pure
  first-LookedUp name before [] e = tt
  first-LookedUp name before (g ∷ gs) e = record {
    before = before;
    others = gs;
    request = refl;
    answer = e;
  }

  -- A look-up by name returns what AWS has just replied.
  pub get_asg_by_name-LookedUp :
      (name : String) → Yields (get_asg_by_name env name) (λ g h. LookedUp env name g h)
  unfolding get_asg_by_name
  get_asg_by_name-LookedUp name =
      Yields-bind_at _ _
        (Yields-call env (Call.describe_auto_scaling_groups name)
          {Q = λ groups h.
            (before : History) × (h ≡ (
              record { request = Call.describe_auto_scaling_groups name; succeeded = true }
              ∷ before))
            × (env.respond before (Call.describe_auto_scaling_groups name) ≡ reply groups)}
          (λ h groups e. (h, refl, e)))
        (λ groups h seen. rw seen.1 (first-LookedUp name seen.0 groups seen.2))

  capacity-Yields :
      (name : String) (retries sleep : ℕ)
      → Yields (wait_for_capacity env name retries sleep) (λ _ h. AtCapacity env name h)
  unfolding wait_for_capacity pure
  capacity-Yields name zero sleep = Yields-raise _
  capacity-Yields name (suc retries) sleep =
      let again = capacity-Yields name retries sleep in
      Yields-bind_at _ _ (get_asg_by_name-LookedUp name) (λ g h seen.
        elim (Bool-cases (length g.instance_ids == g.desired_capacity)) [
          | inl e ↦ rw e (record {
            group = g;
            looked_up = seen;
            met = equal_of_test (length g.instance_ids) g.desired_capacity e;
          })
          | inr e ↦ rw e (
              (Yields-bind (call env (Call.sleep sleep))
                  (λ _. wait_for_capacity env name retries sleep) (λ _. again)).at
                h)
        ])

  -- A wait that returns has seen, in its last request, a group with as many instances as it desires.
  pub wait_for_capacity-AtCapacity :
      (name : String) (retries sleep : ℕ) (h : History)
      → (wait_for_capacity env name retries sleep h).0 ≡ ok tt
      → AtCapacity env name (wait_for_capacity env name retries sleep h).1
  wait_for_capacity-AtCapacity name retries sleep h =
      Yields-ok _ h (capacity-Yields name retries sleep)
