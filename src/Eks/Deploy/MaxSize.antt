-- ===== src/Eks/Deploy/MaxSize.antt =====
-- The raise of a group's maximum size (eks/deploy_state.go, setMaxCapacity).
use kubergrunt.Prelude.{
  ℕ, ◌*◌, ◌<◌, ◌≤◌, false, Option, some, List, [], ◌∷◌, ◌≡◌, refl, subst, ap, ◌∙◌, ◌⊎◌, inl, inr,
  arith, if◌then◌else◌,
}
use kubergrunt.Prelude.Words.{mul64, slt64}
use kubergrunt.Cloud.Types.{Asg}
use kubergrunt.Cloud.Request.{Call, reply, Event, History, Env}
use kubergrunt.Cloud.Answered.{Answered}
use kubergrunt.Cloud.Monad.{ok, pure}
use kubergrunt.Cloud.Keeps.{Keeps, Keeps-pure, Keeps-lift, Keeps-call, Keeps-bind, both-IfOk}
use kubergrunt.Cloud.Yields.{
  IfOk, Yields, Yields-pure, Yields-if, Yields-bind, Yields-bind_at, Yields-ok, Yields-call,
  Yields-found,
}
use kubergrunt.Eks.AutoScaling.{set_asg_max_size}
use kubergrunt.Eks.Deploy.{Session, first_asg, set_first_asg, persist, persisted, set_max_capacity}

double_fits : (n : ℕ) → n < 0x4000000000000000 → mul64 n 2 ≡ n * 2
double_fits n h = omega arith

less_fits : (a b : ℕ) → a < 0x8000000000000000 → b < 0x8000000000000000 → slt64 a b ≡ false → b ≤ a
less_fits a b ha hb e = ground arith

set_first-first :
    (asg a : Asg) (asgs : List Asg)
    → first_asg asgs ≡ some a
    → first_asg (set_first_asg asg asgs) ≡ some asg
unfolding first_asg set_first_asg
set_first-first asg a [] e = cc
set_first-first asg a (_ ∷ asgs) e = refl

module _ (env : Env) where
  -- The group may hold twice its instances: it could already, or AWS said that its limit is raised.
  abbrev pub RoomFor : Asg → History → Type 0
  RoomFor asg h =
      (asg.original_capacity * 2 ≤ asg.original_max_capacity)
      ⊎ Answered env (Call.update_auto_scaling_group asg.name (asg.original_capacity * 2))
          (reply tt) h

  raise-Yields :
      (asg : Asg)
      → asg.original_capacity < 0x4000000000000000
      → asg.original_max_capacity < 0x8000000000000000
      → let max_capacity = mul64 asg.original_capacity 2 in
        Yields
          (if slt64 asg.original_max_capacity max_capacity
            then set_asg_max_size env asg.name max_capacity
            else pure tt)
          (λ _ h. RoomFor asg h)
  unfolding set_asg_max_size
  raise-Yields asg small small' = rw (double_fits asg.original_capacity small) (
      Yields-if (slt64 asg.original_max_capacity (asg.original_capacity * 2)) _ _
        (λ _.
          Yields-call env (Call.update_auto_scaling_group asg.name (asg.original_capacity * 2))
            {Q = λ _ h. RoomFor asg h} (λ h a e. inr (inl (refl, e))))
        (λ e. Yields-pure tt (λ h. inl (
          less_fits asg.original_max_capacity (asg.original_capacity * 2) small' (omega arith) e))))

  RoomFor-more : (asg : Asg) (e : Event) (h : History) → RoomFor asg h → RoomFor asg (e ∷ h)
  RoomFor-more asg e h (inl fits) = inl fits
  RoomFor-more asg e h (inr asked) = inr (inr asked)

  persisted-RoomFor : (asg : Asg) (t : Session) → Keeps (RoomFor asg) (persisted env t)
  unfolding persisted persist
  persisted-RoomFor asg t =
      Keeps-bind _ _
        (Keeps-bind _ _ (Keeps-lift _)
          (λ bytes. Keeps-call env (Call.write_file t.state.path bytes) (RoomFor-more asg)))
        (λ _. Keeps-pure t)

  -- The session after the stage, and the room in the group.
  abbrev pub Raised : Asg → Session → History → Type 0
  Raised asg s' h =
      (first_asg s'.state.asgs
        ≡ some (record asg { max_capacity_for_update = asg.original_capacity * 2 }))
      × RoomFor asg h

  persisted-first :
      (t : Session)
      → Yields (persisted env t) (λ s' _. first_asg s'.state.asgs ≡ first_asg t.state.asgs)
  unfolding persisted
  persisted-first t = Yields-bind _ _ (λ _. Yields-pure t (λ h. refl))

  persisted-Raised :
      (asg : Asg) (t : Session) (h : History)
      → first_asg t.state.asgs
        ≡ some (record asg { max_capacity_for_update = asg.original_capacity * 2 })
      → RoomFor asg h
      → IfOk (Raised asg) (persisted env t h).0 (persisted env t h).1
  persisted-Raised asg t h first room =
      both-IfOk (RoomFor asg) (λ s' _. first_asg s'.state.asgs ≡ _) (persisted env t h).0
        (persisted env t h).1
        ((subst (λ (o : Option Asg). Yields (persisted env t) (λ s' _. first_asg s'.state.asgs ≡ o))
            first (persisted-first t)).at
          h)
        ((persisted-RoomFor asg t).at h room)

  set_max-Yields :
      (s : Session) (asg : Asg)
      → s.state.set_max_capacity_done ≡ false
      → first_asg s.state.asgs ≡ some asg
      → asg.original_capacity < 0x4000000000000000
      → asg.original_max_capacity < 0x8000000000000000
      → Yields (set_max_capacity env s) (Raised asg)
  unfolding set_max_capacity
  set_max-Yields s asg todo found small small' = rw todo (
      Yields-found _ asg _ found (
        Yields-bind_at _ _ (raise-Yields asg small small') (λ _ h room.
          persisted-Raised asg _ h
            (set_first-first _ asg s.state.asgs found
              ∙ ap (λ n. some (record asg { max_capacity_for_update = n }))
                  (double_fits asg.original_capacity small))
            room)))

  -- With fewer than 2^62 instances and a limit below 2^63, the stage that is not done yet takes twice
  -- the instances as the size to scale up to, without overflow; and when it succeeds, the group's
  -- limit allowed that, or a request that succeeded has set it to that.
  pub set_max_capacity-Raised :
      (s s' : Session) (asg : Asg) (h : History)
      → s.state.set_max_capacity_done ≡ false
      → first_asg s.state.asgs ≡ some asg
      → asg.original_capacity < 0x4000000000000000
      → asg.original_max_capacity < 0x8000000000000000
      → (set_max_capacity env s h).0 ≡ ok s'
      → Raised asg s' (set_max_capacity env s h).1
  set_max_capacity-Raised s s' asg h todo found small small' =
      Yields-ok {Q = Raised asg} _ h (set_max-Yields s asg todo found small small')
