-- ===== src/Cloud/Runs.antt =====
-- Equations for a run of code from a given history, by the outcome of its first part.
use kubergrunt.Prelude.{true, false, ◌∷◌, ◌≡◌, ap}
use kubergrunt.Cloud.Failure.{Error}
use kubergrunt.Cloud.Request.{Call, Reply, Answer, reply, failure, succeeds, History, Env}
use kubergrunt.Cloud.Monad.{Outcome, ok, err, panic, hangs, M, ◌>>=◌, attempt, call, outcome_of}

module _ {A B : Type 0} where
  -- The run goes on from a value.
  pub bind-ok :
      (m : M A) (f : A → M B) (h h' : History) (a : A) → m h ≡ (ok a, h') → (m >>= f) h ≡ f a h'
  unfolding ◌>>=◌
  bind-ok m f h h' a e =
      ap
        (λ (r : Outcome A × History). elim r.0 as (λ _. Outcome B × History) [
          | ok x ↦ f x r.1
          | err x ↦ (err x, r.1)
          | panic ↦ (panic, r.1)
          | hangs ↦ (hangs, r.1)
        ])
        e

  pub bind-err :
      (m : M A) (f : A → M B) (h h' : History) (e : Error)
      → m h ≡ (err e, h')
      → (m >>= f) h ≡ (err e, h')
  unfolding ◌>>=◌
  bind-err m f h h' x e =
      ap
        (λ (r : Outcome A × History). elim r.0 as (λ _. Outcome B × History) [
          | ok x ↦ f x r.1
          | err x ↦ (err x, r.1)
          | panic ↦ (panic, r.1)
          | hangs ↦ (hangs, r.1)
        ])
        e

  -- What hangs goes on hanging.
  pub bind-hangs : (m : M A) (f : A → M B) (h : History) → (m h).0 ≡ hangs → ((m >>= f) h).0 ≡ hangs
  unfolding ◌>>=◌
  bind-hangs m f h e =
      ap
        (λ (r : Outcome A).
          (elim r as (λ _. Outcome B × History) [
            | ok x ↦ f x (m h).1
            | err x ↦ (err x, (m h).1)
            | panic ↦ (panic, (m h).1)
            | hangs ↦ (hangs, (m h).1)
          ]).0)
        e

pub attempt-err :
    {A : Type 0} (m : M A) (h h' : History) (e : Error)
    → m h ≡ (err e, h')
    → attempt m h ≡ (ok (failure e), h')
unfolding attempt
attempt-err {A} m h h' x e =
    ap
      (λ (r : Outcome A × History). elim r.0 as (λ _. Outcome (Answer A) × History) [
        | ok a ↦ (ok (reply a), r.1)
        | err e ↦ (ok (failure e), r.1)
        | panic ↦ (panic, r.1)
        | hangs ↦ (hangs, r.1)
      ])
      e

pub attempt-ok :
    {A : Type 0} (m : M A) (h h' : History) (a : A)
    → m h ≡ (ok a, h')
    → attempt m h ≡ (ok (reply a), h')
unfolding attempt
attempt-ok {A} m h h' x e =
    ap
      (λ (r : Outcome A × History). elim r.0 as (λ _. Outcome (Answer A) × History) [
        | ok a ↦ (ok (reply a), r.1)
        | err e ↦ (ok (failure e), r.1)
        | panic ↦ (panic, r.1)
        | hangs ↦ (hangs, r.1)
      ])
      e

module _ (env : Env) where
  pub call-failure :
      (c : Call) (h : History) (e : Error)
      → env.respond h c ≡ failure e
      → call env c h ≡ (err e, record { request = c; succeeded = false } ∷ h)
  unfolding call
  call-failure c h x e =
      ap
        (λ (r : Answer (Reply c)).
          let p : Outcome (Reply c) × History =
            (outcome_of r, record { request = c; succeeded = succeeds r } ∷ h) in
          p)
        e

  pub call-reply :
      (c : Call) (h : History) (a : Reply c)
      → env.respond h c ≡ reply a
      → call env c h ≡ (ok a, record { request = c; succeeded = true } ∷ h)
  unfolding call
  call-reply c h x e =
      ap
        (λ (r : Answer (Reply c)).
          let p : Outcome (Reply c) × History =
            (outcome_of r, record { request = c; succeeded = succeeds r } ∷ h) in
          p)
        e
