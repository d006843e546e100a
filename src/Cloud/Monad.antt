-- ===== src/Cloud/Monad.antt =====
-- Code that makes requests, and that can return, fail with an error, panic, or never return.
use kubergrunt.Prelude.{◌∷◌, Option, none, some}
use kubergrunt.Cloud.Failure.{Error}
use kubergrunt.Cloud.Request.{Call, Reply, Answer, reply, failure, succeeds, History, Env}

pub data Outcome (A : Type 0) : Type 0 where
  ok : A → Outcome A
  err : Error → Outcome A
  panic : Outcome A
  hangs : Outcome A

abbrev pub M : Type 0 → Type 0
M A = History → Outcome A × History

module _ {A : Type 0} where
  unfoldable pub pure : A → M A
  pure a h = (ok a, h)

  unfoldable pub raise : Error → M A
  raise e h = (err e, h)

  unfoldable pub crash : M A
  crash h = (panic, h)

  unfoldable pub hang : M A
  hang h = (hangs, h)

  -- A library function that can fail.
  unfoldable pub lift : Answer A → M A
  lift (reply a) h = (ok a, h)
  lift (failure e) h = (err e, h)

  -- `list[0]`
  unfoldable pub or_panic : Option A → M A
  or_panic none h = (panic, h)
  or_panic (some a) h = (ok a, h)

infixl 5 ◌>>=◌ ◌>>◌
unfoldable pub ◌>>=◌ : {A B : Type 0} → M A → (A → M B) → M B
◌>>=◌ m f h =
    let (r, h') = m h in
    elim r [ ok a ↦ f a h' | err e ↦ (err e, h') | panic ↦ (panic, h') | hangs ↦ (hangs, h') ]

abbrev pub ◌>>◌ : {A : Type 0} → M (Unit {0}) → M A → M A
first >> next = first >>= λ _. next

-- `r, err := m`, where the code goes on and looks at err itself.
unfoldable pub attempt : {A : Type 0} → M A → M (Answer A)
attempt m h =
    let (r, h') = m h in
    elim r [
      | ok a ↦ (ok (reply a), h')
      | err e ↦ (ok (failure e), h')
      | panic ↦ (panic, h')
      | hangs ↦ (hangs, h')
    ]

abbrev pub outcome_of : {A : Type 0} → Answer A → Outcome A
outcome_of (reply a) = ok a
outcome_of (failure e) = err e

module _ (env : Env) where
  -- Makes a request and notes it.
  unfoldable pub call : (c : Call) → M (Reply c)
  call c h =
      let a = env.respond h c in (outcome_of a, record { request = c; succeeded = succeeds a } ∷ h)
