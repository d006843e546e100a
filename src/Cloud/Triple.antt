-- ===== src/Cloud/Triple.antt =====
-- What holds when code returns, if something holds when it starts. Nothing is said of a run that
-- fails, panics or never returns. One rule for each way to build code.
use kubergrunt.Prelude.{Bool, true, false, Option, none, some, ◌∷◌, ◌≡◌, refl, if◌then◌else◌}
use kubergrunt.Cloud.Failure.{Error}
use kubergrunt.Cloud.Request.{Call, Reply, Answer, reply, failure, succeeds, History, Env}
use kubergrunt.Cloud.Monad.{
  Outcome, ok, err, panic, hangs, M, pure, raise, lift, or_panic, ◌>>=◌, attempt, call, outcome_of,
}
use kubergrunt.Cloud.Yields.{IfOk, Yields}

pub record Triple {A : Type 0} (P : History → Type 0) (m : M A) (Q : A → History → Type 0)
    : Type 0 where
  pub at : (h : History) → P h → IfOk Q (m h).0 (m h).1

-- From what is yielded in any case.
pub Triple-yields :
    {A : Type 0} {P : History → Type 0} {Q : A → History → Type 0} (m : M A)
    → Yields m Q
    → Triple P m Q
Triple-yields m y = record { at = λ h p. y.at h }

-- And back, where nothing is asked for.
pub yields-Triple :
    {A : Type 0} {Q : A → History → Type 0} (m : M A) → Triple (λ _. Unit {0}) m Q → Yields m Q
yields-Triple m t = record { at = λ h. t.at h tt }

module _ {A : Type 0} {P : History → Type 0} {Q : A → History → Type 0} where
  pub Triple-pure : (a : A) → ((h : History) → P h → Q a h) → Triple P (pure a) Q
  unfolding pure
  Triple-pure a f = record { at = f }

  pub Triple-raise : (e : Error) → Triple P (raise e) Q
  unfolding raise
  Triple-raise e = record { at = λ h p. tt }

  pub Triple-lift :
      (r : Answer A) → ((a : A) → r ≡ reply a → (h : History) → P h → Q a h) → Triple P (lift r) Q
  unfolding lift
  Triple-lift (reply a) f = record { at = f a refl }
  Triple-lift (failure e) f = record { at = λ h p. tt }

  pub Triple-or_panic :
      (o : Option A)
      → ((a : A) → o ≡ some a → (h : History) → P h → Q a h)
      → Triple P (or_panic o) Q
  unfolding or_panic
  Triple-or_panic none f = record { at = λ h p. tt }
  Triple-or_panic (some a) f = record { at = f a refl }

  pub Triple-if :
      (b : Bool) (m n : M A)
      → (b ≡ true → Triple P m Q)
      → (b ≡ false → Triple P n Q)
      → Triple P (if b then m else n) Q
  Triple-if true m n f g = f refl
  Triple-if false m n f g = g refl

module _ {A B : Type 0} where
  after-IfOk :
      (Q : A → History → Type 0) (R : B → History → Type 0) (next : A → M B) (r : Outcome A)
      (h : History)
      → ((a : A) → Triple (Q a) (next a) R)
      → IfOk Q r h
      → let out = elim r as (λ _. Outcome B × History) [
        | ok a ↦ next a h
        | err e ↦ (err e, h)
        | panic ↦ (panic, h)
        | hangs ↦ (hangs, h)
      ] in
        IfOk R out.0 out.1
  after-IfOk Q R next (ok a) h rest q = (rest a).at h q
  after-IfOk Q R next (err e) h rest q = tt
  after-IfOk Q R next panic h rest q = tt
  after-IfOk Q R next hangs h rest q = tt

  -- One part after the other, with what holds between them.
  pub Triple-bind :
      {P : History → Type 0} (Q : A → History → Type 0) {R : B → History → Type 0} (m : M A)
      (next : A → M B)
      → Triple P m Q
      → ((a : A) → Triple (Q a) (next a) R)
      → Triple P (m >>= next) R
  unfolding ◌>>=◌
  Triple-bind Q {R} m next first rest = record {
    at = λ h p. after-IfOk Q R next (m h).0 (m h).1 rest (first.at h p);
  }

module _ (env : Env) where
  answered-IfOk :
      (c : Call) (Q : Reply c → History → Type 0) (h : History) (r : Answer (Reply c))
      → ((a : Reply c) → r ≡ reply a → Q a (record { request = c; succeeded = true } ∷ h))
      → IfOk Q (outcome_of r) (record { request = c; succeeded = succeeds r } ∷ h)
  answered-IfOk c Q h (reply a) q = q a refl
  answered-IfOk c Q h (failure e) q = tt

  pub Triple-call :
      (c : Call) {P : History → Type 0} {Q : Reply c → History → Type 0}
      → ((h : History) (a : Reply c)
          → P h
          → env.respond h c ≡ reply a
          → Q a (record { request = c; succeeded = true } ∷ h))
      → Triple P (call env c) Q
  unfolding call
  Triple-call c {Q} q = record {
    at = λ h p. answered-IfOk c Q h (env.respond h c) (λ a e. q h a p e);
  }

  tried-IfOk :
      (c : Call) (Q : Answer (Reply c) → History → Type 0) (h : History) (r : Answer (Reply c))
      → Q r (record { request = c; succeeded = succeeds r } ∷ h)
      → let h' : History = record { request = c; succeeded = succeeds r } ∷ h in
        let out = elim (outcome_of r) as (λ _. Outcome (Answer (Reply c)) × History) [
          | ok a ↦ (ok (reply a), h')
          | err e ↦ (ok (failure e), h')
          | panic ↦ (panic, h')
          | hangs ↦ (hangs, h')
        ] in
        IfOk Q out.0 out.1
  tried-IfOk c Q h (reply a) q = q
  tried-IfOk c Q h (failure e) q = q

  -- A request whose error the code looks at itself.
  pub Triple-try :
      (c : Call) {P : History → Type 0} {Q : Answer (Reply c) → History → Type 0}
      → ((h : History) (r : Answer (Reply c))
          → P h
          → env.respond h c ≡ r
          → Q r (record { request = c; succeeded = succeeds r } ∷ h))
      → Triple P (attempt (call env c)) Q
  unfolding call attempt
  Triple-try c {Q} q = record {
    at = λ h p. tried-IfOk c Q h (env.respond h c) (q h (env.respond h c) p refl);
  }

weaker-IfOk :
    {A : Type 0} (Q Q' : A → History → Type 0) (r : Outcome A) (h : History)
    → ((a : A) (h : History) → Q a h → Q' a h)
    → IfOk Q r h
    → IfOk Q' r h
weaker-IfOk Q Q' (ok a) h f q = f a h q
weaker-IfOk Q Q' (err e) h f q = tt
weaker-IfOk Q Q' panic h f q = tt
weaker-IfOk Q Q' hangs h f q = tt

pub Triple-weaken :
    {A : Type 0} {P P' : History → Type 0} {Q Q' : A → History → Type 0} (m : M A)
    → ((h : History) → P' h → P h)
    → ((a : A) (h : History) → Q a h → Q' a h)
    → Triple P m Q
    → Triple P' m Q'
Triple-weaken {Q} {Q'} m f g t = record {
  at = λ h p. weaker-IfOk Q Q' (m h).0 (m h).1 g (t.at h (f h p));
}

-- A fact that holds at the start, apart from the history.
pub Triple-assume :
    {A : Type 0} {P : History → Type 0} {Q : A → History → Type 0} {F : Type 0} (m : M A)
    → ((h : History) → P h → F)
    → (F → Triple P m Q)
    → Triple P m Q
Triple-assume m f t = record { at = λ h p. (t (f h p)).at h p }

-- A value of which something holds at the start.
pub Triple-some :
    {A B : Type 0} {P : B → History → Type 0} {Q : A → History → Type 0} (m : M A)
    → ((b : B) → Triple (P b) m Q)
    → Triple (λ h. (b : B) × P b h) m Q
Triple-some m t = record { at = λ h (b, p). (t b).at h p }
