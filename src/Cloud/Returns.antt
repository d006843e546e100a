-- ===== src/Cloud/Returns.antt =====
-- Code that always returns: it never fails, panics or hangs. One rule for each way to build code.
use kubergrunt.Prelude.{◌≡◌, refl, ◌∷◌}
use kubergrunt.Cloud.Request.{Call, Reply, Answer, reply, failure, succeeds, History, Env}
use kubergrunt.Cloud.Monad.{
  Outcome, ok, err, panic, hangs, M, pure, ◌>>=◌, attempt, call, outcome_of,
}

-- The outcome is a value, of which `Q` holds.
abbrev pub Always : {A : Type 0} → (A → History → Type 0) → Outcome A → History → Type 0
Always Q (ok a) h = Q a h
Always Q (err _) h = ⊥
Always Q panic h = ⊥
Always Q hangs h = ⊥

pub record Returns {A : Type 0} (P : History → Type 0) (m : M A) (Q : A → History → Type 0)
    : Type 0 where
  pub at : (h : History) → P h → Always Q (m h).0 (m h).1

pub Returns-pure :
    {A : Type 0} {P : History → Type 0} {Q : A → History → Type 0} (a : A)
    → ((h : History) → P h → Q a h)
    → Returns P (pure a) Q
unfolding pure
Returns-pure a f = record { at = f }

module _ {A B : Type 0} {Q : A → History → Type 0} {R : B → History → Type 0} where
  bind-Always :
      (f : A → M B) (r : Outcome A) (h : History)
      → ((a : A) → Returns (Q a) (f a) R)
      → Always Q r h
      → let out = elim r as (λ _. Outcome B × History) [
        | ok a ↦ f a h
        | err e ↦ (err e, h)
        | panic ↦ (panic, h)
        | hangs ↦ (hangs, h)
      ] in
        Always R out.0 out.1
  bind-Always f (ok a) h rf q = (rf a).at h q
  bind-Always f (err e) h rf q = absurd q
  bind-Always f panic h rf q = absurd q
  bind-Always f hangs h rf q = absurd q

  pub Returns-bind :
      {P : History → Type 0} (m : M A) (f : A → M B)
      → Returns P m Q
      → ((a : A) → Returns (Q a) (f a) R)
      → Returns P (m >>= f) R
  unfolding ◌>>=◌
  Returns-bind m f rm rf = record { at = λ h p. bind-Always f (m h).0 (m h).1 rf (rm.at h p) }

module _ (env : Env) where
  tried-Always :
      (c : Call) (Q : Answer (Reply c) → History → Type 0) (h : History) (r : Answer (Reply c))
      → Q r (record { request = c; succeeded = succeeds r } ∷ h)
      → let h' : History = record { request = c; succeeded = succeeds r } ∷ h in
        let out = elim (outcome_of r) as (λ _. Outcome (Answer (Reply c)) × History) [
          | ok a ↦ (ok (reply a), h')
          | err e ↦ (ok (failure e), h')
          | panic ↦ (panic, h')
          | hangs ↦ (hangs, h')
        ] in
        Always Q out.0 out.1
  tried-Always c Q h (reply a) q = q
  tried-Always c Q h (failure e) q = q

  -- A request whose error is looked at always returns.
  pub Returns-try :
      {P : History → Type 0} (c : Call) {Q : Answer (Reply c) → History → Type 0}
      → ((h : History) (r : Answer (Reply c))
          → P h
          → env.respond h c ≡ r
          → Q r (record { request = c; succeeded = succeeds r } ∷ h))
      → Returns P (attempt (call env c)) Q
  unfolding call attempt
  Returns-try c {Q} q = record {
    at = λ h p. tried-Always c Q h (env.respond h c) (q h (env.respond h c) p refl);
  }

Always-weaken :
    {A : Type 0} (Q Q' : A → History → Type 0) (r : Outcome A) (h : History)
    → ((a : A) (h : History) → Q a h → Q' a h)
    → Always Q r h
    → Always Q' r h
Always-weaken Q Q' (ok a) h f q = f a h q
Always-weaken Q Q' (err e) h f q = q
Always-weaken Q Q' panic h f q = q
Always-weaken Q Q' hangs h f q = q

pub Returns-weaken :
    {A : Type 0} {P P' : History → Type 0} {Q Q' : A → History → Type 0} (m : M A)
    → ((h : History) → P' h → P h)
    → ((a : A) (h : History) → Q a h → Q' a h)
    → Returns P m Q
    → Returns P' m Q'
Returns-weaken {Q} {Q'} m f g k = record {
  at = λ h p. Always-weaken Q Q' (m h).0 (m h).1 g (k.at h (f h p));
}

-- A fact that `P` gives without the history.
pub Returns-assume :
    {A : Type 0} {P : History → Type 0} {Q : A → History → Type 0} {F : Type 0} (m : M A)
    → ((h : History) → P h → F)
    → (F → Returns P m Q)
    → Returns P m Q
Returns-assume m f k = record { at = λ h p. (k (f h p)).at h p }

-- What always returns has the outcome `ok`.
pub Always-ok :
    {A : Type 0} (Q : A → History → Type 0) (r : Outcome A) (h : History)
    → Always Q r h
    → (a : A) × (r ≡ ok a) × Q a h
Always-ok Q (ok a) h q = (a, refl, q)
Always-ok Q (err e) h q = absurd q
Always-ok Q panic h q = absurd q
Always-ok Q hangs h q = absurd q
