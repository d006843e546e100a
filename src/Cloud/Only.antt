-- ===== src/Cloud/Only.antt =====
-- Code whose requests all meet a condition, whichever way it ends. One rule for each way to build
-- code.
use kubergrunt.Prelude.{Bool, true, false, ◌∷◌, ◌≡◌, refl, if◌then◌else◌}
use kubergrunt.Cloud.Failure.{Error}
use kubergrunt.Cloud.Request.{Call, Answer, reply, failure, succeeds, History, Env}
use kubergrunt.Cloud.Monad.{
  Outcome, ok, err, panic, hangs, M, pure, raise, lift, ◌>>=◌, attempt, call,
}

-- The later history is the earlier one after requests that meet the condition.
pub data Since (C : Call → Type 0) (h : History) : History → Type 0 where
  here : Since C h h
  later :
      {h' : History} (c : Call) (b : Bool)
      → C c
      → Since C h h'
      → Since C h (record { request = c; succeeded = b } ∷ h')

Since-trans :
    {C : Call → Type 0} {h h' h'' : History} → Since C h h' → Since C h' h'' → Since C h h''
Since-trans p here = p
Since-trans p (later c b q r) = later c b q (Since-trans p r)

pub record Only {A : Type 0} (C : Call → Type 0) (m : M A) : Type 0 where
  pub at : (h : History) → Since C h (m h).1

module _ {A : Type 0} {C : Call → Type 0} where
  pub Only-pure : (a : A) → Only C (pure a)
  unfolding pure
  Only-pure a = record { at = λ h. here }

  pub Only-raise : (e : Error) → Only C (raise {A = A} e)
  unfolding raise
  Only-raise e = record { at = λ h. here }

  pub Only-lift : (r : Answer A) → Only C (lift r)
  unfolding lift
  Only-lift (reply a) = record { at = λ h. here }
  Only-lift (failure e) = record { at = λ h. here }

  pub Only-if :
      (b : Bool) (m n : M A)
      → (b ≡ true → Only C m)
      → (b ≡ false → Only C n)
      → Only C (if b then m else n)
  Only-if true m n f g = f refl
  Only-if false m n f g = g refl

  outcome-Since :
      (h : History) (r : Outcome A) (h' : History)
      → Since C h h'
      → let out = elim r as (λ _. Outcome (Answer A) × History) [
        | ok a ↦ (ok (reply a), h')
        | err e ↦ (ok (failure e), h')
        | panic ↦ (panic, h')
        | hangs ↦ (hangs, h')
      ] in
        Since C h out.1
  outcome-Since h (ok a) h' s = s
  outcome-Since h (err e) h' s = s
  outcome-Since h panic h' s = s
  outcome-Since h hangs h' s = s

  pub Only-attempt : (m : M A) → Only C m → Only C (attempt m)
  unfolding attempt
  Only-attempt m o = record { at = λ h. outcome-Since h (m h).0 (m h).1 (o.at h) }

module _ {A B : Type 0} {C : Call → Type 0} where
  bound-Since :
      (f : A → M B) (h : History) (r : Outcome A) (h' : History)
      → ((a : A) → Only C (f a))
      → Since C h h'
      → let out = elim r as (λ _. Outcome B × History) [
        | ok a ↦ f a h'
        | err e ↦ (err e, h')
        | panic ↦ (panic, h')
        | hangs ↦ (hangs, h')
      ] in
        Since C h out.1
  bound-Since f h (ok a) h' rest s = Since-trans s ((rest a).at h')
  bound-Since f h (err e) h' rest s = s
  bound-Since f h panic h' rest s = s
  bound-Since f h hangs h' rest s = s

  pub Only-bind : (m : M A) (f : A → M B) → Only C m → ((a : A) → Only C (f a)) → Only C (m >>= f)
  unfolding ◌>>=◌
  Only-bind m f o rest = record { at = λ h. bound-Since f h (m h).0 (m h).1 rest (o.at h) }

pub Only-call : {C : Call → Type 0} (env : Env) (c : Call) → C c → Only C (call env c)
unfolding call
Only-call env c q = record { at = λ h. later c (succeeds (env.respond h c)) q here }
