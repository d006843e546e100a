-- ===== src/Cloud/Yields.antt =====
-- What holds when code returns a value; nothing is said of the other outcomes. One rule for each way
-- to build code.
use kubergrunt.Prelude.{
  Bool, true, false, Option, none, some, ◌∷◌, ◌≡◌, refl, sym, subst, if◌then◌else◌,
}
use kubergrunt.Cloud.Failure.{Error}
use kubergrunt.Cloud.Request.{Call, Reply, Answer, reply, failure, succeeds, History, Env}
use kubergrunt.Cloud.Monad.{
  Outcome, ok, err, panic, hangs, M, pure, raise, crash, hang, lift, or_panic, ◌>>=◌, call,
  outcome_of,
}

abbrev pub IfOk : {A : Type 0} → (A → History → Type 0) → Outcome A → History → Type 0
IfOk Q (ok a) h = Q a h
IfOk Q (err _) h = Unit
IfOk Q panic h = Unit
IfOk Q hangs h = Unit

pub record Yields {A : Type 0} (m : M A) (Q : A → History → Type 0) : Type 0 where
  pub at : (h : History) → IfOk Q (m h).0 (m h).1

module _ {A : Type 0} {Q : A → History → Type 0} where
  pub Yields-pure : (a : A) → ((h : History) → Q a h) → Yields (pure a) Q
  unfolding pure
  Yields-pure a f = record { at = f }

  pub Yields-raise : (e : Error) → Yields (raise e) Q
  unfolding raise
  Yields-raise e = record { at = λ h. tt }

  pub Yields-crash : Yields crash Q
  unfolding crash
  Yields-crash = record { at = λ h. tt }

  pub Yields-hang : Yields hang Q
  unfolding hang
  Yields-hang = record { at = λ h. tt }

  pub Yields-lift :
      (r : Answer A) → ((a : A) → r ≡ reply a → (h : History) → Q a h) → Yields (lift r) Q
  unfolding lift
  Yields-lift (reply a) f = record { at = f a refl }
  Yields-lift (failure e) f = record { at = λ h. tt }

  pub Yields-if :
      (b : Bool) (m n : M A)
      → (b ≡ true → Yields m Q)
      → (b ≡ false → Yields n Q)
      → Yields (if b then m else n) Q
  Yields-if true m n f g = f refl
  Yields-if false m n f g = g refl

-- The property at a run that has returned.
pub Yields-ok :
    {A : Type 0} {Q : A → History → Type 0} (m : M A) (h : History) {a : A}
    → Yields m Q
    → (m h).0 ≡ ok a
    → Q a (m h).1
Yields-ok {Q} m h y e = subst (λ r. IfOk Q r (m h).1) e (y.at h)

any-IfOk : {A : Type 0} (r : Outcome A) (h : History) → IfOk (λ _ _. Unit {0}) r h
any-IfOk (ok a) h = tt
any-IfOk (err e) h = tt
any-IfOk panic h = tt
any-IfOk hangs h = tt

pub Yields-any : {A : Type 0} (m : M A) → Yields m (λ _ _. Unit {0})
Yields-any m = record { at = λ h. any-IfOk (m h).0 (m h).1 }

module _ {A B : Type 0} {Q : A → History → Type 0} where
  bind-IfOk :
      (R : B → History → Type 0) (f : A → M B) (r : Outcome A) (h : History)
      → ((a : A) (h : History) → Q a h → IfOk R (f a h).0 (f a h).1)
      → IfOk Q r h
      → let out = elim r as (λ _. Outcome B × History) [
        | ok a ↦ f a h
        | err e ↦ (err e, h)
        | panic ↦ (panic, h)
        | hangs ↦ (hangs, h)
      ] in
        IfOk R out.0 out.1
  bind-IfOk R f (ok a) h rf q = rf a h q
  bind-IfOk R f (err e) h rf q = tt
  bind-IfOk R f panic h rf q = tt
  bind-IfOk R f hangs h rf q = tt

  -- The rest of the code may use what the first part has yielded.
  pub Yields-bind_at :
      {R : B → History → Type 0} (m : M A) (f : A → M B)
      → Yields m Q
      → ((a : A) (h : History) → Q a h → IfOk R (f a h).0 (f a h).1)
      → Yields (m >>= f) R
  unfolding ◌>>=◌
  Yields-bind_at {R} m f ym yf = record { at = λ h. bind-IfOk R f (m h).0 (m h).1 yf (ym.at h) }

module _ {A B : Type 0} {R : B → History → Type 0} where
  -- The rest of the code yields by itself.
  pub Yields-bind : (m : M A) (f : A → M B) → ((a : A) → Yields (f a) R) → Yields (m >>= f) R
  Yields-bind m f yf = Yields-bind_at m f (Yields-any m) (λ a h _. (yf a).at h)

module _ (env : Env) where
  called :
      (c : Call) (Q : Reply c → History → Type 0) (h : History) (r : Answer (Reply c))
      → ((a : Reply c) → r ≡ reply a → Q a (record { request = c; succeeded = true } ∷ h))
      → IfOk Q (outcome_of r) (record { request = c; succeeded = succeeds r } ∷ h)
  called c Q h (reply a) q = q a refl
  called c Q h (failure e) q = tt

  pub Yields-call :
      (c : Call) {Q : Reply c → History → Type 0}
      → ((h : History) (a : Reply c)
          → env.respond h c ≡ reply a
          → Q a (record { request = c; succeeded = true } ∷ h))
      → Yields (call env c) Q
  unfolding call
  Yields-call c {Q} q = record { at = λ h. called c Q h (env.respond h c) (q h) }

-- `list[0]` of a list that has an element.
pub Yields-found :
    {A B : Type 0} {R : B → History → Type 0} (o : Option A) (a : A) (f : A → M B)
    → o ≡ some a
    → Yields (f a) R
    → Yields (or_panic o >>= f) R
unfolding or_panic ◌>>=◌
Yields-found none a f e y = cc
Yields-found {R} (some b) a f e y = record {
  at = λ h. subst (λ x. IfOk R (f x h).0 (f x h).1) (sym (some_inj e)) (y.at h);
}
  where
    some_inj : {A : Type 0} {x y : A} → Option.some x ≡ some y → x ≡ y
    some_inj e = cc
