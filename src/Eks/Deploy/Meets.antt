-- ===== src/Eks/Deploy/Meets.antt =====
-- Code that keeps the history sound: what it needs, and what holds when it returns.
use kubergrunt.Prelude.{Bool, true, false, Option, none, some, ◌≡◌, refl, if◌then◌else◌}
use kubergrunt.Cloud.Request.{Answer, reply, failure, History, Env}
use kubergrunt.Cloud.Monad.{Outcome, ok, err, panic, hangs, M, pure, lift, or_panic, ◌>>=◌, attempt}
use kubergrunt.Cloud.Quiet.{Extends, Quiet}
use kubergrunt.Eks.Deploy.Trace.{EnvLaws, Sound, Sound-Extends}

abbrev pub Post : {A : Type 0} → Env → (A → History → Type 0) → Outcome A → History → Type 0
Post env Q (ok a) h = Sound env h × Q a h
Post env Q (err _) h = Sound env h
Post env Q panic h = Sound env h
Post env Q hangs h = Sound env h

-- From a sound history in which `P` holds, the code makes only justified requests, and where it
-- returns, `Q` holds of the result.
pub record Meets {A : Type 0} (env : Env) (P : History → Type 0) (m : M A)
    (Q : A → History → Type 0) : Type 0 where
  pub at : (h : History) → Sound env h → P h → Post env Q (m h).0 (m h).1

module _ (env : Env) where
  module _ {A : Type 0} {P : History → Type 0} {Q : A → History → Type 0} where
    pub Meets-pure : (a : A) → ((h : History) → P h → Q a h) → Meets env P (pure a) Q
    unfolding pure
    Meets-pure a f = record { at = λ h s p. (s, f h p) }

    pub Meets-lift :
        (r : Answer A)
        → ((a : A) → r ≡ reply a → (h : History) → P h → Q a h)
        → Meets env P (lift r) Q
    unfolding lift
    Meets-lift (reply a) f = record { at = λ h s p. (s, f a refl h p) }
    Meets-lift (failure e) f = record { at = λ h s p. s }

    pub Meets-or_panic :
        (o : Option A)
        → ((a : A) → o ≡ some a → (h : History) → P h → Q a h)
        → Meets env P (or_panic o) Q
    unfolding or_panic
    Meets-or_panic none f = record { at = λ h s p. s }
    Meets-or_panic (some a) f = record { at = λ h s p. (s, f a refl h p) }

    pub Meets-if :
        (b : Bool) (m n : M A)
        → (b ≡ true → Meets env P m Q)
        → (b ≡ false → Meets env P n Q)
        → Meets env P (if b then m else n) Q
    Meets-if true m n f g = f refl
    Meets-if false m n f g = g refl

  module _ {A B : Type 0} {Q : A → History → Type 0} {R : B → History → Type 0} where
    bind-Post :
        (f : A → M B) (r : Outcome A) (h : History)
        → ((a : A) → Meets env (Q a) (f a) R)
        → Post env Q r h
        → let out = elim r as (λ _. Outcome B × History) [
          | ok a ↦ f a h
          | err e ↦ (err e, h)
          | panic ↦ (panic, h)
          | hangs ↦ (hangs, h)
        ] in
          Post env R out.0 out.1
    bind-Post f (ok a) h mf p = (mf a).at h p.0 p.1
    bind-Post f (err e) h mf p = p
    bind-Post f panic h mf p = p
    bind-Post f hangs h mf p = p

    pub Meets-bind :
        {P : History → Type 0} (m : M A) (f : A → M B)
        → Meets env P m Q
        → ((a : A) → Meets env (Q a) (f a) R)
        → Meets env P (m >>= f) R
    unfolding ◌>>=◌
    Meets-bind m f mm mf = record { at = λ h s p. bind-Post f (m h).0 (m h).1 mf (mm.at h s p) }

  module _ {A : Type 0} (P : History → Type 0) where
    attempt-Post :
        (r : Outcome A) (h : History)
        → Sound env h
        → P h
        → let out = elim r as (λ _. Outcome (Answer A) × History) [
          | ok a ↦ (ok (reply a), h)
          | err e ↦ (ok (failure e), h)
          | panic ↦ (panic, h)
          | hangs ↦ (hangs, h)
        ] in
          Post env (λ _. P) out.0 out.1
    attempt-Post (ok a) h s p = (s, p)
    attempt-Post (err e) h s p = (s, p)
    attempt-Post panic h s p = s
    attempt-Post hangs h s p = s

    quiet-Post : (r : Outcome A) (h : History) → Sound env h → P h → Post env (λ _. P) r h
    quiet-Post (ok a) h s p = (s, p)
    quiet-Post (err e) h s p = s
    quiet-Post panic h s p = s
    quiet-Post hangs h s p = s

  module _ {A : Type 0} {P : History → Type 0} where
    -- Quiet code keeps what only grows with the history.
    pub Meets-quiet :
        (laws : EnvLaws env) (m : M A)
        → Quiet m
        → ((h h' : History) → Extends h h' → P h → P h')
        → Meets env P m (λ _. P)
    Meets-quiet laws m q grows = record {
      at = λ h s p.
          quiet-Post P (m h).0 (m h).1 (Sound-Extends env laws (q.at h) s)
            (grows h (m h).1 (q.at h) p);
    }

    -- An attempt of code that keeps `P` whatever its outcome.
    pub Meets-attempt :
        (m : M A)
        → ((h : History) → Sound env h → P h → Sound env (m h).1 × P (m h).1)
        → Meets env P (attempt m) (λ _. P)
    unfolding attempt
    Meets-attempt m k = record {
      at = λ h s p. let (s', p') = k h s p in attempt-Post P (m h).0 (m h).1 s' p';
    }

  module _ {A : Type 0} where
    weaken-Post :
        (Q Q' : A → History → Type 0) (r : Outcome A) (h : History)
        → ((a : A) (h : History) → Q a h → Q' a h)
        → Post env Q r h
        → Post env Q' r h
    weaken-Post Q Q' (ok a) h f p = (p.0, f a h p.1)
    weaken-Post Q Q' (err e) h f p = p
    weaken-Post Q Q' panic h f p = p
    weaken-Post Q Q' hangs h f p = p

    pub Meets-weaken :
        {P P' : History → Type 0} {Q Q' : A → History → Type 0} (m : M A)
        → ((h : History) → P' h → P h)
        → ((a : A) (h : History) → Q a h → Q' a h)
        → Meets env P m Q
        → Meets env P' m Q'
    Meets-weaken {Q} {Q'} m f g k = record {
      at = λ h s p. weaken-Post Q Q' (m h).0 (m h).1 g (k.at h s (f h p));
    }

    -- A fact that `P` gives without the history may be used by the code's proof.
    pub Meets-assume :
        {P : History → Type 0} {Q : A → History → Type 0} {F : Type 0} (m : M A)
        → ((h : History) → P h → F)
        → (F → Meets env P m Q)
        → Meets env P m Q
    Meets-assume m f k = record { at = λ h s p. (k (f h p)).at h s p }
