-- ===== src/Cloud/Keeps.antt =====
-- A property of the history that code keeps when it returns. One rule for each way to build code.
use kubergrunt.Prelude.{◌∷◌}
use kubergrunt.Cloud.Request.{Call, Reply, Answer, reply, failure, succeeds, Event, History, Env}
use kubergrunt.Cloud.Monad.{Outcome, ok, err, panic, hangs, M, pure, lift, ◌>>=◌, call, outcome_of}
use kubergrunt.Cloud.Yields.{IfOk}

pub record Keeps {A : Type 0} (P : History → Type 0) (m : M A) : Type 0 where
  pub at : (h : History) → P h → IfOk (λ _ h'. P h') (m h).0 (m h).1

module _ {A : Type 0} {P : History → Type 0} where
  pub Keeps-pure : (a : A) → Keeps P (pure a)
  unfolding pure
  Keeps-pure a = record { at = λ h p. p }

  pub Keeps-lift : (r : Answer A) → Keeps P (lift r)
  unfolding lift
  Keeps-lift (reply a) = record { at = λ h p. p }
  Keeps-lift (failure e) = record { at = λ h p. tt }

-- Two properties of one outcome.
pub both-IfOk :
    {A : Type 0} (P : History → Type 0) (Q : A → History → Type 0) (r : Outcome A) (h : History)
    → IfOk Q r h
    → IfOk (λ _ h'. P h') r h
    → IfOk (λ a h'. Q a h' × P h') r h
both-IfOk P Q (ok a) h q p = (q, p)
both-IfOk P Q (err e) h q p = tt
both-IfOk P Q panic h q p = tt
both-IfOk P Q hangs h q p = tt

module _ {A B : Type 0} {P : History → Type 0} where
  bind-Keeps :
      (f : A → M B) (r : Outcome A) (h : History)
      → ((a : A) → Keeps P (f a))
      → IfOk (λ _ h'. P h') r h
      → let out = elim r as (λ _. Outcome B × History) [
        | ok a ↦ f a h
        | err e ↦ (err e, h)
        | panic ↦ (panic, h)
        | hangs ↦ (hangs, h)
      ] in
        IfOk (λ _ h'. P h') out.0 out.1
  bind-Keeps f (ok a) h kf p = (kf a).at h p
  bind-Keeps f (err e) h kf p = tt
  bind-Keeps f panic h kf p = tt
  bind-Keeps f hangs h kf p = tt

  -- Both parts keep it.
  pub Keeps-bind :
      (first : M A) (next : A → M B)
      → Keeps P first
      → ((x : A) → Keeps P (next x))
      → Keeps P (first >>= next)
  unfolding ◌>>=◌
  Keeps-bind first next kept rest = record {
    at = λ h p. bind-Keeps next (first h).0 (first h).1 rest (kept.at h p);
  }

module _ (env : Env) where
  called :
      (P : History → Type 0) (c : Call) (h : History) (r : Answer (Reply c))
      → P (record { request = c; succeeded = succeeds r } ∷ h)
      → IfOk (λ _ h'. P h') (outcome_of r) (record { request = c; succeeded = succeeds r } ∷ h)
  called P c h (reply a) p = p
  called P c h (failure e) p = tt

  -- A property that further requests do not end.
  pub Keeps-call :
      {P : History → Type 0} (c : Call)
      → ((e : Event) (h : History) → P h → P (e ∷ h))
      → Keeps P (call env c)
  unfolding call
  Keeps-call {P} c more = record { at = λ h p. called P c h (env.respond h c) (more _ h p) }
