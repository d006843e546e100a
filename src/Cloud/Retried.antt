-- ===== src/Cloud/Retried.antt =====
-- What holds after a retry loop whose action makes one request and judges the answer.
use kubergrunt.Prelude.{ℕ, ◌∷◌, ◌≡◌, refl}
use kubergrunt.Cloud.Request.{Call, Reply, Answer, reply, failure, succeeds, History, Env}
use kubergrunt.Cloud.Monad.{M, ◌>>=◌, attempt, call, outcome_of}
use kubergrunt.Cloud.Retry.{Retry, RetryLaws, AfterTry}
use kubergrunt.Cloud.Triple.{Triple}

module _ (lib : Retry) (laws : RetryLaws lib) where
  -- The loop gives what its action gives when it succeeds, if a failed try takes nothing away.
  pub Triple-retry :
      (P Q : History → Type 0) (n sleep : ℕ) (action : M (Unit {0}))
      → ((h : History) → P h → AfterTry P Q (action h).0 (action h).1)
      → Triple P (lib.do_with_retry n sleep action) (λ _ h. Q h)
  Triple-retry P Q n sleep action step = record {
    at = laws.returns_with_action P Q n sleep action step;
  }

module _ (env : Env) where
  judged-AfterTry :
      (c : Call) (judge : Answer (Reply c) → M (Unit {0})) (P Q : History → Type 0) (h : History)
      (a : Answer (Reply c))
      → let after : History = record { request = c; succeeded = succeeds a } ∷ h in
        AfterTry P Q (judge a after).0 (judge a after).1
        → let m : M (Reply c) =
            (λ h. (outcome_of a, record { request = c; succeeded = succeeds a } ∷ h)) in
          let out = (attempt m >>= judge) h in AfterTry P Q out.0 out.1
  unfolding attempt ◌>>=◌
  judged-AfterTry c judge P Q h (reply a) k = k
  judged-AfterTry c judge P Q h (failure e) k = k

  -- One try: it is enough to look at each answer.
  pub try-AfterTry :
      (c : Call) (judge : Answer (Reply c) → M (Unit {0})) (P Q : History → Type 0)
      → ((h : History) (a : Answer (Reply c))
          → P h
          → env.respond h c ≡ a
          → let after : History = record { request = c; succeeded = succeeds a } ∷ h in
            AfterTry P Q (judge a after).0 (judge a after).1)
      → (h : History) → P h
      → let out = (attempt (call env c) >>= judge) h in AfterTry P Q out.0 out.1
  unfolding call attempt ◌>>=◌
  try-AfterTry c judge P Q k h p =
      judged-AfterTry c judge P Q h (env.respond h c) (k h (env.respond h c) p refl)
