-- ===== src/Cloud/Retry.antt =====
-- retry.DoWithRetry of go-commons, which the program calls and does not implement. An action that
-- fails with `retry_fatal` stops it, any other failure is tried again.
use kubergrunt.Prelude.{ℕ, ◌≡◌}
use kubergrunt.Cloud.Failure.{Error, retry_fatal}
use kubergrunt.Cloud.Request.{History}
use kubergrunt.Cloud.Monad.{Outcome, M, ok, err, panic, hangs}
use kubergrunt.Cloud.Yields.{IfOk}

-- The number of retries, the sleep between them, and the action.
pub record Retry : Type 0 where
  pub do_with_retry : ℕ → ℕ → M (Unit {0}) → M (Unit {0})

-- After one run of the action: `Q` if it has succeeded, and still `P` if it may be tried again.
abbrev pub AfterTry : (P Q : History → Type 0) → Outcome (Unit {0}) → History → Type 0
AfterTry P Q (ok _) h = Q h
AfterTry P Q (err _) h = P h
AfterTry P Q panic h = Unit
AfterTry P Q hangs h = Unit

-- The documented behaviour: it makes no request but the action's, and a first try that succeeds ends
-- the loop, as does one with a fatal error; and it returns without an error only after a run of the
-- action that did.
pub record RetryLaws (lib : Retry) : Type 1 where
  pub stops_on_success :
      (n sleep : ℕ) (action : M (Unit {0})) (h h' : History)
      → action h ≡ (ok tt, h')
      → lib.do_with_retry n sleep action h ≡ (ok tt, h')
  pub stops_on_fatal :
      (n sleep : ℕ) (action : M (Unit {0})) (h h' : History) (e : Error)
      → action h ≡ (err (retry_fatal e), h')
      → lib.do_with_retry n sleep action h ≡ (err (retry_fatal e), h')
  pub only_runs_action :
      (R : History → History → Type 0)
      → ((h : History) → R h h)
      → ((h h' h'' : History) → R h h' → R h' h'' → R h h'')
      → (n sleep : ℕ) (action : M (Unit {0})) → ((h : History) → R h (action h).1)
      → (h : History) → R h (lib.do_with_retry n sleep action h).1
  pub returns_with_action :
      (P Q : History → Type 0) (n sleep : ℕ) (action : M (Unit {0}))
      → ((h : History) → P h → AfterTry P Q (action h).0 (action h).1)
      → (h : History) → P h
      → IfOk
          (λ _ h'. Q h')
          (lib.do_with_retry n sleep action h).0
          (lib.do_with_retry n sleep action h).1
