-- ===== src/Cmd/Cli.antt =====
-- The values of the flags of a command line: urfave/cli's Context, with go-commons'
-- entrypoint.StringFlagRequiredE.
use kubergrunt.Prelude.{ℕ, String, Bool, List, ◌≡◌, ◌≢◌}
use kubergrunt.Cloud.Failure.{Error}
use kubergrunt.Cloud.Request.{Answer, reply, failure}

-- Numbers are int patterns, durations are in nanoseconds.
pub record Cli : Type 0 where
  pub string_flag : String → String
  pub string_flag_required : String → Answer String
  pub string_slice : String → List String
  pub bool_flag : String → Bool
  pub int_flag : String → ℕ
  pub duration_flag : String → ℕ
  pub args : List String

-- StringFlagRequiredE returns the value of a flag that is set, and an error where it is not.
pub record CliLaws (cli : Cli) : Type 0 where
  pub given :
      (name : String)
      → cli.string_flag name ≢ ""
      → cli.string_flag_required name ≡ reply (cli.string_flag name)
  pub missing :
      (name : String)
      → cli.string_flag name ≡ ""
      → (e : Error) × (cli.string_flag_required name ≡ failure e)
