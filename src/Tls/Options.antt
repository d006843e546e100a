-- ===== src/Tls/Options.antt =====
-- tls/options.go: the options for the generation of a certificate.
pub mod Valid
use kubergrunt.Prelude.{ℕ, String, str_eq, List, [], ◌∷◌, if◌then◌else◌}
use kubergrunt.Prelude.Words.{slt64}
use kubergrunt.Cloud.Types.{PkixName}
use kubergrunt.Cloud.Failure.{unknown_ecdsa_curve, rsa_bits_too_low, unknown_private_key_algorithm}
use kubergrunt.Cloud.Request.{Answer, reply, failure, Env}

abbrev pub ecdsa_algorithm : String
ecdsa_algorithm = "ECDSA"

abbrev pub rsa_algorithm : String
rsa_algorithm = "RSA"

abbrev pub minimum_rsa_bits : ℕ
minimum_rsa_bits = 2048

abbrev pub known_curves : List String
known_curves = "P224" ∷ "P256" ∷ "P384" ∷ "P521" ∷ []

-- Numbers are int64 patterns, the time span is in nanoseconds.
pub record TlsOptions : Type 0 where
  pub distinguished_name : PkixName
  pub validity_time_span : ℕ
  pub private_key_algorithm : String
  pub rsa_bits : ℕ
  pub ecdsa_curve : String

module _ (env : Env) where
  unfoldable pub validate_curve : String → Answer (Unit {0})
  validate_curve curve =
      if env.list_contains_element known_curves curve
      then reply tt
      else failure (unknown_ecdsa_curve curve)

  unfoldable pub validate_bits : ℕ → Answer (Unit {0})
  validate_bits bits =
      if slt64 bits minimum_rsa_bits then failure (rsa_bits_too_low bits) else reply tt

  unfoldable pub validate : TlsOptions → Answer (Unit {0})
  validate options =
      if str_eq options.private_key_algorithm ecdsa_algorithm
      then validate_curve options.ecdsa_curve
      else if str_eq options.private_key_algorithm rsa_algorithm
      then validate_bits options.rsa_bits
      else failure (unknown_private_key_algorithm options.private_key_algorithm)
