-- ===== src/Tests/Tls.antt =====
-- The theorem on the options of a certificate, applied to options for RSA (tls/options.go).
use kubergrunt.Prelude.{[], ◌∷◌, ◌≡◌, ◌↔◌, arith}
use kubergrunt.Cloud.Request.{reply}
use kubergrunt.Tls.Options.{TlsOptions, validate}
use kubergrunt.Tls.Options.Valid.{Valid, validate-Valid}
use kubergrunt.Tests.World.{world, world-FindsJust}

abbrev rsa_options : TlsOptions
rsa_options = record {
  distinguished_name = record {
    common_name = "web";
    organization = "acme" ∷ [];
    organizational_unit = [];
    locality = [];
    province = [];
    country = [];
  };
  validity_time_span = 86400000000000;
  private_key_algorithm = "RSA";
  rsa_bits = 4096;
  ecdsa_curve = "";
}

validate-Valid_example : (validate world rsa_options ≡ reply tt) ↔ Valid rsa_options
validate-Valid_example = validate-Valid world world-FindsJust rsa_options (omega arith)
