-- ===== src/Cmd/Subject/Named.antt =====
-- The distinguished name that parseTLSFlagsToPkixName gives (cmd/common.go).
use kubergrunt.Prelude.{String, [], ◌∷◌, ◌≡◌, ◌≢◌, refl, ◌⊎◌}
use kubergrunt.Cloud.Request.{Answer, reply}
use kubergrunt.Cloud.Fallible.{◌>>=◌, Replies, Replies-bind, replied}
use kubergrunt.Cmd.Cli.{Cli, CliLaws}
use kubergrunt.Cloud.Types.{PkixName}
use kubergrunt.Cmd.Subject.{
  TlsSubjectInfo, TlsFlags, override, distinguished_name, filled, parse_or_create_tls_subject_info,
  parse_tls_flags_to_pkix_name,
}
use kubergrunt.Cmd.Subject.Chosen.{Chosen, Field, optional-Field, required-Chosen, required-total}

module _ (unmarshal : String → Answer TlsSubjectInfo) (cli : Cli) where
  -- The name has the values of the flags, and where a flag is not given those of the JSON.
  abbrev pub Named : TlsFlags → PkixName → Type 0
  Named flags name =
      (info : TlsSubjectInfo) × (parse_or_create_tls_subject_info unmarshal cli
          (cli.string_flag flags.subject_info_json_flag_name)
        ≡ reply info)
      × Chosen (cli.string_flag flags.common_name_flag_name) info.common_name name.common_name
      × ((org : String) × (name.organization ≡ org ∷ [])
          × Chosen (cli.string_flag flags.org_flag_name) info.org org)
      × Field (cli.string_flag flags.org_unit_flag_name) info.org_unit name.organizational_unit
      × Field (cli.string_flag flags.city_flag_name) info.city name.locality
      × Field (cli.string_flag flags.state_flag_name) info.state name.province
      × Field (cli.string_flag flags.country_flag_name) info.country name.country

  named :
      CliLaws cli
      → (flags : TlsFlags)
      → Replies (Named flags) (parse_tls_flags_to_pkix_name unmarshal cli flags)
  unfolding parse_tls_flags_to_pkix_name distinguished_name filled
  named laws flags = Replies-bind (Named flags) _ _ (λ info parsed.
      Replies-bind (Named flags) _ _ (λ cn common.
        Replies-bind (Named flags) _ _ (λ org organization. (
          info,
          parsed,
          required-Chosen cli laws unmarshal _ _ cn common,
          (override org info.org, refl, required-Chosen cli laws unmarshal _ _ org organization),
          optional-Field _ info.org_unit,
          optional-Field _ info.city,
          optional-Field _ info.state,
          optional-Field _ info.country,
        ))))

  -- When the flags give a distinguished name, its common name and its one organization are not
  -- empty. These and each other field have the value of the flag where that is given, and else that
  -- of the JSON; a field that is given by neither is left out. This holds where a required flag is
  -- accepted just when it is not empty, and with its value.
  pub parse_tls_flags_to_pkix_name-Named :
      CliLaws cli
      → (flags : TlsFlags) (name : PkixName)
      → parse_tls_flags_to_pkix_name unmarshal cli flags ≡ reply name
      → Named flags name
  parse_tls_flags_to_pkix_name-Named laws flags name e =
      replied (Named flags) _ name (named laws flags) e

  -- Where the JSON can be read, and the common name and the organization are each given by a flag or
  -- by the JSON, the flags give a distinguished name. This holds where a required flag is accepted
  -- just when it is not empty, and with its value.
  pub parse_tls_flags_to_pkix_name-total :
      CliLaws cli
      → (flags : TlsFlags) (info : TlsSubjectInfo)
      → parse_or_create_tls_subject_info unmarshal cli
          (cli.string_flag flags.subject_info_json_flag_name)
        ≡ reply info
      → (cli.string_flag flags.common_name_flag_name ≢ "") ⊎ (info.common_name ≢ "")
      → (cli.string_flag flags.org_flag_name ≢ "") ⊎ (info.org ≢ "")
      → (name : PkixName) × (parse_tls_flags_to_pkix_name unmarshal cli flags ≡ reply name)
  unfolding parse_tls_flags_to_pkix_name ◌>>=◌
  parse_tls_flags_to_pkix_name-total laws flags info parsed cn_given org_given =
      let (cn, common) =
        required-total cli laws unmarshal info.common_name flags.common_name_flag_name cn_given in
      let (org, organization) =
        required-total cli laws unmarshal info.org flags.org_flag_name org_given in
      (
        distinguished_name (filled cli flags info cn org),
        rw parsed (rw common (rw organization refl)),
      )
