-- ===== src/Cmd/Subject.antt =====
-- cmd/common.go: the distinguished name of a certificate, from JSON and the flags of a command line.
pub mod Chosen
pub mod Named
use kubergrunt.Prelude.{String, str_eq, not, Option, none, some, List, [], ◌∷◌, if◌then◌else◌}
use kubergrunt.Cloud.Types.{PkixName}
use kubergrunt.Cloud.Request.{Answer, reply}
use kubergrunt.Cloud.Fallible.{◌>>=◌}
use kubergrunt.Cmd.Cli.{Cli}

-- TLSSubjectInfo
pub record TlsSubjectInfo : Type 0 where
  pub common_name : String
  pub country : String
  pub org : String
  pub org_unit : String
  pub city : String
  pub state : String
  pub org_encoded_as_org : Option String
  pub org_encoded_as_organization : Option String
  pub org_unit_encoded_as_org_unit : Option String
  pub org_unit_encoded_as_organizational_unit : Option String
  pub city_encoded_as_city : Option String
  pub city_encoded_as_locality : Option String
  pub state_encoded_as_state : Option String
  pub state_encoded_as_province : Option String

-- TLSFlags: the names of the flags.
pub record TlsFlags : Type 0 where
  pub subject_info_json_flag_name : String
  pub common_name_flag_name : String
  pub org_flag_name : String
  pub org_unit_flag_name : String
  pub city_flag_name : String
  pub state_flag_name : String
  pub country_flag_name : String

abbrev pub tls_subject_info_flags : TlsFlags
tls_subject_info_flags = record {
  subject_info_json_flag_name = "tls-subject-json";
  common_name_flag_name = "tls-common-name";
  org_flag_name = "tls-org";
  org_unit_flag_name = "tls-org-unit";
  city_flag_name = "tls-city";
  state_flag_name = "tls-state";
  country_flag_name = "tls-country";
}

abbrev pub empty_subject_info : TlsSubjectInfo
empty_subject_info = record {
  common_name = "";
  country = "";
  org = "";
  org_unit = "";
  city = "";
  state = "";
  org_encoded_as_org = none;
  org_encoded_as_organization = none;
  org_unit_encoded_as_org_unit = none;
  org_unit_encoded_as_organizational_unit = none;
  city_encoded_as_city = none;
  city_encoded_as_locality = none;
  state_encoded_as_state = none;
  state_encoded_as_province = none;
}

unfoldable pub get_string_from_encoding_or_empty : List (Option String) → String
get_string_from_encoding_or_empty [] = ""
get_string_from_encoding_or_empty (none ∷ encodings) = get_string_from_encoding_or_empty encodings
get_string_from_encoding_or_empty (some encoding ∷ encodings) =
    let rest = get_string_from_encoding_or_empty encodings in
    if not (str_eq encoding "") then encoding else rest

-- Reconciles the fields that have several names.
unfoldable pub reconcile : TlsSubjectInfo → TlsSubjectInfo
reconcile info = record info {
  org =
      get_string_from_encoding_or_empty
        (info.org_encoded_as_org ∷ info.org_encoded_as_organization ∷ []);
  org_unit =
      get_string_from_encoding_or_empty
        (info.org_unit_encoded_as_org_unit ∷ info.org_unit_encoded_as_organizational_unit ∷ []);
  city =
      get_string_from_encoding_or_empty
        (info.city_encoded_as_city ∷ info.city_encoded_as_locality ∷ []);
  state =
      get_string_from_encoding_or_empty
        (info.state_encoded_as_state ∷ info.state_encoded_as_province ∷ []);
}

-- A value of the command line goes before one of the JSON.
unfoldable pub override : String → String → String
override flag json = if not (str_eq flag "") then flag else json

-- A list of the one value, or of none where it is empty.
unfoldable pub optional : String → List String
optional value = if not (str_eq value "") then value ∷ [] else []

unfoldable pub distinguished_name : TlsSubjectInfo → PkixName
distinguished_name info = record {
  common_name = info.common_name;
  organization = info.org ∷ [];
  organizational_unit = optional info.org_unit;
  locality = optional info.city;
  province = optional info.state;
  country = optional info.country;
}

-- The JSON's values under those of the command line.
unfoldable pub filled : Cli → TlsFlags → TlsSubjectInfo → String → String → TlsSubjectInfo
filled cli flags info common_name org = record info {
  common_name = override common_name info.common_name;
  org = override org info.org;
  org_unit = override (cli.string_flag flags.org_unit_flag_name) info.org_unit;
  city = override (cli.string_flag flags.city_flag_name) info.city;
  state = override (cli.string_flag flags.state_flag_name) info.state;
  country = override (cli.string_flag flags.country_flag_name) info.country;
}

module _ (unmarshal : String → Answer TlsSubjectInfo) (cli : Cli) where
  unfoldable pub parse_or_create_tls_subject_info : String → Answer TlsSubjectInfo
  parse_or_create_tls_subject_info json_string = do
    info ← if not (str_eq json_string "") then unmarshal json_string else reply empty_subject_info
    reply (reconcile info)

  -- The value of a flag that may be missing only where the JSON has a value.
  unfoldable pub required_unless : String → String → Answer String
  required_unless json flag_name =
      if str_eq json ""
      then cli.string_flag_required flag_name
      else reply (cli.string_flag flag_name)

  unfoldable pub parse_tls_flags_to_pkix_name : TlsFlags → Answer PkixName
  parse_tls_flags_to_pkix_name flags = do
    info ← parse_or_create_tls_subject_info (cli.string_flag flags.subject_info_json_flag_name)
    common_name ← required_unless info.common_name flags.common_name_flag_name
    org ← required_unless info.org flags.org_flag_name
    reply (distinguished_name (filled cli flags info common_name org))
