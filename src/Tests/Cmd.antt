-- ===== src/Tests/Cmd.antt =====
-- The theorems on the commands, applied to command lines in the small cluster (cmd/).
use kubergrunt.Strings.Split.{split}
use kubergrunt.Cloud.Fallible.{◌>>=◌ as then_do}
use kubergrunt.Prelude.{
  String, str_eq, eq_iff, false, Bool-cases, some, [], ◌∷◌, ◌++◌, ◌≡◌, ◌≢◌, refl, inl, inr,
  if◌then◌else◌,
}
use kubergrunt.Strings.Dict.{find, text_eq}
use kubergrunt.Cloud.Failure.{Error, required_flag}
use kubergrunt.Cloud.Request.{Answer, reply, failure}
use kubergrunt.Cloud.Monad.{ok, call, pure, ◌>>=◌}
use kubergrunt.Cloud.Only.{Since}
use kubergrunt.Cmd.Cli.{Cli, CliLaws}
use kubergrunt.Cmd.Common.{
  parse_kubectl_options, config_options, config_path, kube_config_path_from_home_dir, parse_config,
  parse_without_server,
}
use kubergrunt.Cmd.Common.Parsed.{Parsed, parse_kubectl_options-Parsed}
use kubergrunt.Cloud.Types.{PkixName}
use kubergrunt.Cmd.Subject.{
  TlsSubjectInfo, tls_subject_info_flags, empty_subject_info, parse_tls_flags_to_pkix_name,
  distinguished_name, filled, get_string_from_encoding_or_empty, optional, override,
  parse_or_create_tls_subject_info, reconcile, required_unless,
}
use kubergrunt.Cmd.Subject.Named.{
  Named, parse_tls_flags_to_pkix_name-Named, parse_tls_flags_to_pkix_name-total,
}
use kubergrunt.Cmd.Eks.{drain_command, deploy_command}
use kubergrunt.Cmd.Eks.Refused.{OfHome, drain_command-refuses, deploy_command-refuses}
use kubergrunt.Cmd.Tags.{tag_args_to_map, key_of_parts}
use kubergrunt.Cmd.Tags.Last.{tag, tag_args_to_map-last}
use kubergrunt.Tests.World.{world, once}

-- The value that a flag is set to.
abbrev flags : String → String
flags name =
    if str_eq name "tls-common-name"
    then "web"
    else if str_eq name "tls-org"
    then "acme"
    else if str_eq name "tls-subject-json"
    then "{}"
    else ""

abbrev required : String → Answer String
required name = if str_eq (flags name) "" then failure (required_flag name) else reply (flags name)

-- A command line without a server, a cluster, a kubeconfig, or a group.
abbrev cli : Cli
cli = record {
  string_flag = flags;
  string_flag_required = required;
  string_slice = λ name. [];
  bool_flag = λ name. false;
  int_flag = λ name. 0;
  duration_flag = λ name. 0;
  args = [];
}

given_cli : (name : String) → flags name ≢ "" → required name ≡ reply (flags name)
given_cli name set = elim (Bool-cases (str_eq (flags name) "")) [
  | inl unset ↦ absurd (set ((eq_iff (flags name) "").0 unset))
  | inr full ↦ rw full refl
]

missing_cli : (name : String) → flags name ≡ "" → (e : Error) × (required name ≡ failure e)
missing_cli name unset = (required_flag name, rw ((eq_iff (flags name) "").1 unset) refl)

cli-CliLaws : CliLaws cli
cli-CliLaws = record { given = given_cli; missing = missing_cli }

-- A JSON object that gives a city.
abbrev read_subject : String → Answer TlsSubjectInfo
read_subject text = reply (record empty_subject_info { city_encoded_as_locality = some "Bern" })

parse_kubectl_options-Parsed_example :
    Parsed world cli (config_options "" "/root/.kube/config") (parse_kubectl_options world cli []).1
unfolding parse_kubectl_options parse_without_server parse_config ◌>>=◌ config_path
    kube_config_path_from_home_dir call pure
parse_kubectl_options-Parsed_example =
    parse_kubectl_options-Parsed world cli cli-CliLaws [] (config_options "" "/root/.kube/config")
      refl

abbrev web_name : PkixName
web_name = record {
  common_name = "web";
  organization = "acme" ∷ [];
  organizational_unit = [];
  locality = "Bern" ∷ [];
  province = [];
  country = [];
}

parse_tls_flags_to_pkix_name-Named_example : Named read_subject cli tls_subject_info_flags web_name
unfolding parse_tls_flags_to_pkix_name then_do parse_or_create_tls_subject_info required_unless
    reconcile get_string_from_encoding_or_empty distinguished_name filled optional override
parse_tls_flags_to_pkix_name-Named_example =
    parse_tls_flags_to_pkix_name-Named read_subject cli cli-CliLaws tls_subject_info_flags web_name
      refl

parse_tls_flags_to_pkix_name-total_example :
    (name : PkixName) × (parse_tls_flags_to_pkix_name read_subject cli tls_subject_info_flags
      ≡ reply name)
unfolding parse_or_create_tls_subject_info then_do reconcile get_string_from_encoding_or_empty
parse_tls_flags_to_pkix_name-total_example =
    parse_tls_flags_to_pkix_name-total read_subject cli cli-CliLaws tls_subject_info_flags
      (record empty_subject_info { city = "Bern"; city_encoded_as_locality = some "Bern" }) refl
      (inl (λ e. cc)) (inl (λ e. cc))

drain_command-refuses_example :
    ((drain_command world cli []).0 ≢ ok tt) × Since OfHome [] (drain_command world cli []).1
drain_command-refuses_example = drain_command-refuses world cli [] refl

deploy_command-refuses_example :
    ((deploy_command world once cli []).0 ≢ ok tt)
    × Since OfHome [] (deploy_command world once cli []).1
deploy_command-refuses_example = deploy_command-refuses world once cli [] (λ e. cc)

-- --secret-label a=1 --secret-label a=2=3 --secret-label b=4
tag_args_to_map-last_example :
    find (b'a' ∷ []) (
      tag_args_to_map (
        (tag (b'a' ∷ []) (b'1' ∷ []) ∷ [])
        ++ (tag (b'a' ∷ []) (b'2' ∷ b'=' ∷ b'3' ∷ []) ∷ tag (b'b' ∷ []) (b'4' ∷ []) ∷ [])))
    ≡ some (b'2' ∷ b'=' ∷ b'3' ∷ [])
unfolding text_eq key_of_parts split
tag_args_to_map-last_example =
    tag_args_to_map-last (b'a' ∷ []) (b'2' ∷ b'=' ∷ b'3' ∷ []) (tag (b'a' ∷ []) (b'1' ∷ []) ∷ [])
      (tag (b'b' ∷ []) (b'4' ∷ []) ∷ []) (refl, tt) (refl, tt)
