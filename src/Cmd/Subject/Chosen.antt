-- ===== src/Cmd/Subject/Chosen.antt =====
-- Which of two values stands in the distinguished name of a certificate (cmd/common.go).
use kubergrunt.Prelude.{
  String, str_eq, eq_iff, Bool-cases, List, [], ◌∷◌, ◌≡◌, ◌≢◌, refl, ◌⊎◌, inl, inr,
}
use kubergrunt.Strings.Empty.{test_of_nonempty, nonempty_of_false}
use kubergrunt.Cloud.Request.{Answer, reply}
use kubergrunt.Cmd.Cli.{Cli, CliLaws}
use kubergrunt.Cmd.Common.Parsed.{required-set}
use kubergrunt.Cmd.Subject.{TlsSubjectInfo, override, optional, required_unless}

-- The value is not empty; it is that of the flag, or that of the JSON where the flag is not given.
abbrev pub Chosen : String → String → String → Type 0
Chosen flag json value = (value ≢ "") × ((value ≡ flag) ⊎ ((flag ≡ "") × (value ≡ json)))

-- A field with the chosen value, or with none where neither is given.
abbrev pub Field : String → String → List String → Type 0
Field flag json values =
    ((values ≡ []) × (flag ≡ "") × (json ≡ ""))
    ⊎ ((value : String) × (values ≡ value ∷ []) × Chosen flag json value)

override-Chosen :
    (flag json : String) → (flag ≢ "") ⊎ (json ≢ "") → Chosen flag json (override flag json)
unfolding override
override-Chosen flag json some_given = elim (Bool-cases (str_eq flag "")) [
  | inl unset ↦
      let empty = (eq_iff flag "").0 unset in
      let full : json ≢ "" = elim some_given [ inl set ↦ absurd (set empty) | inr set ↦ set ] in
      rw unset (full, inr (empty, refl))
  | inr set ↦ rw set (nonempty_of_false flag set, inl refl)
]

pub optional-Field : (flag json : String) → Field flag json (optional (override flag json))
unfolding optional
optional-Field flag json = elim (Bool-cases (str_eq flag "")) [
  | inl unset ↦ elim (Bool-cases (str_eq json "")) [
    | inl empty ↦ inl (
      (unfold override in rw unset (rw empty refl)),
      (eq_iff flag "").0 unset,
      (eq_iff json "").0 empty,
    )
    | inr full ↦ chosen (inr (nonempty_of_false json full))
  ]
  | inr set ↦ chosen (inl (nonempty_of_false flag set))
]
  where
    chosen : (flag ≢ "") ⊎ (json ≢ "") → Field flag json (optional (override flag json))
    chosen given =
        let c = override-Chosen flag json given in
        inr (override flag json, rw (test_of_nonempty (override flag json) c.0) refl, c)

module _ (cli : Cli) (laws : CliLaws cli) where
  pub required-Chosen :
      (unmarshal : String → Answer TlsSubjectInfo) (json flag_name value : String)
      → required_unless unmarshal cli json flag_name ≡ reply value
      → Chosen (cli.string_flag flag_name) json (override value json)
  unfolding required_unless
  required-Chosen unmarshal json flag_name value e = elim (Bool-cases (str_eq json "")) [
    | inl empty ↦
        let (full, same) = required-set cli laws flag_name value (rw empty at e) in
        rw same (override-Chosen _ json (inl full))
    | inr full ↦
        let given : reply (cli.string_flag flag_name) ≡ reply value = rw full at e in
        let same : value ≡ cli.string_flag flag_name = cc in
        rw same (override-Chosen _ json (inr (nonempty_of_false json full)))
  ]

  pub required-total :
      (unmarshal : String → Answer TlsSubjectInfo) (json flag_name : String)
      → (cli.string_flag flag_name ≢ "") ⊎ (json ≢ "")
      → (value : String) × (required_unless unmarshal cli json flag_name ≡ reply value)
  unfolding required_unless
  required-total unmarshal json flag_name (inr full) =
      (cli.string_flag flag_name, rw (test_of_nonempty json full) refl)
  required-total unmarshal json flag_name (inl full) = (
    cli.string_flag flag_name,
    rw (laws.given flag_name full)
        (elim (Bool-cases (str_eq json "")) [ inl e ↦ rw e refl | inr e ↦ rw e refl ]),
  )
