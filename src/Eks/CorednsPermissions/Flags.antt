-- ===== src/Eks/CorednsPermissions/Flags.antt =====
-- What the rules of a role grant, and that the code finds it (eks/sync.go,
-- hasEndpointSlicesPermissions).
use kubergrunt.Prelude.{
  String, Bool, true, false, List, [], ◌∷◌, ◌≡◌, refl, ◌&&◌, ◌||◌, ◌⊎◌, ◌↔◌, inl, inr,
  if◌then◌else◌, In, All, arith,
}
use kubergrunt.Cloud.Types.{PolicyRule}
use kubergrunt.Cloud.Collections.{FindsJust}
use kubergrunt.Cloud.Request.{Env}
use kubergrunt.Eks.CorednsPermissions.{rule_grants, scan_rules}

-- The rule lets its holder use the verb on the endpoint slices of any name.
abbrev pub Grants : PolicyRule → String → Type 0
Grants rule verb =
    In "discovery.k8s.io" rule.api_groups
    × (In "endpointslices" rule.resources ⊎ In "*" rule.resources)
    × (In verb rule.verbs ⊎ In "*" rule.verbs)
    × (rule.resource_names ≡ [])

-- One of the rules does.
abbrev pub Granted : List PolicyRule → String → Type 0
Granted [] verb = ⊥
Granted (rule ∷ rules) verb = Grants rule verb ⊎ Granted rules verb

abbrev pub BothGranted : List PolicyRule → Type 0
BothGranted rules = Granted rules "list" × Granted rules "watch"

-- No rule is restricted to resources of some names.
abbrev pub Unrestricted : List PolicyRule → Type 0
Unrestricted = All (λ rule. rule.resource_names ≡ [])

both_tests :
    (a b b' c c' : Bool)
    → ((a && (b || b')) && (c || c')) ≡ true
      ↔ ((a ≡ true) × ((b ≡ true) ⊎ (b' ≡ true)) × ((c ≡ true) ⊎ (c' ≡ true)))
both_tests a b b' c c' = (λ e. ground arith, λ e. ground arith)

if_true : (g b : Bool) → ((if g then true else b) ≡ true) ↔ ((g ≡ true) ⊎ (b ≡ true))
if_true true b = (λ e. inl refl, λ e. refl)
if_true false b = (λ e. inr e, λ e. elim e [ inl never ↦ cc | inr e ↦ e ])

sums : {A B C D : Type 0} → (A → C) → (B → D) → (A ⊎ B) → (C ⊎ D)
sums f g (inl a) = inl (f a)
sums f g (inr b) = inr (g b)

module _ (env : Env) where
  -- One of the flags after the loop.
  pub flag : List PolicyRule → String → Bool → Bool
  flag [] verb b = b
  flag (rule ∷ rules) verb b = flag rules verb (if rule_grants env rule verb then true else b)

  pub scan-flags :
      (rules : List PolicyRule) (l w : Bool)
      → scan_rules env rules l w ≡ (flag rules "list" l, flag rules "watch" w)
  unfolding scan_rules flag
  scan-flags [] l w = refl
  scan-flags (rule ∷ rules) l w = scan-flags rules _ _

module _ (env : Env) (finds : FindsJust env) where
  rule_grants-Grants :
      (rule : PolicyRule) (verb : String)
      → rule.resource_names ≡ []
      → (rule_grants env rule verb ≡ true) ↔ Grants rule verb
  unfolding rule_grants
  rule_grants-Grants rule verb unnamed =
      let found = finds.finds_just in
      let tests =
        both_tests (env.list_contains_element rule.api_groups "discovery.k8s.io")
          (env.list_contains_element rule.resources "endpointslices")
          (env.list_contains_element rule.resources "*") (env.list_contains_element rule.verbs verb)
          (env.list_contains_element rule.verbs "*") in
      (
        λ e.
            let (group, resource, held) = tests.0 e in
            (
              (found rule.api_groups "discovery.k8s.io").0 group,
              sums (found rule.resources "endpointslices").0 (found rule.resources "*").0 resource,
              sums (found rule.verbs verb).0 (found rule.verbs "*").0 held,
              unnamed,
            ),
        λ (group, resource, held, _). tests.1 (
          (found rule.api_groups "discovery.k8s.io").1 group,
          sums (found rule.resources "endpointslices").1 (found rule.resources "*").1 resource,
          sums (found rule.verbs verb).1 (found rule.verbs "*").1 held,
        ),
      )

  flag-Granted :
      (rules : List PolicyRule) (verb : String) (b : Bool)
      → Unrestricted rules
      → (flag env rules verb b ≡ true) ↔ ((b ≡ true) ⊎ Granted rules verb)
  unfolding flag
  flag-Granted [] verb b free = (λ e. inl e, λ g. elim g [ inl e ↦ e | inr never ↦ absurd never ])
  flag-Granted (rule ∷ rules) verb b (unnamed, free) =
      let g : Bool = rule_grants env rule verb in
      let here = rule_grants-Grants rule verb unnamed in
      let later = flag-Granted rules verb (if g then true else b) free in
      (
        λ e. elim (later.0 e) [
          | inl set ↦ elim ((if_true g b).0 set) [
            | inl grants ↦ inr (inl (here.0 grants))
            | inr before ↦ inl before
          ]
          | inr granted ↦ inr (inr granted)
        ],
        λ e. elim e [
          | inl before ↦ later.1 (inl ((if_true g b).1 (inr before)))
          | inr granted ↦ elim granted [
            | inl grants ↦ later.1 (inl ((if_true g b).1 (inl (here.1 grants))))
            | inr rest ↦ later.1 (inr rest)
          ]
        ],
      )

  -- The flags of the whole loop, which both start as false.
  pub flags-Granted :
      (rules : List PolicyRule) (verb : String)
      → Unrestricted rules
      → (flag env rules verb false ≡ true) ↔ Granted rules verb
  flags-Granted rules verb free =
      let both = flag-Granted rules verb false free in
      (λ e. elim (both.0 e) [ inl never ↦ cc | inr g ↦ g ], λ g. both.1 (inr g))
