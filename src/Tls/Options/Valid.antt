-- ===== src/Tls/Options/Valid.antt =====
-- Which options Validate accepts (tls/options.go).
use kubergrunt.Prelude.{
  ℕ, ◌≤◌, ◌<◌, String, str_eq, eq_iff, true, false, Bool-cases, ◌≡◌, refl, sym, ◌∙◌, ◌↔◌, ◌⊎◌, inl,
  inr, arith, In,
}
use kubergrunt.Prelude.Words.{slt64, int64_mod, int64_sign}
use kubergrunt.Cloud.Failure.{Error}
use kubergrunt.Cloud.Collections.{FindsJust}
use kubergrunt.Cloud.Request.{Answer, reply, failure, Env}
use kubergrunt.Tls.Options.{
  ecdsa_algorithm, rsa_algorithm, minimum_rsa_bits, known_curves, TlsOptions, validate_curve,
  validate_bits, validate,
}

-- A known curve for ECDSA, or a key of at least 2048 bits for RSA; the size is not negative.
abbrev pub Valid : TlsOptions → Type 0
Valid options =
    ((options.private_key_algorithm ≡ "ECDSA") × In options.ecdsa_curve known_curves)
    ⊎ ((options.private_key_algorithm ≡ "RSA")
        × (2048 ≤ options.rsa_bits)
        × (options.rsa_bits < int64_sign))

apart : ◌≡◌ {A = String} "ECDSA" "RSA" → ⊥
apart e = let same = (eq_iff "ECDSA" "RSA").1 e in cc

no_value : {e : Error} → ◌≡◌ {A = Answer (Unit {0})} (failure e) (reply tt) → ⊥
no_value q = cc

large_enough :
    (bits : ℕ)
    → bits < int64_mod
    → slt64 bits minimum_rsa_bits ≡ false
    → (2048 ≤ bits) × (bits < int64_sign)
large_enough bits pattern e = (ground arith, ground arith)

not_small : (bits : ℕ) → 2048 ≤ bits → bits < int64_sign → slt64 bits minimum_rsa_bits ≡ false
not_small bits low high = ground arith

bits_lem :
    (env : Env) (bits : ℕ)
    → bits < int64_mod
    → (validate_bits env bits ≡ reply tt) ↔ ((2048 ≤ bits) × (bits < int64_sign))
unfolding validate_bits
bits_lem env bits pattern = (
  λ e. elim (Bool-cases (slt64 bits minimum_rsa_bits)) [
    | inl small ↦ absurd (no_value (rw small at e))
    | inr large ↦ large_enough bits pattern large
  ],
  λ (low, high). rw (not_small bits low high) refl,
)

curve_lem :
    (env : Env) (curve : String)
    → FindsJust env
    → (validate_curve env curve ≡ reply tt) ↔ In curve known_curves
unfolding validate_curve
curve_lem env curve finds = (
  λ e.
      (finds.finds_just known_curves curve).0
        (elim (Bool-cases (env.list_contains_element known_curves curve)) [
          | inl known ↦ known
          | inr unknown ↦ absurd (no_value (rw unknown at e))
        ]),
  λ known. rw ((finds.finds_just known_curves curve).1 known) refl,
)

module _ (env : Env) (finds : FindsJust env) where
  of_ecdsa :
      (options : TlsOptions)
      → options.rsa_bits < int64_mod
      → str_eq options.private_key_algorithm ecdsa_algorithm ≡ true
      → (validate env options ≡ reply tt) ↔ Valid options
  unfolding validate
  of_ecdsa options pattern ecdsa =
      let named = (eq_iff options.private_key_algorithm "ECDSA").0 ecdsa in
      let curve = curve_lem env options.ecdsa_curve finds in
      (
        λ e. inl (named, curve.0 (rw ecdsa at e)),
        λ v. rw ecdsa (curve.1 (elim v [ inl k ↦ k.1 | inr k ↦ absurd (apart (sym named ∙ k.0)) ])),
      )

  of_rsa :
      (options : TlsOptions)
      → options.rsa_bits < int64_mod
      → str_eq options.private_key_algorithm ecdsa_algorithm ≡ false
      → str_eq options.private_key_algorithm rsa_algorithm ≡ true
      → (validate env options ≡ reply tt) ↔ Valid options
  unfolding validate
  of_rsa options pattern not_ecdsa rsa =
      let named = (eq_iff options.private_key_algorithm "RSA").0 rsa in
      let bits = bits_lem env options.rsa_bits pattern in
      (
        λ e. let k = bits.0 (rw (not_ecdsa, rsa) at e) in inr (named, k.0, k.1),
        λ v.
            rw (not_ecdsa, rsa)
              (bits.1 (elim v [ inl k ↦ absurd (apart (sym k.0 ∙ named)) | inr k ↦ (k.1, k.2) ])),
      )

  of_neither :
      (options : TlsOptions)
      → str_eq options.private_key_algorithm ecdsa_algorithm ≡ false
      → str_eq options.private_key_algorithm rsa_algorithm ≡ false
      → (validate env options ≡ reply tt) ↔ Valid options
  unfolding validate
  of_neither options not_ecdsa not_rsa = (
    λ e. absurd (no_value (rw (not_ecdsa, not_rsa) at e)),
    λ v. elim v [
      | inl k ↦ let e = (eq_iff options.private_key_algorithm "ECDSA").1 k.0 in absurd cc
      | inr k ↦ let e = (eq_iff options.private_key_algorithm "RSA").1 k.0 in absurd cc
    ],
  )

  -- Validate returns no error just for options with a known curve for ECDSA, or with a key of at
  -- least 2048 bits for RSA, where the size is a pattern of 64 bits and not negative. This holds for
  -- a membership test of go-commons that finds just what is in the list.
  pub validate-Valid :
      (options : TlsOptions)
      → options.rsa_bits < int64_mod
      → (validate env options ≡ reply tt) ↔ Valid options
  unfolding validate
  validate-Valid options pattern =
      elim (Bool-cases (str_eq options.private_key_algorithm ecdsa_algorithm)) [
        | inl ecdsa ↦ of_ecdsa options pattern ecdsa
        | inr not_ecdsa ↦ elim (Bool-cases (str_eq options.private_key_algorithm rsa_algorithm)) [
          | inl rsa ↦ of_rsa options pattern not_ecdsa rsa
          | inr not_rsa ↦ of_neither options not_ecdsa not_rsa
        ]
      ]
