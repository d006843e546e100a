-- ===== src/Strings/Contains.antt =====
-- What strings.HasPrefix and strings.Contains find.
use kubergrunt.Prelude.{
  ℕ, true, Bool-cases, List, [], ◌∷◌, ◌++◌, ◌≡◌, refl, ap, inl, inr, ◌↔◌, arith,
}
use kubergrunt.Strings.Bytes.{has_prefix, contains}

-- The text has the other one somewhere in it.
abbrev pub Holds : List ℕ → List ℕ → Type 0
Holds s sub = (pre : List ℕ) × (post : List ℕ) × (s ≡ pre ++ (sub ++ post))

prefix-found : (s p : List ℕ) → has_prefix s p ≡ true → (post : List ℕ) × (s ≡ p ++ post)
unfolding has_prefix
prefix-found s [] e = (s, refl)
prefix-found [] (p ∷ ps) e = cc
prefix-found (c ∷ s) (p ∷ ps) e =
    let same : c ≡ p = ground arith in
    let (post, rest) = prefix-found s ps (ground arith) in (post, cc)

prefix-append : (p post : List ℕ) → has_prefix (p ++ post) p ≡ true
unfolding has_prefix
prefix-append [] post = refl
prefix-append (c ∷ p) post = ground (arith, prefix-append p post)

contains-found : (s sub : List ℕ) → contains s sub ≡ true → Holds s sub
unfolding contains
contains-found [] sub e = let (post, same) = prefix-found [] sub e in ([], post, same)
contains-found (c ∷ s) sub e = elim (Bool-cases (has_prefix (c ∷ s) sub)) [
  | inl here ↦ let (post, same) = prefix-found (c ∷ s) sub here in ([], post, same)
  | inr other ↦
      let (pre, post, rest) = contains-found s sub (ground arith) in
      (c ∷ pre, post, ap (λ l. c ∷ l) rest)
]

contains-prefix : (s sub : List ℕ) → has_prefix s sub ≡ true → contains s sub ≡ true
unfolding contains
contains-prefix [] sub e = e
contains-prefix (c ∷ s) sub e = ground arith

contains-append : (pre sub post : List ℕ) → contains (pre ++ (sub ++ post)) sub ≡ true
unfolding contains
contains-append [] sub post = contains-prefix (sub ++ post) sub (prefix-append sub post)
contains-append (c ∷ pre) sub post = ground (arith, contains-append pre sub post)

pub contains-Holds : (s sub : List ℕ) → (contains s sub ≡ true) ↔ Holds s sub
contains-Holds s sub = (contains-found s sub, λ (pre, post, e). rw e (contains-append pre sub post))
