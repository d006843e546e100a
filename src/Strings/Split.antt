-- ===== src/Strings/Split.antt =====
-- strings.Split and strings.Join at a separator of one byte.
use kubergrunt.Prelude.{
  ℕ, false, List, [], ◌∷◌, ◌++◌, ◌≡◌, ◌≢◌, refl, arith, ◌==◌, if◌then◌else◌, All,
}

-- Puts a byte in front of the first part.
unfoldable pub onto_head : ℕ → List (List ℕ) → List (List ℕ)
onto_head c [] = (c ∷ []) ∷ []
onto_head c (p ∷ ps) = (c ∷ p) ∷ ps

-- strings.Split(s, sep): the empty string has one part, the empty one.
unfoldable pub split : ℕ → List ℕ → List (List ℕ)
unfolding onto_head
split sep [] = [] ∷ []
split sep (c ∷ s) = let rest = split sep s in if c == sep then [] ∷ rest else onto_head c rest

-- strings.Join(parts, sep)
unfoldable pub join : ℕ → List (List ℕ) → List ℕ
join sep [] = []
join sep (p ∷ []) = p
join sep (p ∷ q ∷ ps) = p ++ (sep ∷ join sep (q ∷ ps))

-- The byte does not occur.
abbrev pub Lacks : ℕ → List ℕ → Type 0
Lacks sep = All (λ c. (c == sep) ≡ false)

-- A part that lacks the separator is the first part of what it begins.
pub split-append_sep :
    (sep : ℕ) (p s : List ℕ) → Lacks sep p → split sep (p ++ (sep ∷ s)) ≡ p ∷ split sep s
unfolding split
split-append_sep sep [] s h = ground arith
split-append_sep sep (c ∷ p) s h = ground (arith, split-append_sep sep p s h.1)

pub split-Lacks : (sep : ℕ) (p : List ℕ) → Lacks sep p → split sep p ≡ p ∷ []
unfolding split
split-Lacks sep [] h = refl
split-Lacks sep (c ∷ p) h = ground (arith, split-Lacks sep p h.1)

-- A split has at least one part.
pub split-ne-nil : (sep : ℕ) (s : List ℕ) → split sep s ≢ []
unfolding split
split-ne-nil sep [] h = cc
split-ne-nil sep (c ∷ s) h = ground (arith, split-ne-nil sep s)

join-nil_cons : (sep : ℕ) (ps : List (List ℕ)) → ps ≢ [] → join sep ([] ∷ ps) ≡ sep ∷ join sep ps
unfolding join
join-nil_cons sep [] h = absurd (h refl)
join-nil_cons sep (p ∷ ps) h = refl

join-onto_head :
    (sep c : ℕ) (ps : List (List ℕ)) → ps ≢ [] → join sep (onto_head c ps) ≡ c ∷ join sep ps
unfolding join onto_head
join-onto_head sep c [] h = absurd (h refl)
join-onto_head sep c (p ∷ []) h = refl
join-onto_head sep c (p ∷ q ∷ ps) h = refl

-- Joining the parts gives the string back.
pub join-split : (sep : ℕ) (s : List ℕ) → join sep (split sep s) ≡ s
unfolding split
join-split sep [] = unfold join in refl
join-split sep (c ∷ s) =
    let tail = split-ne-nil sep s in
    ground (
      arith,
      join-split sep s,
      join-nil_cons sep (split sep s) tail,
      join-onto_head sep c (split sep s) tail,
    )
