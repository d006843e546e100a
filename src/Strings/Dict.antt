-- ===== src/Strings/Dict.antt =====
-- Go maps from byte strings to byte strings.
use kubergrunt.Prelude.{
  ℕ, Bool, true, false, Option, none, some, List, [], ◌∷◌, ◌≡◌, refl, ap, subst, ◌==◌, ◌&&◌,
  if◌then◌else◌, arith, Bool-cases, inl, inr,
}

abbrev pub Text : Type 0
Text = List ℕ

unfoldable pub text_eq : Text → Text → Bool
text_eq [] [] = true
text_eq (a ∷ s) (b ∷ t) = (a == b) && text_eq s t
text_eq _ _ = false

pub text_eq_refl : (s : Text) → text_eq s s ≡ true
unfolding text_eq
text_eq_refl [] = refl
text_eq_refl (c ∷ s) = ground (arith, text_eq_refl s)

-- `value, found := dict[key]`
unfoldable pub find : Text → List (Text × Text) → Option Text
find key [] = none
find key (entry ∷ dict) = if text_eq key entry.0 then some entry.1 else find key dict

-- `dict[key] = value`
unfoldable pub put : Text → Text → List (Text × Text) → List (Text × Text)
put key value [] = (key, value) ∷ []
put key value (entry ∷ dict) =
    let rest = put key value dict in
    if text_eq key entry.0 then (key, value) ∷ dict else entry ∷ rest

pub find-put :
    (key value : Text) (dict : List (Text × Text)) → find key (put key value dict) ≡ some value
unfolding find put
find-put key value [] = rw (text_eq_refl key) refl
find-put key value (entry ∷ dict) = elim (Bool-cases (text_eq key entry.0)) [
  | inl same ↦ rw same (rw (text_eq_refl key) refl)
  | inr other ↦ rw other (rw other (find-put key value dict))
]

pub eq_of_text_eq : (s t : Text) → text_eq s t ≡ true → s ≡ t
unfolding text_eq
eq_of_text_eq [] [] e = refl
eq_of_text_eq [] (b ∷ t) e = cc
eq_of_text_eq (a ∷ s) [] e = cc
eq_of_text_eq (a ∷ s) (b ∷ t) e = ground (arith, eq_of_text_eq s t)

-- Another key keeps its value.
pub find-put_other :
    (key other value : Text) (dict : List (Text × Text))
    → text_eq other key ≡ false
    → find other (put key value dict) ≡ find other dict
unfolding find put
find-put_other key other value [] differ = rw differ refl
find-put_other key other value (entry ∷ dict) differ = elim (Bool-cases (text_eq key entry.0)) [
  | inl same ↦
      let apart : text_eq other entry.0 ≡ false =
        subst (λ k. text_eq other k ≡ false) (eq_of_text_eq key entry.0 same) differ in
      rw same (rw differ (rw apart refl))
  | inr apart ↦ rw apart (
      ap (λ (o : Option Text). if text_eq other entry.0 then some entry.1 else o)
        (find-put_other key other value dict differ))
]
