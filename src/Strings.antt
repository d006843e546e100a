-- ===== src/Strings.antt =====
-- Go's strings package on byte strings: Split and Join at a separator of one byte, and maps with
-- string keys.
pub mod Split
pub mod Empty
pub mod Dict
pub mod Bytes
pub mod Contains
use kubergrunt.Prelude.{String, str_eq, Option, none, some, List, [], ◌∷◌, if◌then◌else◌}

module _ {V : Type 0} where
  -- `value, found := dict[key]`
  unfoldable pub lookup : String → List (String × V) → Option V
  lookup key [] = none
  lookup key (entry ∷ dict) = if str_eq key entry.0 then some entry.1 else lookup key dict

  -- `dict[key] = value`
  unfoldable pub insert : String → V → List (String × V) → List (String × V)
  insert key value [] = (key, value) ∷ []
  insert key value (entry ∷ dict) =
      let rest = insert key value dict in
      if str_eq key entry.0 then (key, value) ∷ dict else entry ∷ rest
