-- ===== src/Strings/Bytes.antt =====
-- The bytes of an ASCII string, and Go's strings package on byte strings.
use Prim.Native.Char.{code}
use Prim.Native.String.{String, [] as end, ◌∷◌ as ◌◂◌}
use kubergrunt.Prelude.{
  ℕ, zero, suc, ◌-◌, Bool, true, false, List, [], ◌∷◌, ◌++◌, ◌==◌, ◌&&◌, ◌||◌, length,
  if◌then◌else◌,
}

abbrev pub bytes : String → List ℕ
bytes end = []
bytes (c ◂ s) = code c ∷ bytes s

-- strings.HasPrefix and strings.Contains
unfoldable pub has_prefix : List ℕ → List ℕ → Bool
has_prefix s [] = true
has_prefix [] (p ∷ ps) = false
has_prefix (c ∷ s) (p ∷ ps) = (c == p) && has_prefix s ps

unfoldable pub contains : List ℕ → List ℕ → Bool
unfolding has_prefix
contains [] sub = has_prefix [] sub
contains (c ∷ s) sub = has_prefix (c ∷ s) sub || contains s sub

-- strings.ReplaceAll with a string to replace that is not empty, where some bytes of an occurrence
-- are still to be skipped.
unfoldable pub replace_from : List ℕ → List ℕ → ℕ → List ℕ → List ℕ
replace_from old new skip [] = []
replace_from old new (suc skip) (c ∷ s) = replace_from old new skip s
replace_from old new zero (c ∷ s) =
    let found = has_prefix (c ∷ s) old in
    (if found then new else c ∷ []) ++ replace_from old new (if found then length old - 1 else 0) s

abbrev pub replace_all : List ℕ → List ℕ → List ℕ → List ℕ
replace_all s old new = replace_from old new 0 s
