-- ===== src/Strings/Empty.antt =====
-- The test of a string for the empty one.
use kubergrunt.Prelude.{String, str_eq, eq_iff, not, Bool, true, false, ◌≡◌, ◌≢◌, arith}

pub empty_of_test : (s : String) → not (str_eq s "") ≡ false → s ≡ ""
empty_of_test s h = (eq_iff s "").0 (not_false (str_eq s "") h)
  where
    not_false : (b : Bool) → not b ≡ false → b ≡ true
    not_false true h = cc
    not_false false h = cc

pub nonempty_of_test : (s : String) → not (str_eq s "") ≡ true → s ≢ ""
nonempty_of_test s h e = ground (arith, eq_iff s "")

pub nonempty_of_false : (s : String) → str_eq s "" ≡ false → s ≢ ""
nonempty_of_false s h e = ground (arith, eq_iff s "")

pub test_of_empty : (s : String) → s ≡ "" → str_eq s "" ≡ true
test_of_empty s h = (eq_iff s "").1 h

pub test_of_nonempty : (s : String) → s ≢ "" → str_eq s "" ≡ false
test_of_nonempty s h = ground (arith, eq_iff s "")
