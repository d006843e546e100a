-- ===== src/Prelude/Float/Bounds.antt =====
-- How far the roundings of Go's float64 are from the exact values.
use kubergrunt.Prelude.Tests.{ltb, Bool-cases}
use Prim.Native.Nat.{ℕ, zero, suc, ◌+◌, ◌*◌, ◌/◌, ◌%◌, ◌≤◌, ◌<◌}
use mathlib.Core.Path.{◌≡◌, refl, sym, ap, ◌∙◌, subst}
use mathlib.Core.Logic.{◌⊎◌, inl, inr}
use mathlib.Core.Bool.{true}
use native.Mathlib.Omega.{arith}
use native.Mathlib.Nat.{
  div-add-mod, mod-lt, mul-add, mul_assoc, mul-one, le_of_mul-le-mul_left, mul-pos, mul_right_comm,
}
use kubergrunt.Prelude.Float.{nearest, rounded_at}

-- The number is within a half of the quotient.
abbrev pub Near : ℕ → ℕ → ℕ → Type 0
Near num den q = (2 * (den * q) ≤ 2 * num + den) × (2 * num ≤ 2 * (den * q) + den)

-- The cases of the remainder.
of_low : (num den q r : ℕ) → den * q + r ≡ num → 2 * r ≤ den → Near num den q
of_low num den q r law low = (omega arith, omega arith)

of_high : (num den q r : ℕ) → den * q + r ≡ num → r < den → den ≤ 2 * r → Near num den (q + 1)
of_high num den q r law small high =
    let up : den * (q + 1) ≡ den * q + den =
      mul-add den q 1 ∙ ap (λ n. den * q + n) (mul-one den) in
    (omega (arith, up), omega (arith, up))

of_tie :
    (num den q r b : ℕ) → den * q + r ≡ num → r < den → 2 * r ≡ den → b < 2 → Near num den (q + b)
of_tie num den q r zero law small tie less =
    let same : q ≡ q + 0 = omega arith in
    subst (Near num den) same (of_low num den q r law (omega arith))
of_tie num den q r (suc zero) law small tie less = of_high num den q r law small (omega arith)
of_tie num den q r (suc (suc b)) law small tie less = absurd (omega arith)

nearest-Near : (num den : ℕ) → 0 < den → Near num den (nearest num den)
unfolding nearest
nearest-Near num den pos =
    let law = div-add-mod num den in
    let small : num % den < den = mod-lt num pos in
    elim (Bool-cases (ltb (2 * (num % den)) den)) [
      | inl low ↦ rw low (of_low num den (num / den) (num % den) law (ground arith))
      | inr not_low ↦ rw not_low (elim (Bool-cases (ltb den (2 * (num % den)))) [
        | inl high ↦ rw high (of_high num den (num / den) (num % den) law small (ground arith))
        | inr tie ↦ rw tie (
            of_tie num den (num / den) (num % den) (num / den % 2) law small (ground arith)
              (omega arith))
      ])
    ]

double : (c n : ℕ) → c * n + c * n ≡ c * (2 * n)
double c n = ap (λ m. m) (sym (mul-add c n n) ∙ ap (λ m. c * m) (omega arith))

doubles : (c a b : ℕ) → (c * a + c * a) + c * b ≡ c * (2 * a + b)
doubles c a b = ap (λ m. m + c * b) (double c a) ∙ sym (mul-add c (2 * a) b)

-- And so within a half of the quotient of both divided by a number.
pub nearest-scaled :
    (c a b num den : ℕ) → 0 < c → 0 < b → num ≡ c * a → den ≡ c * b → Near a b (nearest num den)
nearest-scaled c a b num den pos pos' e e' =
    let q : ℕ = nearest num den in
    let (low, high) = nearest-Near num den (subst (λ n. 0 < n) (sym e') (mul-pos pos pos')) in
    let whole : den * q ≡ c * (b * q) = ap (λ n. n * q) e' ∙ mul_assoc c b q in
    (
      le_of_mul-le-mul_left {k = c}
          (subst (λ n. n ≤ c * (2 * a + b)) (double c (b * q))
            (subst (λ n. c * (b * q) + c * (b * q) ≤ n) (doubles c a b)
              (omega (arith, whole, e, e', low))))
          pos,
      le_of_mul-le-mul_left {k = c}
          (subst (λ n. n ≤ c * (2 * (b * q) + b)) (double c a)
            (subst (λ n. c * a + c * a ≤ n) (doubles c (b * q) b)
              (omega (arith, whole, e, e', high))))
          pos,
    )

unfoldable pub pow2 : ℕ → ℕ
pow2 zero = 1
pow2 (suc d) = 2 * pow2 d

-- The step at which a quotient is rounded, a part of one, and fine enough.
pub record Step (one first num den result : ℕ) : Type 0 where
  pub step : ℕ
  pub parts : ℕ
  pub divides : step * parts ≡ one
  pub at_step : result ≡ step * nearest num (step * den)
  pub fine : (step ≡ first) ⊎ (step * den * 0x10000000000000 ≤ num)

coarser-Step :
    (one step num den result : ℕ)
    → step * den * 0x20000000000000 ≤ num
    → Step one (step * 2) num den result
    → Step one step num den result
coarser-Step one step num den result reached s = record {
  step = s.step;
  parts = s.parts;
  divides = s.divides;
  at_step = s.at_step;
  fine = elim s.fine [
    | inl same ↦ inr (
        subst (λ n. n * den * 0x10000000000000 ≤ num) (sym same)
          (subst (λ n. n * 0x10000000000000 ≤ num) (sym (mul_right_comm step 2 den)) (omega arith)))
    | inr fine ↦ inr fine
  ];
}

pub rounded_at-Step :
    (one doublings d step num den : ℕ)
    → d < doublings
    → step * pow2 d ≡ one
    → num < one * den * 0x20000000000000
    → Step one step num den (rounded_at doublings step num den)
unfolding rounded_at pow2
rounded_at-Step one zero d step num den less whole small = absurd (omega arith)
rounded_at-Step one (suc doublings) zero step num den less whole small =
    let step_one : step ≡ one = sym (mul-one step) ∙ whole in
    let stops : ltb num (step * den * 0x20000000000000) ≡ true =
      subst (λ o. ltb num (o * den * 0x20000000000000) ≡ true) (sym step_one) (ground arith) in
    rw stops record { step = step; parts = 1; divides = whole; at_step = refl; fine = inl refl }
rounded_at-Step one (suc doublings) (suc d) step num den less whole small =
    elim (Bool-cases (ltb num (step * den * 0x20000000000000))) [
      | inl stops ↦ rw stops record {
        step = step;
        parts = pow2 (suc d);
        divides = whole;
        at_step = refl;
        fine = inl refl;
      }
      | inr goes_on ↦ rw goes_on (
          coarser-Step one step num den _ (ground arith) (
            rounded_at-Step one doublings d (step * 2) num den (omega arith)
              (mul_assoc step 2 (pow2 d) ∙ whole) small))
    ]
