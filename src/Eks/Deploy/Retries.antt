-- ===== src/Eks/Deploy/Retries.antt =====
-- The default number of retries (eks/deploy.go, getDefaultMaxRetries).
use kubergrunt.Prelude.{
  ℕ, zero, suc, ◌+◌, ◌*◌, ◌/◌, ◌≤◌, ◌<◌, ◌≡◌, refl, sym, ap, ◌∙◌, subst, true, ltb, ◌⊎◌, inl, inr,
  arith,
}
use native.Mathlib.Nat.{
  mul_assoc, mul_left_comm, mul_right_comm, add-mul, mul-add, zero-mul, one-mul, mul-le-mul_left,
  mul-le-mul_right, le_of_mul-le-mul_left, div-mul-le_self, lt-div-mul-add,
}
use kubergrunt.Prelude.Words.{int64_sign, mul64}
use kubergrunt.Prelude.Float.{one, nearest, float64, fdiv, ceil}
use kubergrunt.Prelude.Float.Bounds.{Near, nearest-scaled, pow2, rounded_at-Step}
use kubergrunt.Eks.Deploy.{num_waves, default_retries}

first_step : 1 * pow2 128 ≡ one
unfolding pow2
first_step = refl

some_step : (step parts : ℕ) → step * parts ≡ one → 0 < step
some_step zero parts whole = absurd (omega (arith, zero-mul parts))
some_step (suc step) parts whole = omega arith

-- A whole number is a number of steps.
steps_of : (n step parts : ℕ) → step * parts ≡ one → n * one ≡ step * (n * parts)
steps_of n step parts whole = ap (λ u. n * u) (sym whole) ∙ mul_left_comm n step parts

-- Whole numbers below 2^53 are exact.
float64-exact : (n : ℕ) → n < 0x20000000000000 → float64 n ≡ n * one
unfolding float64
float64-exact n small =
    let s = rounded_at-Step one 139 128 1 (n * one) 1 (omega arith) first_step (omega arith) in
    let near =
      nearest-scaled s.step (n * s.parts) 1 (n * one) (s.step * 1)
        (some_step s.step s.parts s.divides) (omega arith) (steps_of n s.step s.parts s.divides)
        refl in
    let q : ℕ = nearest (n * one) (s.step * 1) in
    let exact : q ≡ n * s.parts = omega arith in
    s.at_step ∙ ap (λ k. s.step * k) exact ∙ sym (steps_of n s.step s.parts s.divides)

-- The steps of a quotient by ten below 2^49 are less than a fifth of one.
fine_step :
    (n step parts : ℕ)
    → n < 0x2000000000000
    → step * parts ≡ one
    → (step ≡ 1) ⊎ (step * (10 * one) * 0x10000000000000 ≤ n * one * one)
    → 5 < parts
fine_step n step parts small whole (inl first) =
    let same : parts ≡ one = sym (one-mul parts) ∙ subst (λ k. k * parts ≡ one) first whole in
    omega arith
fine_step n step parts small whole (inr fine) =
    let linear : step * 45035996273704960 ≤ n * one = omega arith in
    let many : 45035996273704960 ≤ n * parts =
      le_of_mul-le-mul_left {k = step}
        (subst (λ u. step * 45035996273704960 ≤ u) (steps_of n step parts whole) linear)
        (some_step step parts whole) in
    let few : n * parts ≤ 0x2000000000000 * parts = mul-le-mul_right parts (omega arith) in
    omega arith

-- With ten steps of a quotient as near as they are to the number, its ceiling is exact.
ceil-steps :
    (n step parts q : ℕ)
    → step * parts ≡ one
    → 5 < parts
    → Near (n * parts) 10 q
    → ceil (step * q) ≡ (n + 9) / 10
unfolding ceil
ceil-steps n step parts q whole fine (low, high) =
    let w : ℕ = (n + 9) / 10 in
    let below : n * parts ≤ 10 * w * parts = mul-le-mul_right parts (omega arith) in
    let above : 10 * w * parts ≤ (n + 9) * parts = mul-le-mul_right parts (omega arith) in
    let bracket = mul_assoc 10 w parts in
    let split = add-mul n 9 parts in
    let up : step * q ≤ step * (w * parts) = mul-le-mul_left step (omega arith) in
    let down : step * (w * parts + 1) ≤ step * (q + parts) = mul-le-mul_left step (omega arith) in
    let pos = some_step step parts whole in
    omega (
      arith,
      up,
      down,
      mul-add step (w * parts) 1,
      mul-add step q parts,
      whole,
      pos,
      steps_of w step parts whole,
    )

-- Below 2^49 the waves hold all the instances, and one wave fewer would not.
num_waves-exact : (n : ℕ) → n < 0x2000000000000 → num_waves n ≡ (n + 9) / 10
unfolding num_waves fdiv
num_waves-exact n small =
    let s =
      rounded_at-Step one 139 128 1 (n * one * one) (10 * one) (omega arith) first_step
        (omega arith) in
    let pos = some_step s.step s.parts s.divides in
    let near =
      nearest-scaled (s.step * one) (n * s.parts) 10 (n * one * one) (s.step * (10 * one))
        (omega arith) (omega arith)
        (ap (λ k. k * one) (steps_of n s.step s.parts s.divides)
          ∙ sym (mul_right_comm s.step one (n * s.parts)))
        (omega arith) in
    let not_negative : ltb n int64_sign ≡ true = ground arith in
    rw (not_negative, float64-exact n (omega arith), float64-exact 10 (omega arith))
      (ap ceil s.at_step
        ∙ ceil-steps n s.step s.parts _ s.divides
            (fine_step n s.step s.parts small s.divides s.fine) near)

-- For fewer than 2^49 instances and a sleep of at least a second, the default retries are as many
-- sleeps as fit into 600 seconds for each wave of ten instances, and not one fewer, where the waves
-- hold all the instances, and one wave fewer would not: neither the roundings of float64 nor the
-- product in int64 change that.
pub default_retries_bounds :
    (scale_up_count sleep_seconds : ℕ)
    → scale_up_count < 0x2000000000000
    → 0 < sleep_seconds
    → let waves = num_waves scale_up_count in
      let retries = default_retries scale_up_count sleep_seconds in
      (retries * sleep_seconds ≤ waves * 600)
      × (waves * 600 < retries * sleep_seconds + sleep_seconds)
      × (scale_up_count ≤ waves * 10)
      × (waves * 10 < scale_up_count + 10)
unfolding default_retries
default_retries_bounds n s small some_sleep =
    let waves = num_waves-exact n small in
    let no_wrap : mul64 (num_waves n) 600 ≡ num_waves n * 600 = omega (arith, waves) in
    let not_negative : ltb (num_waves n * 600) int64_sign ≡ true = ground (arith, waves) in
    rw no_wrap (
      rw not_negative (
        div-mul-le_self (num_waves n * 600) s,
        lt-div-mul-add some_sleep,
        omega (arith, waves),
        omega (arith, waves),
      ))
