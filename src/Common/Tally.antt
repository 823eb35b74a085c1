-- ===== src/Common/Tally.antt =====
-- The number of indices below a bound that pass a test.
use Prim.Native.Nat.{ℕ, zero, suc, ◌+◌, ◌≤◌, ◌<◌}
use mathlib.Core.Path.{◌≡◌, refl, ap, subst}
use mathlib.Core.Logic.{◌≢◌, inl, inr}
use mathlib.Core.Bool.{Bool, true, false}
use native.Mathlib.Omega.{arith}
use native.Mathlib.Decide.{ℕ_discrete}
use optimal_execution_platfo.Common.Tests.{Bool-cases}

abbrev pub one_if : Bool → ℕ
one_if true = 1
one_if false = 0

unfoldable pub tally : (ℕ → Bool) → ℕ → ℕ
tally f zero = 0
tally f (suc n) = tally f n + one_if (f n)

module _ (f g : ℕ → Bool) where
  pub tally_same : (n : ℕ) → ((j : ℕ) → j < n → f j ≡ g j) → tally f n ≡ tally g n
  unfolding tally
  tally_same zero h = refl
  tally_same (suc n) h =
      omega (arith, tally_same n (λ j lt. h j (omega arith)), ap one_if (h n (omega arith)))

  -- One more index that passes.
  pub tally_rise :
      (i n : ℕ)
      → i < n
      → f i ≡ false
      → g i ≡ true
      → ((j : ℕ) → i ≢ j → f j ≡ g j)
      → tally g n ≡ tally f n + 1
  unfolding tally
  tally_rise i zero h a b same = absurd (omega arith)
  tally_rise i (suc n) h a b same = elim (ℕ_discrete i n) [
    | yes e ↦
        let a' = subst (λ k. f k ≡ false) e a in
        let b' = subst (λ k. g k ≡ true) e b in
        omega (arith, tally_same n (λ j lt. same j (omega arith)), ap one_if a', ap one_if b')
    | no ne ↦ omega (arith, tally_rise i n (omega arith) a b same, ap one_if (same n ne))
  ]

module _ (f : ℕ → Bool) where
  pub tally-le : (n : ℕ) → tally f n ≤ n
  unfolding tally
  tally-le zero = omega arith
  tally-le (suc n) = ground (arith, tally-le n)

  pub tally_found : (n : ℕ) → 0 < tally f n → (i : ℕ) × (i < n) × (f i ≡ true)
  unfolding tally
  tally_found zero h = absurd (omega arith)
  tally_found (suc n) h = elim (Bool-cases (f n)) [
    | inl e ↦ (n, omega arith, e)
    | inr e ↦ let (i, lt, a) = tally_found n (omega (arith, ap one_if e)) in (i, omega arith, a)
  ]

  pub tally_pos : (i n : ℕ) → i < n → f i ≡ true → 1 ≤ tally f n
  unfolding tally
  tally_pos i zero h a = absurd (omega arith)
  tally_pos i (suc n) h a = elim (ℕ_discrete i n) [
    | yes e ↦ let b = subst (λ k. f k ≡ true) e a in omega (arith, ap one_if b)
    | no ne ↦ omega (arith, tally_pos i n (omega arith) a)
  ]
