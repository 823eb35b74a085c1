-- ===== src/Common/Slots.antt =====
-- Lists of distinct indices below a bound.
use Prim.Native.Nat.{ℕ, zero, suc, ◌+◌, ◌≤◌, ◌<◌}
use mathlib.Core.Path.{◌≡◌, refl}
use mathlib.Core.Bool.{Bool, true, false, ◌||◌}
use mathlib.Core.List.{List, [], ◌∷◌}
use native.Mathlib.Omega.{arith}
use optimal_execution_platfo.Common.Tests.{◌==◌, if◌then◌else◌}
use optimal_execution_platfo.Common.Arrays.{length}

abbrev pub has : ℕ → List ℕ → Bool
has a [] = false
has a (x ∷ xs) = (a == x) || has a xs

infix 40 ◌∈◌ ◌∉◌
abbrev pub ◌∈◌ : ℕ → List ℕ → Type 0
a ∈ xs = has a xs ≡ true

abbrev pub ◌∉◌ : ℕ → List ℕ → Type 0
a ∉ xs = has a xs ≡ false

abbrev pub IsDistinct : List ℕ → Type 0
IsDistinct [] = Unit
IsDistinct (x ∷ xs) = (x ∉ xs) × IsDistinct xs

abbrev pub AllBelow : ℕ → List ℕ → Type 0
AllBelow n [] = Unit
AllBelow n (x ∷ xs) = (x < n) × AllBelow n xs

pub below_of_mem : (n a : ℕ) (xs : List ℕ) → AllBelow n xs → a ∈ xs → a < n
below_of_mem n a [] below h = cc
below_of_mem n a (x ∷ xs) below h = ground (arith, below_of_mem n a xs)

pub AllBelow-mono : (n m : ℕ) (xs : List ℕ) → n ≤ m → AllBelow n xs → AllBelow m xs
AllBelow-mono n m [] h below = tt
AllBelow-mono n m (x ∷ xs) h below = (omega arith, AllBelow-mono n m xs h below.1)

pub not-mem_of_below : (n a : ℕ) (xs : List ℕ) → AllBelow n xs → n ≤ a → a ∉ xs
not-mem_of_below n a [] below h = refl
not-mem_of_below n a (x ∷ xs) below h = ground (arith, not-mem_of_below n a xs)

without : ℕ → List ℕ → List ℕ
without a [] = []
without a (x ∷ xs) = if a == x then without a xs else x ∷ without a xs

module _ (a : ℕ) where
  without_absent : (xs : List ℕ) → a ∉ xs → without a xs ≡ xs
  unfolding without
  without_absent [] h = refl
  without_absent (x ∷ xs) h = ground (arith, without_absent xs)

  not-mem-without : (b : ℕ) (xs : List ℕ) → b ∉ xs → b ∉ without a xs
  unfolding without
  not-mem-without b [] h = refl
  not-mem-without b (x ∷ xs) h = ground (arith, not-mem-without b xs)

  length-without : (xs : List ℕ) → IsDistinct xs → length xs ≤ length (without a xs) + 1
  unfolding without
  length-without [] d = omega arith
  length-without (x ∷ xs) d = ground (arith, length-without xs, without_absent xs)

  IsDistinct-without : (xs : List ℕ) → IsDistinct xs → IsDistinct (without a xs)
  unfolding without
  IsDistinct-without [] d = tt
  IsDistinct-without (x ∷ xs) d = ground (arith, IsDistinct-without xs, not-mem-without x xs)

  AllBelow-without : (xs : List ℕ) → AllBelow (suc a) xs → AllBelow a (without a xs)
  unfolding without
  AllBelow-without [] h = tt
  AllBelow-without (x ∷ xs) h = ground (arith, AllBelow-without xs)

-- Distinct indices below `n` are at most `n`.
pub pigeonhole : (n : ℕ) (xs : List ℕ) → IsDistinct xs → AllBelow n xs → length xs ≤ n
pigeonhole zero [] d h = omega arith
pigeonhole zero (x ∷ xs) d h = absurd (omega arith)
pigeonhole (suc n) xs d h = omega (
  arith,
  length-without n xs d,
  pigeonhole n (without n xs) (IsDistinct-without n xs d) (AllBelow-without n xs h),
)
