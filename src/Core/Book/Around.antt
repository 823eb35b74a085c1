-- ===== src/Core/Book/Around.antt =====
-- The levels of a side in the order of their prices, around one of them.
use optimal_execution_platfo.Common.{
  append_assoc, ℕ, zero, suc, ◌<◌, ◌≡◌, ap, ◌∙◌, List, [], ◌∷◌, ◌++◌, arith, ℕ_discrete,
}
use optimal_execution_platfo.Core.Order.{Side, buy, sell}
use optimal_execution_platfo.Core.Ladder.Scan.{Better}
use optimal_execution_platfo.Core.Book.Sweep.{upto, downto, best_first}

-- A property of every index of a list.
abbrev pub Each : (ℕ → Type 0) → List ℕ → Type 0
Each P [] = Unit
Each P (i ∷ is) = P i × Each P is

pub Each-map : (P Q : ℕ → Type 0) (is : List ℕ) → ((i : ℕ) → P i → Q i) → Each P is → Each Q is
Each-map P Q [] f e = tt
Each-map P Q (i ∷ is) f (e, es) = (f i e, Each-map P Q is f es)

Each-append : (P : ℕ → Type 0) (is js : List ℕ) → Each P is → Each P js → Each P (is ++ js)
Each-append P [] js a b = b
Each-append P (i ∷ is) js (e, es) b = (e, Each-append P is js es b)

upto-Each : (n : ℕ) → Each (λ j. j < n) (upto n)
upto-Each zero = tt
upto-Each (suc n) =
    Each-append (λ j. j < suc n) (upto n) (n ∷ [])
      (Each-map (λ j. j < n) (λ j. j < suc n) (upto n) (λ j h. omega arith) (upto-Each n))
      (omega arith, tt)

downto-Each : (n : ℕ) → Each (λ j. j < n) (downto n)
downto-Each zero = tt
downto-Each (suc n) = (
  omega arith,
  Each-map (λ j. j < n) (λ j. j < suc n) (downto n) (λ j h. omega arith) (downto-Each n),
)

-- The sweep order with one level singled out: what comes before is better, and what comes after worse.
abbrev pub Around : Side → ℕ → ℕ → Type 0
Around s n i =
    (is : List ℕ) × (js : List ℕ) × (best_first s n ≡ is ++ i ∷ js)
    × Each (λ j. (j < n) × Better s j i) is
    × Each (λ j. (j < n) × Better s i j) js

Around-buy : (n i : ℕ) → i < n → Around buy n i
Around-buy zero i h = absurd (omega arith)
Around-buy (suc n) i h = elim (ℕ_discrete n i) [
  | yes same ↦ (
    [],
    downto n,
    ap (λ k. k ∷ downto n) same,
    tt,
    Each-map (λ j. j < n) (λ j. (j < suc n) × (j < i)) (downto n)
        (λ j lt. (omega arith, omega arith)) (downto-Each n),
  )
  | no ne ↦
      let (is, js, e, before, behind) = Around-buy n i (omega arith) in
      (
        n ∷ is,
        js,
        ap (λ t. n ∷ t) e,
        (
          (omega arith, omega arith),
          Each-map (λ j. (j < n) × (i < j)) (λ j. (j < suc n) × (i < j)) is
              (λ j p. (omega (arith, p.0), p.1)) before,
        ),
        Each-map (λ j. (j < n) × (j < i)) (λ j. (j < suc n) × (j < i)) js
            (λ j p. (omega (arith, p.0), p.1)) behind,
      )
]

Around-sell : (n i : ℕ) → i < n → Around sell n i
Around-sell zero i h = absurd (omega arith)
Around-sell (suc n) i h = elim (ℕ_discrete n i) [
  | yes same ↦ (
    upto n,
    [],
    ap (λ k. upto n ++ k ∷ []) same,
    Each-map (λ j. j < n) (λ j. (j < suc n) × (j < i)) (upto n) (λ j lt. (omega arith, omega arith))
        (upto-Each n),
    tt,
  )
  | no ne ↦
      let (is, js, e, before, behind) = Around-sell n i (omega arith) in
      (
        is,
        js ++ n ∷ [],
        ap (λ t. t ++ n ∷ []) e ∙ append_assoc is (i ∷ js) (n ∷ []),
        Each-map (λ j. (j < n) × (j < i)) (λ j. (j < suc n) × (j < i)) is
            (λ j p. (omega (arith, p.0), p.1)) before,
        Each-append (λ j. (j < suc n) × (i < j)) js (n ∷ [])
            (Each-map (λ j. (j < n) × (i < j)) (λ j. (j < suc n) × (i < j)) js
              (λ j p. (omega (arith, p.0), p.1)) behind)
            ((omega arith, omega arith), tt),
      )
]

pub around : (s : Side) (n i : ℕ) → i < n → Around s n i
around buy n i h = Around-buy n i h
around sell n i h = Around-sell n i h

pub best_first-Each : (s : Side) (n : ℕ) → Each (λ j. j < n) (best_first s n)
best_first-Each buy n = downto-Each n
best_first-Each sell n = upto-Each n
