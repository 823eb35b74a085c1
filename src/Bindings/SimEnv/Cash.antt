-- ===== src/Bindings/SimEnv/Cash.antt =====
-- What the fills of a call bring stays within the signed 64-bit numbers.
use optimal_execution_platfo.Common.{
  zero, suc, ◌-◌, ℕ, ◌+◌, ◌*◌, ◌^◌, ◌<◌, ◌≤◌, ◌≡◌, refl, ap, ◌∙◌, inl, inr, arith, some, true, ltb,
  leb, List, [], ◌∷◌, ◌++◌, Bool-cases,
}
use native.Mathlib.Nat.{mul-le-mul_right}
use optimal_execution_platfo.Common.Int.{ℤ, pos, ◌+ℤ◌, fits_int64, +ℤ_parts, eq_of_parts}
use optimal_execution_platfo.Core.Order.{Side, Fill}
use optimal_execution_platfo.Core.Level.Segment.{Queue}
use optimal_execution_platfo.Core.Ladder.{Band, width}
use optimal_execution_platfo.Core.Ladder.Price.{price_at}
use optimal_execution_platfo.Core.Book.{is_past, opposite}
use optimal_execution_platfo.Core.Book.Place.{change}
use optimal_execution_platfo.Core.Book.Stock.{Orders}
use optimal_execution_platfo.Core.Book.Priority.{take_queue}
use optimal_execution_platfo.Core.Book.Sweep.{sweep}
use optimal_execution_platfo.Core.Book.Around.{Each}
use optimal_execution_platfo.External.Ipc.{signed}
use optimal_execution_platfo.Exec.Publisher.Held.{IsSmall}
use optimal_execution_platfo.Exec.Publisher.Published.{fills_total}
use optimal_execution_platfo.Bindings.SimEnv.{times_ℤ, fills_cash}

-- A price from 0 to 2^14 - 1.
abbrev IsLow : ℤ → Type 0
IsLow px = (n : ℕ) × (px ≡ pos n) × (n < 2 ^ 14)

abbrev pub AllLow : List Fill → Type 0
AllLow [] = Unit
AllLow (f ∷ fs) = IsLow f.price × AllLow fs

AllLow-append : (fs gs : List Fill) → AllLow fs → AllLow gs → AllLow (fs ++ gs)
AllLow-append [] gs a b = b
AllLow-append (f ∷ fs) gs (one, a) b = (one, AllLow-append fs gs a b)

price_at-IsLow : (band : Band) (i : ℕ) → IsSmall band → i < width band → IsLow (price_at band i)
price_at-IsLow band i (zero_min, narrow) h = (
  i,
  ap (λ m. m +ℤ pos i) zero_min
      ∙ eq_of_parts (pos 0 +ℤ pos i) (pos i) (omega (arith, +ℤ_parts (pos 0) (pos i))),
  omega arith,
)

take_queue-AllLow :
    (id : ℕ) (side : Side) (px : ℤ) (xs : Queue) (n : ℕ)
    → IsLow px
    → AllLow (take_queue id side px xs n).fills
take_queue-AllLow id side px [] n low = tt
take_queue-AllLow id side px ((p, r) ∷ xs) zero low = tt
take_queue-AllLow id side px ((p, r) ∷ xs) (suc n) low =
    let rest = take_queue-AllLow id side px xs (suc n - r.qty) low in
    elim (Bool-cases (leb r.qty (suc n))) [ inl e ↦ rw e (low, rest) | inr e ↦ rw e (low, tt) ]

-- The fills of a sweep have prices of the band.
pub sweep-AllLow :
    (id : ℕ) (side : Side) (price : ℤ) (band : Band) (is : List ℕ) (A : Orders) (n : ℕ)
    → IsSmall band
    → Each (λ j. j < width band) is
    → AllLow (sweep id side price band is A n).fills
sweep-AllLow id side price band [] A n small h = tt
sweep-AllLow id side price band (i ∷ is) A n small (hi, h) =
    let s = opposite side in
    let k = take_queue id side (price_at band i) (A s i) n in
    elim (Bool-cases (is_past side (price_at band i) price)) [
      | inl e ↦ rw e (sweep-AllLow id side price band is A n small h)
      | inr e ↦ rw e (
          AllLow-append k.fills
            (sweep id side price band is (change A s i k.queue) k.remaining).fills
            (take_queue-AllLow id side (price_at band i) (A s i) n (price_at-IsLow band i small hi))
            (sweep-AllLow id side price band is (change A s i k.queue) k.remaining small h))
    ]

-- A sum of two numbers that are not negative.
pub pos-sum : (a b : ℕ) → pos a +ℤ pos b ≡ pos (a + b)
pos-sum a b = eq_of_parts (pos a +ℤ pos b) (pos (a + b)) (omega (arith, +ℤ_parts (pos a) (pos b)))

-- No product and no sum leaves the signed 64-bit numbers.
pub fills_cash-IsCash :
    (fs : List Fill) (c : ℕ)
    → AllLow fs
    → c + 2 ^ 14 * fills_total fs < 2 ^ 63
    → (out : ℕ) × (fills_cash (pos c) fs ≡ some (pos out)) × (out ≤ c + 2 ^ 14 * fills_total fs)
unfolding fills_cash
fills_cash-IsCash [] c low h = (c, refl, omega arith)
fills_cash-IsCash (f ∷ fs) c ((n, priced, below), low) h =
    let q = f.qty in
    let le : n * q ≤ 2 ^ 14 * q = mul-le-mul_right q (omega arith) in
    let whole : signed q ≡ pos q =
      let small : ltb q (2 ^ 63) ≡ true = ground arith in rw small refl in
    let product : times_ℤ f.price (signed q) ≡ pos (n * q) = rw (priced, whole) refl in
    let first : fits_int64 (pos (n * q)) ≡ true = ground arith in
    let second : fits_int64 (pos (c + n * q)) ≡ true = ground arith in
    let (out, run, bound) = fills_cash-IsCash fs (c + n * q) low (omega arith) in
    (out, rw (product, first, pos-sum c (n * q), second) run, omega arith)
