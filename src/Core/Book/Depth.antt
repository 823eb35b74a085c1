-- ===== src/Core/Book/Depth.antt =====
-- What `level_qty` and `level_order_count` read at any price, in the band or not.
use optimal_execution_platfo.Common.{
  ℕ, zero, suc, ◌+◌, ◌%◌, ◌^◌, ◌<◌, ◌≡◌, ◌≢◌, refl, sym, ap, ◌∙◌, inl, inr, arith, Option, true,
  false, if◌then◌else◌, u64_mod, List, [], ◌∷◌, length, subst, Bool-cases, ℕ_discrete,
}
use optimal_execution_platfo.Common.Int.{ℤ, eqb_ℤ, eq_of_parts}
use optimal_execution_platfo.Core.Order.{Side, Resting}
use optimal_execution_platfo.Core.Level.Segment.{Queue}
use optimal_execution_platfo.Core.Level.Queue.{total}
use optimal_execution_platfo.Core.Ladder.{Band, width, in_band, idx}
use optimal_execution_platfo.Core.Ladder.Price.{
  price_at, in_band-price_at, price_at-idx, idx-lt, eqb-price_at,
}
use optimal_execution_platfo.Core.Book.{Book, level_qty, level_order_count}
use optimal_execution_platfo.Core.Book.Stock.{Orders, IsEntry, All}
use optimal_execution_platfo.Core.Book.Invariant.{IsBook}

-- The sum of a measure over the orders of a queue that have this price.
abbrev pub priced : (Resting → ℕ) → ℤ → Queue → ℕ
priced w px [] = 0
priced w px ((p, r) ∷ xs) = (if eqb_ℤ r.price px then w r else 0) + priced w px xs

-- The sum over the first `n` levels.
abbrev pub sum_below : (ℕ → ℕ) → ℕ → ℕ
sum_below g zero = 0
sum_below g (suc n) = sum_below g n + g n

-- The sum of a measure over all resting orders of a side that have this price, wherever they are queued.
abbrev pub resting_at : Orders → Side → (n : ℕ) → (Resting → ℕ) → ℤ → ℕ
resting_at A s n w px = sum_below (λ i. priced w px (A s i)) n

sum_below-zero : (g : ℕ → ℕ) (n : ℕ) → ((i : ℕ) → i < n → g i ≡ 0) → sum_below g n ≡ 0
sum_below-zero g zero h = refl
sum_below-zero g (suc n) h =
    omega (arith, sum_below-zero g n (λ i lt. h i (omega arith)), h n (omega arith))

sum_below-one :
    (g : ℕ → ℕ) (n i : ℕ) → i < n → ((j : ℕ) → j < n → j ≢ i → g j ≡ 0) → sum_below g n ≡ g i
sum_below-one g zero i lt h = absurd (omega arith)
sum_below-one g (suc n) i lt h = elim (ℕ_discrete n i) [
  | yes e ↦
      let rest = sum_below-zero g n (λ j lt. h j (omega arith) (omega arith)) in
      let here : g n ≡ g i = ap g e in omega arith
  | no ne ↦
      let rest = sum_below-one g n i (omega arith) (λ j lt. h j (omega arith)) in
      let last = h n (omega arith) ne in omega arith
]

module _ (band : Band) (capacity : ℕ) (f : ℕ → Option ℕ) (side : Side) (i : ℕ) (px : ℤ) where
  -- The orders of a level have its price: a queue counts for that price and for no other.
  priced-total :
      (xs : Queue)
      → All (IsEntry band capacity f side i) xs
      → eqb_ℤ (price_at band i) px ≡ true
      → priced (λ r. r.qty) px xs ≡ total xs
  priced-total [] k e = refl
  priced-total ((p, r) ∷ xs) (one, k) e =
      let same : eqb_ℤ r.price px ≡ true = ap (λ q. eqb_ℤ q px) one.at_price ∙ e in
      rw same (ap (λ n. r.qty + n) (priced-total xs k e))

  priced-length :
      (xs : Queue)
      → All (IsEntry band capacity f side i) xs
      → eqb_ℤ (price_at band i) px ≡ true
      → priced (λ r. 1) px xs ≡ length xs
  priced-length [] k e = refl
  priced-length ((p, r) ∷ xs) (one, k) e =
      let same : eqb_ℤ r.price px ≡ true = ap (λ q. eqb_ℤ q px) one.at_price ∙ e in
      let rest = priced-length xs k e in rw same (omega arith)

  priced-zero :
      (w : Resting → ℕ) (xs : Queue)
      → All (IsEntry band capacity f side i) xs
      → eqb_ℤ (price_at band i) px ≡ false
      → priced w px xs ≡ 0
  priced-zero w [] k e = refl
  priced-zero w ((p, r) ∷ xs) (one, k) e =
      let other : eqb_ℤ r.price px ≡ false = ap (λ q. eqb_ℤ q px) one.at_price ∙ e in
      let rest = priced-zero w xs k e in rw other (omega arith)

module _ {b : Book} {A : Orders} {f : ℕ → Option ℕ} {free : List ℕ} (k : IsBook b A f free) where
  -- All orders with a price of the band are in the queue at its index.
  resting_at-here :
      (s : Side) (w : Resting → ℕ) (px : ℤ)
      → in_band b.band px ≡ true
      → resting_at A s (width b.band) w px ≡ priced w px (A s (idx b.band px))
  resting_at-here s w px inside =
      let i = idx b.band px in
      sum_below-one (λ i. priced w px (A s i)) (width b.band) i (idx-lt b.band px inside)
        (λ j hj ne.
          let other : eqb_ℤ (price_at b.band j) px ≡ false =
            ap (eqb_ℤ (price_at b.band j)) (sym (price_at-idx b.band px inside))
            ∙ eqb-price_at b.band j i
            ∙ ground arith in
          priced-zero b.band b.slab.capacity f s j px w (A s j) (k.stock.entries s j hj) other)

  -- No order has a price outside the band.
  resting_at-none :
      (s : Side) (w : Resting → ℕ) (px : ℤ)
      → in_band b.band px ≡ false
      → resting_at A s (width b.band) w px ≡ 0
  resting_at-none s w px outside =
      sum_below-zero (λ i. priced w px (A s i)) (width b.band)
        (λ j hj. elim (Bool-cases (eqb_ℤ (price_at b.band j) px)) [
          | inr other ↦
              priced-zero b.band b.slab.capacity f s j px w (A s j) (k.stock.entries s j hj) other
          | inl same ↦
              let e : price_at b.band j ≡ px = eq_of_parts (price_at b.band j) px (ground arith) in
              let inside = subst (λ q. in_band b.band q ≡ true) e (in_band-price_at b.band j hj) in
              absurd (cc (inside, outside))
        ])

  -- On a book that satisfies its invariant, `level_qty` of any price is the sum of the remaining quantities
  -- of all resting orders of the side that have this price, in a 64-bit word, and `level_order_count` is
  -- the number of these orders, in a 32-bit word; both are 0 for a price outside the band.
  pub level_qty-resting_at :
      (s : Side) (px : ℤ)
      → (level_qty b s px ≡ resting_at A s (width b.band) (λ r. r.qty) px % u64_mod)
        × (level_order_count b s px ≡ resting_at A s (width b.band) (λ r. 1) px % 2 ^ 32)
  unfolding level_qty level_order_count
  level_qty-resting_at s px = elim (Bool-cases (in_band b.band px)) [
    | inr outside ↦ (
      rw (outside, resting_at-none s (λ r. r.qty) px outside) (omega arith),
      rw (outside, resting_at-none s (λ r. 1) px outside) (omega arith),
    )
    | inl inside ↦
        let i = idx b.band px in
        let hi = idx-lt b.band px inside in
        let v = k.stock.queues s i hi in
        let entries = k.stock.entries s i hi in
        let here : eqb_ℤ (price_at b.band i) px ≡ true =
          ap (λ q. eqb_ℤ q px) (price_at-idx b.band px inside) ∙ ground arith in
        (
          rw inside (
              v.quantity
              ∙ ap (λ n. n % u64_mod)
                  (sym (
                    resting_at-here s (λ r. r.qty) px inside
                    ∙ priced-total b.band b.slab.capacity f s i px (A s i) entries here))),
          rw inside (
              v.count
              ∙ ap (λ n. n % 2 ^ 32)
                  (sym (
                    resting_at-here s (λ r. 1) px inside
                    ∙ priced-length b.band b.slab.capacity f s i px (A s i) entries here))),
        )
  ]
