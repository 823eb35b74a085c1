-- ===== src/Core/Book/Sweep.antt =====
-- Price/time priority over the whole band: every level, the best price first.
use optimal_execution_platfo.Common.{
  ℕ, zero, suc, ◌-◌, ◌≤◌, ◌≡◌, refl, ap, ◌∙◌, inl, inr, ◌⊎◌, true, false, if◌then◌else◌, List, [],
  ◌∷◌, ◌++◌, arith, Bool-cases,
}
use optimal_execution_platfo.Common.Int.{ℤ, pos, +ℤ_parts}
use optimal_execution_platfo.Core.Order.{Side, buy, sell, Fill}
use optimal_execution_platfo.Core.Level.Segment.{Queue}
use optimal_execution_platfo.Core.Ladder.{Band}
use optimal_execution_platfo.Core.Ladder.Price.{price_at}
use optimal_execution_platfo.Core.Ladder.Scan.{NoWorse}
use optimal_execution_platfo.Core.Book.{opposite, is_past}
use optimal_execution_platfo.Core.Book.Place.{change, change_same}
use optimal_execution_platfo.Core.Book.Stock.{Orders}
use optimal_execution_platfo.Core.Book.Invariant.{is_nil}
use optimal_execution_platfo.Core.Book.Priority.{Taken, take_queue}

abbrev pub upto : ℕ → List ℕ
upto zero = []
upto (suc n) = upto n ++ n ∷ []

abbrev pub downto : ℕ → List ℕ
downto zero = []
downto (suc n) = n ∷ downto n

-- The levels of a side, the best price first.
abbrev pub best_first : Side → ℕ → List ℕ
best_first buy n = downto n
best_first sell n = upto n

-- The fills, the orders that rest after them, and what is left of the taker.
pub record Swept : Type 0 where
  pub fills : List Fill
  pub orders : Orders
  pub remaining : ℕ

-- The taker takes from each of these levels in turn whose price its own reaches.
abbrev pub sweep : ℕ → Side → ℤ → Band → List ℕ → Orders → ℕ → Swept
sweep id side price band [] A n = record { fills = []; orders = A; remaining = n }
sweep id side price band (i ∷ is) A n =
    let s = opposite side in
    let px = price_at band i in
    let k = take_queue id side px (A s i) n in
    let past = sweep id side price band is A n in
    let rest = sweep id side price band is (change A s i k.queue) k.remaining in
    if is_past side px price
    then past
    else record { fills = k.fills ++ rest.fills; orders = rest.orders; remaining = rest.remaining }

pub take_queue_zero :
    (id : ℕ) (side : Side) (px : ℤ) (xs : Queue)
    → take_queue id side px xs 0 ≡ record { fills = []; queue = xs; remaining = 0 }
take_queue_zero id side px [] = refl
take_queue_zero id side px ((p, r) ∷ xs) = refl

pub take_queue-le :
    (id : ℕ) (side : Side) (px : ℤ) (xs : Queue) (n : ℕ)
    → (take_queue id side px xs n).remaining ≤ n
take_queue-le id side px [] n = omega arith
take_queue-le id side px ((p, r) ∷ xs) zero = omega arith
take_queue-le id side px ((p, r) ∷ xs) (suc n) =
    ground (arith, take_queue-le id side px xs (suc n - r.qty))

-- A sweep takes no more than the taker has.
pub sweep-le :
    (id : ℕ) (side : Side) (price : ℤ) (band : Band) (is : List ℕ) (A : Orders) (n : ℕ)
    → (sweep id side price band is A n).remaining ≤ n
sweep-le id side price band [] A n = omega arith
sweep-le id side price band (i ∷ is) A n =
    let s = opposite side in
    let k = take_queue id side (price_at band i) (A s i) n in
    elim (Bool-cases (is_past side (price_at band i) price)) [
      | inl e ↦ rw e (sweep-le id side price band is A n)
      | inr e ↦ rw e (
          omega (
            arith,
            sweep-le id side price band is (change A s i k.queue) k.remaining,
            take_queue-le id side (price_at band i) (A s i) n,
          ))
    ]

-- A taker that leaves orders behind is filled.
pub take_queue_filled :
    (id : ℕ) (side : Side) (px : ℤ) (xs : Queue) (n : ℕ)
    → is_nil (take_queue id side px xs n).queue ≡ false
    → (take_queue id side px xs n).remaining ≡ 0
take_queue_filled id side px [] n h = cc h
take_queue_filled id side px ((p, r) ∷ xs) zero h = refl
take_queue_filled id side px ((p, r) ∷ xs) (suc n) h =
    ground (arith, take_queue_filled id side px xs (suc n - r.qty))

module _ (id : ℕ) (side : Side) (price : ℤ) (band : Band) where
  -- A level from which nothing is taken.
  abbrev pub Idle : Orders → ℕ → ℕ → Type 0
  Idle A n i =
      (A (opposite side) i ≡ []) ⊎ ((n ≡ 0) ⊎ (is_past side (price_at band i) price ≡ true))

  abbrev pub AllIdle : Orders → ℕ → List ℕ → Type 0
  AllIdle A n [] = Unit
  AllIdle A n (i ∷ is) = Idle A n i × AllIdle A n is

  idle_take :
      (A : Orders) (n i : ℕ)
      → (A (opposite side) i ≡ []) ⊎ (n ≡ 0)
      → take_queue id side (price_at band i) (A (opposite side) i) n
        ≡ record { fills = []; queue = A (opposite side) i; remaining = n }
  idle_take A n i (inl e) = rw e
  idle_take A n i (inr e) = rw e (take_queue_zero id side (price_at band i) (A (opposite side) i))

  -- One level of the sweep, on each branch.
  pub sweep-past :
      (A : Orders) (n i : ℕ) (is : List ℕ)
      → is_past side (price_at band i) price ≡ true
      → sweep id side price band (i ∷ is) A n ≡ sweep id side price band is A n
  sweep-past A n i is e = rw e

  pub sweep-take :
      (A : Orders) (n i : ℕ) (is : List ℕ) (k : Taken)
      → is_past side (price_at band i) price ≡ false
      → take_queue id side (price_at band i) (A (opposite side) i) n ≡ k
      → sweep id side price band (i ∷ is) A n ≡ (
          let rest = sweep id side price band is (change A (opposite side) i k.queue) k.remaining in
          record {
            fills = k.fills ++ rest.fills;
            orders = rest.orders;
            remaining = rest.remaining;
          })
  sweep-take A n i is k e e' = rw (e, e')

  sweep-idle_none :
      (A : Orders) (n i : ℕ) (is : List ℕ)
      → (A (opposite side) i ≡ []) ⊎ (n ≡ 0)
      → is_past side (price_at band i) price ≡ false
      → sweep id side price band (i ∷ is) A n ≡ sweep id side price band is A n
  sweep-idle_none A n i is h e =
      sweep-take A n i is _ e (idle_take A n i h)
      ∙ ap (λ B. sweep id side price band is B n) (change_same A (opposite side) i)

  pub sweep-Idle_one :
      (A : Orders) (n i : ℕ) (is : List ℕ)
      → Idle A n i
      → sweep id side price band (i ∷ is) A n ≡ sweep id side price band is A n
  sweep-Idle_one A n i is h = elim (Bool-cases (is_past side (price_at band i) price)) [
    | inl e ↦ sweep-past A n i is e
    | inr e ↦ elim h [
      | inl none_here ↦ sweep-idle_none A n i is (inl none_here) e
      | inr (inl filled) ↦ sweep-idle_none A n i is (inr filled) e
      | inr (inr past) ↦ sweep-past A n i is past
    ]
  ]

  -- Levels from which nothing is taken can be left out in front.
  pub sweep-idle :
      (A : Orders) (n : ℕ) (is js : List ℕ)
      → AllIdle A n is
      → sweep id side price band (is ++ js) A n ≡ sweep id side price band js A n
  sweep-idle A n [] js h = refl
  sweep-idle A n (i ∷ is) js (h, hs) = sweep-Idle_one A n i (is ++ js) h ∙ sweep-idle A n is js hs

  pub sweep-idle_all :
      (A : Orders) (n : ℕ) (is : List ℕ)
      → AllIdle A n is
      → sweep id side price band is A n ≡ record { fills = []; orders = A; remaining = n }
  sweep-idle_all A n [] h = refl
  sweep-idle_all A n (i ∷ is) (h, hs) = sweep-Idle_one A n i is h ∙ sweep-idle_all A n is hs

  pub AllIdle-append :
      (A : Orders) (n : ℕ) (is js : List ℕ)
      → AllIdle A n is
      → AllIdle A n js
      → AllIdle A n (is ++ js)
  AllIdle-append A n [] js a b = b
  AllIdle-append A n (i ∷ is) js (h, hs) b = (h, AllIdle-append A n is js hs b)

-- Where a level is past the taker, so are the worse ones.
pub is_past-worse :
    (band : Band) (price : ℤ) (side : Side) (i j : ℕ)
    → NoWorse (opposite side) i j
    → is_past side (price_at band i) price ≡ true
    → is_past side (price_at band j) price ≡ true
unfolding is_past
is_past-worse band price buy i j h e =
    ground (arith, +ℤ_parts band.min_price (pos i), +ℤ_parts band.min_price (pos j))
is_past-worse band price sell i j h e =
    ground (arith, +ℤ_parts band.min_price (pos i), +ℤ_parts band.min_price (pos j))
