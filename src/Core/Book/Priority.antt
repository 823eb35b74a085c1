-- ===== src/Core/Book/Priority.antt =====
-- Price/time priority, on queues: what matching promises, without memory, ladders or an id index.
use optimal_execution_platfo.Common.{
  ℕ, zero, suc, ◌-◌, ◌<◌, ◌≤◌, ◌≡◌, refl, true, false, arith, leb, if◌then◌else◌, List, [], ◌∷◌,
}
use optimal_execution_platfo.Common.Int.{ℤ}
use optimal_execution_platfo.Core.Order.{Side, Fill, Resting}
use optimal_execution_platfo.Core.Level.Segment.{Queue}

-- What a taker takes: the fills, in order, what stays in the queue, and what is left of the taker.
pub record Taken : Type 0 where
  pub fills : List Fill
  pub queue : Queue
  pub remaining : ℕ

abbrev pub fill_of : ℕ → Side → ℤ → Resting → ℕ → Fill
fill_of taker_id taker_side px r qty = record {
  maker_id = r.id;
  taker_id = taker_id;
  price = px;
  qty = qty;
  taker_side = taker_side;
}

-- The earliest orders fill first, each as far as it goes, until the taker is filled.
abbrev pub take_queue : ℕ → Side → ℤ → Queue → ℕ → Taken
take_queue id side px [] n = record { fills = []; queue = []; remaining = n }
take_queue id side px ((p, r) ∷ xs) zero = record { fills = []; queue = (p, r) ∷ xs; remaining = 0 }
take_queue id side px ((p, r) ∷ xs) (suc n) =
    let rest = take_queue id side px xs (suc n - r.qty) in
    if leb r.qty (suc n)
    then record {
      fills = fill_of id side px r r.qty ∷ rest.fills;
      queue = rest.queue;
      remaining = rest.remaining;
    }
    else record {
      fills = fill_of id side px r (suc n) ∷ [];
      queue = (p, record r { qty = r.qty - suc n }) ∷ xs;
      remaining = 0;
    }

module _ (id : ℕ) (side : Side) (px : ℤ) (p : ℕ) (r : Resting) (xs : Queue) where
  pub take_queue_none :
      (n : ℕ)
      → n ≡ 0
      → take_queue id side px ((p, r) ∷ xs) n
        ≡ record { fills = []; queue = (p, r) ∷ xs; remaining = 0 }
  take_queue_none zero h = refl
  take_queue_none (suc n) h = absurd (omega arith)

  pub take_queue_all :
      (n : ℕ)
      → 0 < n
      → r.qty ≤ n
      → take_queue id side px ((p, r) ∷ xs) n ≡ (
          let rest = take_queue id side px xs (n - r.qty) in
          record {
            fills = fill_of id side px r r.qty ∷ rest.fills;
            queue = rest.queue;
            remaining = rest.remaining;
          })
  take_queue_all zero pos h = absurd (omega arith)
  take_queue_all (suc n) pos h = let e : leb r.qty (suc n) ≡ true = ground arith in rw e

  pub take_queue_part :
      (n : ℕ)
      → 0 < n
      → n < r.qty
      → take_queue id side px ((p, r) ∷ xs) n ≡ record {
        fills = fill_of id side px r n ∷ [];
        queue = (p, record r { qty = r.qty - n }) ∷ xs;
        remaining = 0;
      }
  take_queue_part zero pos h = absurd (omega arith)
  take_queue_part (suc n) pos h = let e : leb r.qty (suc n) ≡ false = ground arith in rw e
