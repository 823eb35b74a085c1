-- ===== src/Main/Sim.antt =====
-- cpp/main/sim_runner.cpp: the workload that `main` drives through the publisher. The vector `resting` is
-- a function from its indices and its size. The relay thread only takes events out of the ring, which the
-- loop never looks at.
pub mod Start
pub mod Sound
mod Tests
use optimal_execution_platfo.Common.{
  ℕ, zero, suc, ◌+◌, ◌-◌, ◌%◌, Option, none, some, Bool, true, false, ltb, leb, ◌==◌, if◌then◌else◌,
  ◌>>=◌, add64, update,
}
use optimal_execution_platfo.Common.Int.{ℤ, pos, ◌+ℤ◌, ◌-ℤ◌}
use optimal_execution_platfo.Core.Order.{Side, buy, sell, Memory}
use optimal_execution_platfo.Core.Ladder.{Band}
use optimal_execution_platfo.Core.Book.{Book, new_book, open_order_count}
use optimal_execution_platfo.Core.Ring.{new_ring}
use optimal_execution_platfo.External.Event.{TelemetryEvent}
use optimal_execution_platfo.Exec.Publisher.{Publisher, publish_add_limit, publish_cancel}
use optimal_execution_platfo.Main.Random.{next_random, is_odd}

abbrev pub book_capacity : ℕ
book_capacity = 8192

-- The band of a book that names none.
abbrev pub default_band : Band
default_band = record { min_price = pos 0; max_price = pos 16383 }

-- The local variables of `main` that the loop changes.
pub record Sim : Type 0 where
  pub publisher : Publisher
  pub rng : ℕ
  pub resting : ℕ → ℕ
  pub count : ℕ
  pub next_id : ℕ
  pub adds : ℕ
  pub cancels : ℕ

-- What `main` builds before the loop: a ring of 2^16 slots and the publisher over the book.
abbrev pub start_sim : Book → (zeroed : TelemetryEvent) (seed : ℕ) → Sim
start_sim book zeroed seed = record {
  publisher = record { book = book; ring = new_ring zeroed 16; seq = 0; readings = 0 };
  rng = seed;
  resting = λ i. 0;
  count = 0;
  next_id = 1;
  adds = 0;
  cancels = 0;
}

-- `std::swap(v[i], v[j])`
unfoldable pub swap : (ℕ → ℕ) → ℕ → ℕ → ℕ → ℕ
swap v i j = update (update v i (v j)) j (v i)

-- `1 + Next() % 4`
unfoldable pub draw_quantity : ℕ → ℕ
draw_quantity r = 1 + r % 4

-- The offset is from -5 to 5, around 99 for a buy and 101 for a sell.
unfoldable pub draw_price : Bool → ℕ → ℤ
draw_price is_buy r =
    let offset = pos (r % 11) -ℤ pos 5 in if is_buy then pos 99 +ℤ offset else pos 101 +ℤ offset

-- What is done with the answer of `AddLimit`.
abbrev pub note_added : Sim → (id : ℕ) → (ok : Bool) → Publisher → Sim
note_added s id true p = record s {
  publisher = p;
  resting = update s.resting s.count id;
  count = s.count + 1;
  adds = add64 s.adds 1;
}
note_added s id false p = record s { publisher = p }

module _ (clock : ℕ → ℕ) where
  -- Takes the last id out of `resting` and cancels it.
  unfoldable pub cancel_back : Sim → Option Sim
  cancel_back s = do
    (ok, p) ← publish_cancel clock s.publisher (s.resting (s.count - 1))
    some (record s { publisher = p; count = s.count - 1; cancels = add64 s.cancels 1 })

  -- The cancel of a random resting order.
  unfoldable pub cancel_random : Sim → Option Sim
  cancel_random s =
      let r = next_random s.rng in
      cancel_back (record s { rng = r; resting = swap s.resting (r % s.count) (s.count - 1) })

  -- The new order at the end of the loop's body.
  unfoldable pub add_random : Sim → Option Sim
  add_random s =
      let r₁ = next_random s.rng in
      let r₂ = next_random r₁ in
      let r₃ = next_random r₂ in
      let is_buy = is_odd r₁ in
      let side : Side = if is_buy then buy else sell in
      (do
        (ok, p) ←
            publish_add_limit clock s.publisher s.next_id side (draw_price is_buy r₂)
              (draw_quantity r₃)
        some (note_added (record s { rng = r₃; next_id = add64 s.next_id 1 }) s.next_id ok p))

  -- The body from the check of the slab on.
  unfoldable pub add_or_evict : Sim → Option Sim
  add_or_evict s =
      if leb (book_capacity - 4) (open_order_count s.publisher.book)
      then (if ltb 0 s.count then cancel_back s else some s)
      else add_random s

  -- The body of the loop: one in four is a cancel, while orders rest.
  unfoldable pub sim_step : Sim → Option Sim
  sim_step s =
      let r = next_random s.rng in
      if ltb 0 s.count
      then (if r % 4 == 0
          then cancel_random (record s { rng = r })
          else add_or_evict (record s { rng = r }))
      else add_or_evict s

  -- The loop, with the operations to go.
  unfoldable pub run_ops : (ops : ℕ) → Sim → Option Sim
  run_ops zero s = some s
  run_ops (suc n) s = do s' ← sim_step s; run_ops n s'

  -- `main`, up to the end of its loop.
  abbrev pub run_main : Memory → (zeroed : TelemetryEvent) (seed ops : ℕ) → Option Sim
  run_main raw zeroed seed ops = do
    book ← new_book raw book_capacity default_band
    run_ops ops (start_sim book zeroed seed)
