-- ===== src/Exec/Publisher.antt =====
-- cpp/exec/telemetry_publisher.hpp: `TelemetryPublisher`, which drives a book and publishes what happens
-- into a ring, and `Strategy::SubmitStep` over it. `clock` gives the value of each reading of the clock.
pub mod Published
pub mod Withdrawn
pub mod Held
pub mod Tracked
mod Tests
use optimal_execution_platfo.Common.{
  ℕ, ◌+◌, ◌-◌, Option, none, some, Bool, true, false, ◌&&◌, ltb, ◌==◌, if◌then◌else◌, ◌>>=◌, add64,
  sub64, List, [], ◌∷◌,
}
use optimal_execution_platfo.Common.Int.{ℤ}
use optimal_execution_platfo.Core.Order.{Side, Fill, Resting}
use optimal_execution_platfo.Core.Book.{Book, add_limit, cancel}
use optimal_execution_platfo.Core.Ring.{Ring, try_push}
use optimal_execution_platfo.External.Event.{TelemetryEvent, fill_event, cancel_event, ack_event}
use optimal_execution_platfo.Exec.Schedule.{Schedule, at_index}

-- The book and the ring that the publisher refers to, `seq_`, and the readings of the clock so far.
pub record Publisher : Type 0 where
  pub book : Book
  pub ring : Ring TelemetryEvent
  pub seq : ℕ
  pub readings : ℕ

module _ (clock : ℕ → ℕ) where
  -- `seq_++`, `clock_()` and `ring_.TryPush` of the event, whose answer is ignored.
  unfoldable pub emit : Publisher → (ℕ → ℕ → TelemetryEvent) → Publisher
  emit p event =
      let (ok, ring) = try_push p.ring (event p.seq (clock p.readings)) in
      record p { ring = ring; seq = add64 p.seq 1; readings = p.readings + 1 }

  -- The calls of `on_fill`, with the quantity filled so far.
  unfoldable pub on_fills : Publisher → (filled : ℕ) → List Fill → Publisher × ℕ
  on_fills p filled [] = (p, filled)
  on_fills p filled (f ∷ fs) =
      on_fills (emit p (λ seq ts. fill_event seq ts f)) (add64 filled f.qty) fs

  -- The end of `AddLimit`
  unfoldable pub acknowledge : Publisher → Bool → ℕ → Side → ℤ → (qty filled : ℕ) → Publisher
  acknowledge p ok id side price qty filled =
      if ok && ltb filled qty
      then emit p (λ seq ts. ack_event seq ts id side price (sub64 qty filled))
      else p

  -- `TelemetryPublisher::AddLimit`
  unfoldable pub publish_add_limit : Publisher → ℕ → Side → ℤ → ℕ → Option (Bool × Publisher)
  publish_add_limit p id side price qty = do
    (ok, fills, book) ← add_limit p.book id side price qty
    let (p', filled) = on_fills (record p { book = book }) 0 fills
    some (ok, acknowledge p' ok id side price qty filled)

  -- What `on_cancel` publishes, if it was called.
  abbrev pub told_cancel : Publisher → Option Resting → Bool × Publisher
  told_cancel p none = (false, p)
  told_cancel p (some r) = (true, emit p (λ seq ts. cancel_event seq ts r.id r.side r.price r.qty))

  -- `TelemetryPublisher::Cancel`
  unfoldable pub publish_cancel : Publisher → ℕ → Option (Bool × Publisher)
  publish_cancel p id = do
    (told, book) ← cancel p.book id
    some (told_cancel (record p { book = book }) told)

  -- `Strategy::SubmitStep`
  unfoldable pub submit_step : Schedule → ℕ → ℕ → ℤ → Publisher → Option (Bool × Publisher)
  submit_step s j id px p = do
    q ← at_index s.child_qty j
    if q == 0 then some (true, p) else publish_add_limit p id s.side px q
