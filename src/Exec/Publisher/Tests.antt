-- ===== src/Exec/Publisher/Tests.antt =====
-- A publisher over a small book and a ring of four slots.
use optimal_execution_platfo.Common.{
  ℕ, ◌≡◌, refl, sym, ap, subst, arith, Option, none, some, Bool, List, [], ◌∷◌, Returns, update,
  ◌+◌, ◌>>=◌,
}
use optimal_execution_platfo.Common.Int.{pos, ◌+ℤ◌, ◌-ℤ◌}
use optimal_execution_platfo.Core.Slab.{
  link, threaded, thread_slots, next_of, allocate, owns, construct, deallocate,
}
use optimal_execution_platfo.Core.Slab.FreeList.{countdown}
use optimal_execution_platfo.Core.IdIndex.{
  new as new_index, double_until, round_up_pow2, mix_id, home, free_slot, insert_id, shift_entry,
  shift_back, find_slot, lookup_and_erase_id,
}
use optimal_execution_platfo.Core.Order.{buy, sell, Resting, Memory}
use optimal_execution_platfo.Core.Level.{
  set_next, set_prev, bypass_before, bypass_after, unlink_from_level, link_last, push_back_to_level,
}
use optimal_execution_platfo.Core.Ladder.{
  Band, width, in_band, idx, level_at, put_level, improves, worse, mark_level_live, scan,
  mark_level_emptied,
}
use optimal_execution_platfo.Core.Book.{
  Book, blank_book, rest_at, rest, settle_level, cancel_at, cancel, advance_head, pop_maker,
  fill_maker, consume_maker, next_maker, consume_level, is_past, crossing, match_level, match_side,
  rest_remainder, add_limit,
}
use optimal_execution_platfo.Core.Book.Place.{change}
use optimal_execution_platfo.Core.Book.Stock.{Orders}
use optimal_execution_platfo.Core.Book.Invariant.{IsBook}
use optimal_execution_platfo.Core.Book.Rest.{rest-IsBook}
use optimal_execution_platfo.Core.Book.Sweep.{best_first, sweep}
use optimal_execution_platfo.Core.Book.Session.{blank_book-IsBook}
use optimal_execution_platfo.Core.Ring.{new_ring, try_push}
use optimal_execution_platfo.External.Event.{TelemetryEvent, fill_event, cancel_event, ack_event}
use optimal_execution_platfo.Exec.Schedule.{at_index}
use optimal_execution_platfo.Exec.Publisher.{
  Publisher, emit, on_fills, acknowledge, publish_add_limit, publish_cancel, submit_step,
}
use optimal_execution_platfo.Exec.Publisher.Published.{Published, publish_add_limit-Published}
use optimal_execution_platfo.Exec.Publisher.Withdrawn.{Withdrawn, publish_cancel-Withdrawn}

program : Unit {0}
unfolding ◌+ℤ◌ ◌-ℤ◌ threaded thread_slots next_of allocate owns construct deallocate new_index
    double_until round_up_pow2 mix_id home free_slot insert_id shift_entry shift_back find_slot
    lookup_and_erase_id set_next set_prev bypass_before bypass_after unlink_from_level link_last
    push_back_to_level width in_band idx level_at put_level improves worse mark_level_live scan
    mark_level_emptied rest_at rest settle_level cancel_at cancel advance_head pop_maker fill_maker
    consume_maker next_maker consume_level is_past crossing match_level match_side rest_remainder
    add_limit new_ring try_push emit on_fills acknowledge publish_add_limit publish_cancel
    submit_step at_index
program = tt

abbrev raw : Memory
raw = λ p. link none

-- Prices 98 to 102.
abbrev band : Band
band = record { min_price = pos 98; max_price = pos 102 }

-- The book after an ask of 5 at 101 came to rest.
abbrev ask : Resting
ask = record { id = 40; price = pos 101; qty = 5; side = sell }

abbrev book_of : Option (Bool × Book) → Book
book_of none = blank_book (threaded raw 4) 4 band
book_of (some (ok, b)) = b

abbrev asked : Publisher
asked = record {
  book = book_of (rest (blank_book (threaded raw 4) 4 band) ask);
  ring = new_ring (cancel_event 0 0 0 buy (pos 0) 0) 2;
  seq = 0;
  readings = 0;
}

abbrev clock : ℕ → ℕ
clock n = 1000 + n

abbrev asks : Orders
asks = change (λ side i. []) sell 3 ((3, ask) ∷ [])

abbrev asked_ids : ℕ → Option ℕ
asked_ids = update (λ id. none) 40 (some 3)

asked-IsBook : IsBook asked.book asks asked_ids (countdown 3)
unfolding program
asked-IsBook =
    let ((ok, b), run, (_, k, _)) =
      rest-IsBook (countdown 4) ask (blank_book-IsBook raw 4 band (omega arith) (omega arith))
        (omega arith) (omega arith) refl in
    subst (λ b. IsBook b asks asked_ids (countdown 3)) (sym (ap book_of run)) k

abbrev published : Option (Bool × Publisher) → List TelemetryEvent
published none = []
published (some (ok, p)) = p.ring.storage 0 ∷ p.ring.storage 1 ∷ p.ring.storage 2 ∷ []

-- A step that buys 7 at 102 takes the ask, acknowledges the 2 that rest, and the 2 are withdrawn.
events_test :
    published (do
      (ok, p) ←
          submit_step clock
            (record {
              side = buy;
              parent_qty = 7;
              child_qty = 0 ∷ 7 ∷ [];
              remaining = 7 ∷ 7 ∷ 0 ∷ [];
            })
            1
            41
            (pos 102)
            asked
      publish_cancel clock p 41)
    ≡ fill_event 0 1000
        (record { maker_id = 40; taker_id = 41; price = pos 101; qty = 5; taker_side = buy })
      ∷ ack_event 1 1001 41 buy (pos 102) 2
      ∷ cancel_event 2 1002 41 buy (pos 102) 2
      ∷ []
unfolding program
events_test = refl

publish_add_limit-Published_example : Returns (publish_add_limit clock asked 41 buy (pos 102) 7) (
    Published clock asked asked_ids 41 buy
      (pos 102)
      (sweep 41 buy (pos 102) asked.book.band (best_first sell (width asked.book.band)) asks 7))
publish_add_limit-Published_example =
    publish_add_limit-Published clock asked 41 buy (pos 102) 7 asked-IsBook refl (omega arith)
      (omega arith)

publish_cancel-Withdrawn_example :
    Returns
      (publish_cancel clock asked 40)
      (Withdrawn clock asked asks asked_ids (countdown 3) 40 (some 3))
publish_cancel-Withdrawn_example = publish_cancel-Withdrawn clock asked 40 asked-IsBook
