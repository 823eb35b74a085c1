-- ===== src/Core/Book/Tests.antt =====
-- A small book.
use optimal_execution_platfo.Common.{
  ◌%◌, ◌^◌, ℕ, ◌≡◌, ◌<◌, refl, sym, ap, subst, arith, Option, none, some, Bool, List, [], ◌∷◌,
  Returns, update, u64_mod,
}
use optimal_execution_platfo.Common.Int.{ℤ, pos, ◌+ℤ◌, ◌-ℤ◌}
use optimal_execution_platfo.Core.Slab.{
  link, slot_size, threaded, new, thread_slots, next_of, allocate, owns, construct, deallocate,
}
use optimal_execution_platfo.Core.Slab.FreeList.{countdown}
use optimal_execution_platfo.Core.IdIndex.{
  new as new_index, double_until, round_up_pow2, mix_id, home, free_slot, insert_id, shift_entry,
  shift_back, find_slot, lookup_and_erase_id,
}
use optimal_execution_platfo.Core.Order.{buy, sell, Fill, Resting, Memory}
use optimal_execution_platfo.Core.Level.{
  set_next, set_prev, bypass_before, bypass_after, unlink_from_level, link_last, push_back_to_level,
}
use optimal_execution_platfo.Core.Ladder.{
  Band, width, in_band, idx, level_at, put_level, improves, worse, mark_level_live, scan,
  mark_level_emptied,
}
use optimal_execution_platfo.Core.Book.{
  Book, blank_book, new_book, rest_at, rest, settle_level, cancel_at, cancel, advance_head,
  pop_maker, fill_maker, consume_maker, next_maker, consume_level, is_past, crossing, match_level,
  match_side, rest_remainder, add_limit, best_price, has_best, level_qty, level_order_count,
  open_order_count,
}
use optimal_execution_platfo.Core.Book.Place.{change}
use optimal_execution_platfo.Core.Book.Stock.{Orders}
use optimal_execution_platfo.Core.Ladder.Price.{price_at}
use optimal_execution_platfo.Core.Book.Invariant.{IsBook}
use optimal_execution_platfo.Core.Book.Cancel.{Cancelled, cancel-IsBook}
use optimal_execution_platfo.Core.Book.Rest.{RestOutcome, rest-IsBook}
use optimal_execution_platfo.Core.Book.Sweep.{best_first, sweep}
use optimal_execution_platfo.Core.Book.AddLimit.{Added, add_limit-Added}
use optimal_execution_platfo.Core.Book.Session.{
  blank_book-IsBook, open_and_serve, add, drop, IsSound, session-IsSound,
}
use optimal_execution_platfo.Core.Book.Uncrossed.Life.{NotCrossed, session-NotCrossed}
use optimal_execution_platfo.Core.Book.Observe.{BestSeen, best_price-BestSeen}
use optimal_execution_platfo.Core.Book.Depth.{resting_at, level_qty-resting_at}
use optimal_execution_platfo.Core.Level.{no_level}
use optimal_execution_platfo.Core.Ladder.Touch.{IsTouch, with_level, mark_level_emptied-IsTouch}

program : Unit {0}
unfolding ◌+ℤ◌ ◌-ℤ◌ slot_size new threaded thread_slots next_of allocate owns construct deallocate
    new_index double_until round_up_pow2 mix_id home free_slot insert_id shift_entry shift_back
    find_slot lookup_and_erase_id set_next set_prev bypass_before bypass_after unlink_from_level
    link_last push_back_to_level width in_band idx level_at put_level improves worse mark_level_live
    scan mark_level_emptied new_book rest_at rest settle_level cancel_at cancel advance_head
    pop_maker fill_maker consume_maker next_maker consume_level is_past crossing match_level
    match_side rest_remainder add_limit best_price has_best level_qty level_order_count
    open_order_count
program = tt

abbrev raw : Memory
raw = λ p. link none

-- Prices 98 to 102.
abbrev band : Band
band = record { min_price = pos 98; max_price = pos 102 }

abbrev book : Book
book = blank_book (threaded raw 4) 4 band

abbrev bid : Resting
bid = record { id = 41; price = pos 100; qty = 5; side = buy }

abbrev answer : Option Book → Option (ℤ × ℤ × ℕ)
answer none = none
answer (some b) = some (best_price b buy, best_price b sell, open_order_count b)

-- Two bids and an ask rest, the ask is partly filled, and the better bid is withdrawn.
session_test :
    answer (
      open_and_serve raw 4 band (
        add 1 buy (pos 99) 5
        ∷ add 2 buy (pos 100) 3
        ∷ add 3 sell (pos 101) 4
        ∷ add 4 buy (pos 101) 2
        ∷ drop 2
        ∷ []))
    ≡ some (pos 99, pos 101, 2)
unfolding program
session_test = refl

some_price : 0 < width band
unfolding program
some_price = omega arith

narrow : width band < 2 ^ 63
unfolding program
narrow = omega arith

start : IsBook book (λ side i. []) (λ id. none) (countdown 4)
start = blank_book-IsBook raw 4 band (omega arith) (omega (arith, narrow))

rest-IsBook_example :
    Returns (rest book bid) (RestOutcome book (λ side i. []) (λ id. none) bid (countdown 4))
rest-IsBook_example = rest-IsBook (countdown 4) bid start (omega arith) (omega arith) refl

-- The book after an ask of 5 at 101 came to rest.
abbrev ask : Resting
ask = record { id = 40; price = pos 101; qty = 5; side = sell }

abbrev book_of : Option (Bool × Book) → Book
book_of none = book
book_of (some (ok, b)) = b

abbrev asked : Book
asked = book_of (rest book ask)

abbrev asks : Orders
asks = change (λ side i. []) sell 3 ((3, ask) ∷ [])

abbrev asked_ids : ℕ → Option ℕ
asked_ids = update (λ id. none) 40 (some 3)

asked-IsBook : IsBook asked asks asked_ids (countdown 3)
unfolding program
asked-IsBook =
    let ((ok, b), run, (_, k, _)) =
      rest-IsBook (countdown 4) ask start (omega arith) (omega arith) refl in
    subst (λ b. IsBook b asks asked_ids (countdown 3)) (sym (ap book_of run)) k

-- A bid of 7 at 102 takes the ask, and 2 of it come to rest.
fills_test :
    (r : Bool × List Fill × Book) × (add_limit asked 41 buy (pos 102) 7 ≡ some r)
    × (r.1
        ≡ record { maker_id = 40; taker_id = 41; price = pos 101; qty = 5; taker_side = buy } ∷ [])
    × (level_qty r.2 buy (pos 102) ≡ 2)
unfolding program
fills_test = (_, refl, refl, refl)

add_limit-Added_example : Returns (add_limit asked 41 buy (pos 102) 7) (
    Added asked_ids asked.band 41 buy
      (pos 102)
      (sweep 41 buy (pos 102) asked.band (best_first sell (width asked.band)) asks 7))
add_limit-Added_example =
    add_limit-Added asked-IsBook 41 buy (pos 102) 7 refl (omega arith) (omega arith)

cancel-IsBook_example :
    Returns (cancel asked 40) (Cancelled asked asks asked_ids (countdown 3) 40 (some 3))
cancel-IsBook_example = cancel-IsBook asked-IsBook 40

session-IsSound_example :
    Returns
      (open_and_serve raw 4 band (
        add 1 buy (pos 99) 5
        ∷ add 2 buy (pos 100) 3
        ∷ add 3 sell (pos 101) 4
        ∷ add 4 buy (pos 101) 2
        ∷ drop 2
        ∷ []))
      λ b. (seen : List ℕ) × IsSound seen b
session-IsSound_example =
    session-IsSound raw 4 band
      (add 1 buy (pos 99) 5
        ∷ add 2 buy (pos 100) 3
        ∷ add 3 sell (pos 101) 4
        ∷ add 4 buy (pos 101) 2
        ∷ drop 2
        ∷ [])
      (omega arith) some_price narrow
      (
        refl,
        omega arith,
        omega arith,
        (
          refl,
          omega arith,
          omega arith,
          (refl, omega arith, omega arith, (refl, omega arith, omega arith, tt)),
        ),
      )

session-NotCrossed_example :
    Returns
      (open_and_serve raw 4 band (
        add 1 buy (pos 99) 5
        ∷ add 2 buy (pos 100) 3
        ∷ add 3 sell (pos 101) 4
        ∷ add 4 buy (pos 101) 2
        ∷ drop 2
        ∷ []))
      NotCrossed
session-NotCrossed_example =
    session-NotCrossed raw 4 band
      (add 1 buy (pos 99) 5
        ∷ add 2 buy (pos 100) 3
        ∷ add 3 sell (pos 101) 4
        ∷ add 4 buy (pos 101) 2
        ∷ drop 2
        ∷ [])
      (omega arith) some_price narrow
      (
        refl,
        omega arith,
        omega arith,
        (
          refl,
          omega arith,
          omega arith,
          (refl, omega arith, omega arith, (refl, omega arith, omega arith, tt)),
        ),
      )

best_price-BestSeen_example : BestSeen asked asks sell
best_price-BestSeen_example = best_price-BestSeen asked-IsBook sell

level_qty-resting_at_example :
    (level_qty asked sell (pos 101)
      ≡ resting_at asks sell (width asked.band) (λ r. r.qty) (pos 101) % u64_mod)
    × (level_order_count asked sell (pos 101)
        ≡ resting_at asks sell (width asked.band) (λ r. 1) (pos 101) % 2 ^ 32)
level_qty-resting_at_example = level_qty-resting_at asked-IsBook sell (pos 101)

-- Five at the price of the ask, and nothing at 97, outside the band.
depth_test :
    (resting_at asks sell (width asked.band) (λ r. r.qty) (pos 101) ≡ 5)
    × (level_qty asked sell (pos 101) ≡ 5)
    × (level_qty asked sell (pos 97) ≡ 0)
unfolding program
depth_test = (refl, refl, refl)

mark_level_emptied-IsTouch_example :
    Returns
      (mark_level_emptied band sell (price_at band 3) (with_level (asked.ladders sell) 3 no_level))
      λ l'. IsTouch band sell l' × (l'.levels ≡ update (asked.ladders sell).levels 3 no_level)
unfolding program
mark_level_emptied-IsTouch_example =
    mark_level_emptied-IsTouch 3 no_level (omega arith) (asked-IsBook.touch sell)
      (omega (arith, narrow)) refl refl
