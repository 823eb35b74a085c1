-- ===== src/Core/Book.antt =====
-- cpp/core/order_book.hpp: `OrderBook`, its calls and its observers. The code writes each step twice,
-- for the bids and for the asks; here the side is an argument. `none` is undefined behaviour, or a loop
-- that runs past its fuel. A call returns the fills in the order in which the handler is called.
pub mod Place
pub mod Stock
pub mod Entries
pub mod Change
pub mod Arrival
pub mod Invariant
pub mod Release
pub mod Cancel
pub mod Rest
pub mod Priority
pub mod Maker
pub mod Round
pub mod Consume
pub mod Sweep
pub mod Around
pub mod SweepStep
pub mod Match
pub mod Crossing
pub mod Rounds
pub mod AddLimit
pub mod Session
pub mod Observe
pub mod Depth
pub mod Uncrossed
mod Tests
use optimal_execution_platfo.Common.{
  ℕ, zero, suc, ◌+◌, ◌-◌, min, Option, none, some, Bool, true, false, ◌&&◌, ◌||◌, not, ltb, ◌==◌,
  if◌then◌else◌, ◌>>=◌, update, sub64, List, [], ◌∷◌, ◌++◌,
}
use optimal_execution_platfo.Common.Int.{to_int64, leb_ℤ, ◌-ℤ◌, ◌+ℤ◌, ℤ, pos, ltb_ℤ}
use optimal_execution_platfo.Core.Slab.{Slab, new as new_slab, allocate, construct, deallocate}
use optimal_execution_platfo.Core.IdIndex.{
  IdIndex, new as new_index, insert_id, lookup_and_erase_id,
}
use optimal_execution_platfo.Core.Order.{
  Side, buy, sell, Fill, Order, Resting, order_of, Memory, load, store,
}
use optimal_execution_platfo.Core.Level.{
  LevelFifo, no_level, is_empty, dec32, set_prev, unlink_from_level, push_back_to_level,
}
use optimal_execution_platfo.Core.Ladder.{
  Band, Ladder, width, in_band, idx, level_at, put_level, mark_level_live, mark_level_emptied,
}

-- The members of `OrderBook`; the two ladders are `ladders buy` and `ladders sell`.
pub record Book : Type 0 where
  pub slab : Slab Order
  pub band : Band
  pub ladders : Side → Ladder
  pub id_index : IdIndex

abbrev pub opposite : Side → Side
opposite buy = sell
opposite sell = buy

abbrev pub same_side : Side → Side → Bool
same_side buy buy = true
same_side buy sell = false
same_side sell buy = false
same_side sell sell = true

-- A write to one of the two ladders.
abbrev pub put_ladder : (Side → Ladder) → Side → Ladder → Side → Ladder
put_ladder ladders side l side' = if same_side side side' then l else ladders side'

abbrev pub empty_ladder : Ladder
empty_ladder = record { levels = λ i. no_level; best_px = pos 0; live = 0 }

-- `sizeof(Order)`: five words, and a byte filled up to one.
abbrev pub order_bytes : ℕ
order_bytes = 48

-- `max_price - min_price + 1`, the size of both vectors, in signed 64-bit operations.
abbrev pub price_count : Band → Option ℤ
price_count band = do span ← to_int64 (band.max_price -ℤ band.min_price); to_int64 (span +ℤ pos 1)

-- A book without orders over its slab.
abbrev pub blank_book : Slab Order → (order_capacity : ℕ) → Band → Book
blank_book slab order_capacity band = record {
  slab = slab;
  band = band;
  ladders = λ side. empty_ladder;
  id_index = new_index order_capacity;
}

-- The constructor, over the raw memory that the slab is given.
unfoldable pub new_book : Memory → (order_capacity : ℕ) → Band → Option Book
new_book raw order_capacity band = do
  slab ← new_slab order_bytes raw order_capacity
  count ← price_count band
  if leb_ℤ band.min_price band.max_price then some (blank_book slab order_capacity band) else none

-- `Rest` once the slab returned a slot: the order is written to it and queued at its price.
unfoldable pub rest_at : Book → Slab Order → ℕ → Resting → Option Book
rest_at b slab p r = do
  let slab' = construct slab p (order_of r none none)
  lvl ← level_at b.band (b.ladders r.side) r.price
  (mem, lvl') ← push_back_to_level slab'.storage lvl p
  let l = put_level b.band (b.ladders r.side) r.price lvl'
  ids ← insert_id b.id_index r.id p
  some (record b {
    slab = record slab' { storage = mem };
    ladders =
        put_ladder b.ladders r.side (if is_empty lvl then mark_level_live r.side r.price l else l);
    id_index = ids;
  })

-- `Rest` on what `Allocate` returned.
abbrev pub rest_in : Book → Slab Order → Option ℕ → Resting → Option (Bool × Book)
rest_in b slab none r = some (false, record b { slab = slab })
rest_in b slab (some p) r = do b' ← rest_at b slab p r; some (true, b')

-- `Rest`
unfoldable pub rest : Book → Resting → Option (Bool × Book)
rest b r =
    if in_band b.band r.price
    then (do (p, slab) ← allocate b.slab; rest_in b slab p r)
    else some (false, b)

-- `if (lvl.empty()) MarkLevelEmptied(side, px)` after a write to the level.
unfoldable pub settle_level : Band → Side → ℤ → LevelFifo → Ladder → Option Ladder
settle_level band side px lvl l = if is_empty lvl then mark_level_emptied band side px l else some l

-- `Cancel` once the id was found: what `on_cancel` is told, and the book after it.
unfoldable pub cancel_at : Book → IdIndex → ℕ → Option (Resting × Book)
cancel_at b ids p = do
  o ← load b.slab.storage p
  lvl ← level_at b.band (b.ladders o.side) o.price
  (mem, lvl') ← unlink_from_level b.slab.storage lvl p
  let l = put_level b.band (b.ladders o.side) o.price lvl'
  l' ← settle_level b.band o.side o.price lvl' l
  slab ← deallocate (record b.slab { storage = mem }) p
  some (
    record { id = o.id; price = o.price; qty = o.qty; side = o.side },
    record b { slab = slab; ladders = put_ladder b.ladders o.side l'; id_index = ids },
  )

-- `Cancel` on what `LookupAndEraseId` returned.
abbrev pub cancel_in : Book → IdIndex → Option ℕ → Option (Option Resting × Book)
cancel_in b ids none = some (none, record b { id_index = ids })
cancel_in b ids (some p) = do (r, b') ← cancel_at b ids p; some (some r, b')

-- `Cancel`: it returns true, after a call of `on_cancel` on the order, when the option is not `none`.
unfoldable pub cancel : Book → ℕ → Option (Option Resting × Book)
cancel b id = do (p, ids) ← lookup_and_erase_id b.id_index id; cancel_in b ids p

-- What `ConsumeLevel` works on: the slab, the id index, one level, and the taker's rest.
pub record Taking : Type 0 where
  pub slab : Slab Order
  pub id_index : IdIndex
  pub level : LevelFifo
  pub remaining : ℕ
  pub fills : List Fill

-- `lvl.head = maker->next` and the writes of the branch after it.
unfoldable pub advance_head : Memory → LevelFifo → Option ℕ → Option (Memory × LevelFifo)
advance_head mem lvl none = some (mem, record lvl { head = none; tail = none })
advance_head mem lvl (some next) = do
  mem' ← set_prev mem next none
  some (mem', record lvl { head = some next })

-- A maker whose quantity reached 0 leaves the level, the id index and the slab.
unfoldable pub pop_maker : Taking → ℕ → Option Taking
pop_maker t p = do
  maker ← load t.slab.storage p
  (mem, lvl) ← advance_head t.slab.storage t.level maker.next
  (found, ids) ← lookup_and_erase_id t.id_index maker.id
  slab ← deallocate (record t.slab { storage = mem }) p
  some (record t {
    slab = slab;
    id_index = ids;
    level = record lvl { order_count = dec32 lvl.order_count };
  })

-- The fill of one round: the maker at the head gives what both sides have.
unfoldable pub fill_maker : (taker_id : ℕ) → (taker_side : Side) → ℤ → Taking → ℕ → Order → Taking
fill_maker taker_id taker_side px t p maker =
    let fill = min t.remaining maker.qty in
    record t {
      slab = record t.slab {
        storage = store t.slab.storage p (record maker { qty = sub64 maker.qty fill });
      };
      level = record t.level { total_qty = sub64 t.level.total_qty fill };
      remaining = sub64 t.remaining fill;
      fills =
          t.fills
          ++ record {
            maker_id = maker.id;
            taker_id = taker_id;
            price = px;
            qty = fill;
            taker_side = taker_side;
          }
            ∷ [];
    }

-- One round of the loop of `ConsumeLevel` at the maker in slot `p`.
unfoldable pub consume_maker : ℕ → Side → ℤ → Taking → ℕ → Option Taking
consume_maker taker_id taker_side px t p = do
  maker ← load t.slab.storage p
  let t' = fill_maker taker_id taker_side px t p maker
  maker' ← load t'.slab.storage p
  if maker'.qty == 0 then pop_maker t' p else some t'

-- The maker of the next round, if the loop goes on.
unfoldable pub next_maker : Taking → Option ℕ
next_maker t = if ltb 0 t.remaining then t.level.head else none

-- `ConsumeLevel`, for at most `fuel` rounds.
unfoldable pub consume_level : ℕ → ℕ → Side → ℤ → Taking → Option Taking
consume_level zero taker_id taker_side px t = none
consume_level (suc fuel) taker_id taker_side px t = elim (next_maker t) [
  | none ↦ some t
  | some p ↦ do
    t' ← consume_maker taker_id taker_side px t p
    consume_level fuel taker_id taker_side px t'
]

-- The book, what is left of the taker, and the fills so far.
pub record Matching : Type 0 where
  pub book : Book
  pub remaining : ℕ
  pub fills : List Fill

-- The test that ends the loops of `MatchBuy` and `MatchSell`: the best price is past the taker's.
unfoldable pub is_past : (taker_side : Side) → ℤ → ℤ → Bool
is_past buy px taker_price = ltb_ℤ taker_price px
is_past sell px taker_price = ltb_ℤ px taker_price

-- The price at which the next round of `MatchBuy` or `MatchSell` matches, if the loop goes on.
unfoldable pub crossing : Side → ℤ → Matching → Option ℤ
crossing taker_side taker_price w =
    let l = w.book.ladders (opposite taker_side) in
    if ltb 0 w.remaining && ltb 0 l.live && not (is_past taker_side l.best_px taker_price)
    then some l.best_px
    else none

-- One round of the loop. A level holds no more orders than the slab, and one round more ends it.
unfoldable pub match_level : ℕ → Side → Matching → ℤ → Option Matching
match_level taker_id taker_side w px = do
  let b = w.book
  let side = opposite taker_side
  lvl ← level_at b.band (b.ladders side) px
  t ← consume_level (b.slab.capacity + 1) taker_id taker_side px (record {
    slab = b.slab;
    id_index = b.id_index;
    level = lvl;
    remaining = w.remaining;
    fills = w.fills;
  })
  l ← settle_level b.band side px t.level (put_level b.band (b.ladders side) px t.level)
  some (record {
    book = record b { slab = t.slab; ladders = put_ladder b.ladders side l; id_index = t.id_index };
    remaining = t.remaining;
    fills = t.fills;
  })

-- `MatchBuy` or `MatchSell`, for at most `fuel` rounds.
unfoldable pub match_side : ℕ → ℕ → Side → ℤ → Matching → Option Matching
match_side zero taker_id taker_side taker_price w = none
match_side (suc fuel) taker_id taker_side taker_price w = elim (crossing taker_side taker_price w) [
  | none ↦ some w
  | some px ↦ do
    w' ← match_level taker_id taker_side w px
    match_side fuel taker_id taker_side taker_price w'
]

-- The end of `AddLimit`: what the matching left comes to rest.
unfoldable pub rest_remainder : ℕ → Side → ℤ → Matching → Option (Bool × List Fill × Book)
rest_remainder id side price w = if w.remaining == 0 then some (true, w.fills, w.book) else (do
  (rested, b) ← rest w.book (record { id = id; price = price; qty = w.remaining; side = side })
  some (rested, w.fills, b))

-- `AddLimit`. Each round of the matching but the last empties a level of the band.
unfoldable pub add_limit : Book → ℕ → Side → ℤ → ℕ → Option (Bool × List Fill × Book)
add_limit b id side price qty = if qty == 0 then none else (do
  w ← match_side (width b.band + 1) id side price (record { book = b; remaining = qty; fills = [] })
  rest_remainder id side price w)

-- The observers `has_bid` and `has_ask`, `best_bid` and `best_ask`, `level_qty`, `level_order_count`
-- and `open_order_count`.
unfoldable pub has_best : Book → Side → Bool
has_best b side = ltb 0 (b.ladders side).live

unfoldable pub best_price : Book → Side → ℤ
best_price b side = if ltb 0 (b.ladders side).live then (b.ladders side).best_px else pos 0

unfoldable pub level_qty : Book → Side → ℤ → ℕ
level_qty b side px =
    if in_band b.band px then ((b.ladders side).levels (idx b.band px)).total_qty else 0

unfoldable pub level_order_count : Book → Side → ℤ → ℕ
level_order_count b side px =
    if in_band b.band px then ((b.ladders side).levels (idx b.band px)).order_count else 0

unfoldable pub open_order_count : Book → ℕ
open_order_count b = b.slab.in_use
