-- ===== src/Core/Book/Match.antt =====
-- `MatchBuy` and `MatchSell` sweep the opposite side in price/time priority.
use optimal_execution_platfo.Common.{
  ℕ, ◌+◌, ◌<◌, ◌≡◌, refl, sym, ap, Option, none, some, true, not, u64_mod, List, ◌++◌, arith, subst,
  Returns, length,
}
use optimal_execution_platfo.Common.Int.{ℤ}
use optimal_execution_platfo.Core.Order.{Side}
use optimal_execution_platfo.Core.Level.{LevelFifo}
use optimal_execution_platfo.Core.Ladder.{Ladder, width, level_at, put_level}
use optimal_execution_platfo.Core.Ladder.Price.{price_at}
use optimal_execution_platfo.Core.Ladder.Scan.{populated, level_at-price_at}
use optimal_execution_platfo.Core.Book.{Book, put_ladder, settle_level}
use optimal_execution_platfo.Core.Book.Place.{change, levels_of}
use optimal_execution_platfo.Core.Book.Stock.{Orders, IsEntry, IsStock}
use optimal_execution_platfo.Core.Book.{Taking, Matching, opposite, consume_level, match_level}
use optimal_execution_platfo.Core.Book.Place.{change_same}
use optimal_execution_platfo.Core.Book.Entries.{length-capacity}
use optimal_execution_platfo.Core.Book.Invariant.{
  IsBook, is_nil, is_empty-is_nil, IsBook-put, settle_level-IsTouch,
}
use optimal_execution_platfo.Core.Book.Priority.{Taken, take_queue}
use optimal_execution_platfo.Core.Book.Round.{Held}
use optimal_execution_platfo.Core.Book.Consume.{consume_level-Consumed}

-- What a round leaves, against what the taker takes from the level.
pub record Matched (A : Orders) (f : ℕ → Option ℕ) (s : Side) (i : ℕ) (w : Matching) (k : Taken)
    (w' : Matching) : Type 0 where
  pub fills : w'.fills ≡ w.fills ++ k.fills
  pub remaining : w'.remaining ≡ k.remaining
  pub band : w'.book.band ≡ w.book.band
  pub map : ℕ → Option ℕ
  pub free : List ℕ
  pub book : IsBook w'.book (change A s i k.queue) map free
  pub no_new_id : (j : ℕ) → f j ≡ none → map j ≡ none

unfoldable pub taking : Matching → LevelFifo → Taking
taking w lvl = record {
  slab = w.book.slab;
  id_index = w.book.id_index;
  level = lvl;
  remaining = w.remaining;
  fills = w.fills;
}

match_level-run :
    (id : ℕ) (side : Side) (w : Matching) (px : ℤ) (lvl : LevelFifo) (t : Taking) (l : Ladder)
    → level_at w.book.band (w.book.ladders (opposite side)) px ≡ some lvl
    → consume_level (w.book.slab.capacity + 1) id side px (taking w lvl) ≡ some t
    → settle_level w.book.band
        (opposite side)
        px
        t.level
        (put_level w.book.band (w.book.ladders (opposite side)) px t.level)
      ≡ some l
    → match_level id side w px
      ≡ some (record {
        book = record w.book {
          slab = t.slab;
          ladders = put_ladder w.book.ladders (opposite side) l;
          id_index = t.id_index;
        };
        remaining = t.remaining;
        fills = t.fills;
      })
unfolding match_level taking
match_level-run id side w px lvl t l e₀ e₁ e₂ = rw (e₀, e₁, e₂)

module _ {b : Book} {A : Orders} {f : ℕ → Option ℕ} {free : List ℕ} (k : IsBook b A f free) where
  -- A level is populated when its queue has an order.
  pub populated-is_nil :
      (s : Side) (i : ℕ) → i < width b.band → populated (b.ladders s) i ≡ not (is_nil (A s i))
  populated-is_nil s i hi = ap not (is_empty-is_nil (A s i) (k.stock.queues s i hi))

  pub level-length : (s : Side) (i : ℕ) → i < width b.band → length (A s i) < b.slab.capacity + 1
  level-length s i hi =
      let E = IsEntry b.band b.slab.capacity f s i in
      let short =
        length-capacity E b.slab.capacity (A s i) (k.stock.queues s i hi).apart (λ q r e. e.in_slab)
          (k.stock.entries s i hi) in
      omega arith

module _ (id : ℕ) (side : Side) (w : Matching) {A : Orders} {f : ℕ → Option ℕ} {free : List ℕ}
    (k : IsBook w.book A f free) where
  held_level :
      (i : ℕ)
      → Held w.book.band
          (levels_of w.book.ladders)
          A
          (opposite side)
          i
          (taking w ((w.book.ladders (opposite side)).levels i))
          (A (opposite side) i)
          f
          free
  unfolding taking
  held_level i =
      let s = opposite side in
      let levels = levels_of w.book.ladders in
      record {
        stock =
            subst
              (λ l. IsStock w.book.band w.book.slab l w.book.id_index (change A s i (A s i)) f free)
              (sym (change_same levels s i))
              (subst (λ B. IsStock w.book.band w.book.slab levels w.book.id_index B f free)
                (sym (change_same A s i)) k.stock);
      }

  -- One round of the matching takes from one level what price/time priority says.
  pub match_level-Matched :
      (i : ℕ)
      → i < width w.book.band
      → populated (w.book.ladders (opposite side)) i ≡ true
      → w.remaining < u64_mod
      → let px = price_at w.book.band i in
        Returns (match_level id side w px) (
          Matched A f (opposite side) i w (take_queue id side px (A (opposite side) i) w.remaining))
  unfolding taking
  match_level-Matched i hi was word =
      let s = opposite side in
      let l = w.book.ladders s in
      let px = price_at w.book.band i in
      let (t, run, c) =
        consume_level-Consumed id side px hi (w.book.slab.capacity + 1) (A s i) (held_level i)
          (level-length k s i hi) word in
      let (l', settled, (touched, lev)) =
        settle_level-IsTouch i t.level hi k.narrow (k.touch s) was in
      (
        _,
        match_level-run id side w px (l.levels i) t l' (level_at-price_at w.book.band s l i hi) run
            settled,
        record {
          fills = c.fills;
          remaining = c.remaining;
          band = refl;
          map = c.map;
          free = c.free;
          book = IsBook-put s i t.level l' k c.held.stock touched lev;
          no_new_id = c.no_new_id;
        },
      )
