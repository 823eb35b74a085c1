-- ===== src/Core/Book/Invariant.antt =====
-- The invariant of the book: its orders are well stocked, and its best prices are right.
use optimal_execution_platfo.Common.{
  ℕ, ◌<◌, ◌≡◌, refl, sym, inl, inr, Option, Bool, true, false, u64_mod, List, [], ◌∷◌, ◌++◌, arith,
  subst, update, Returns, Bool-cases,
}
use optimal_execution_platfo.Core.Slab.{Slab}
use optimal_execution_platfo.Core.IdIndex.{IdIndex}
use optimal_execution_platfo.Core.Order.{Side, Order, Resting, Memory}
use optimal_execution_platfo.Core.Level.{LevelFifo, is_empty}
use optimal_execution_platfo.Core.Level.Segment.{Queue}
use optimal_execution_platfo.Core.Level.Queue.{IsQueue}
use optimal_execution_platfo.Core.Ladder.{Band, Ladder, width, put_level}
use optimal_execution_platfo.Core.Ladder.Price.{price_at}
use optimal_execution_platfo.Core.Ladder.Scan.{populated}
use optimal_execution_platfo.Core.Ladder.Touch.{
  IsTouch, with_level, put_level-price_at, keep-IsTouch, mark_level_emptied-IsTouch,
}
use optimal_execution_platfo.Core.Book.{Book, put_ladder, settle_level}
use optimal_execution_platfo.Core.Book.Place.{
  change, side-cases, levels_of, levels_of-put_ladder, put_ladder_self, put_ladder_other,
}
use optimal_execution_platfo.Core.Book.Stock.{Orders, IsStock}

-- The book holds the orders `A`; `f` is the map of its id index, and `free` its free slots.
pub record IsBook (b : Book) (A : Orders) (f : ℕ → Option ℕ) (free : List ℕ) : Type 0 where
  pub stock : IsStock b.band b.slab (levels_of b.ladders) b.id_index A f free
  pub touch : (side : Side) → IsTouch b.band side (b.ladders side)
  pub narrow : width b.band < u64_mod

abbrev pub is_nil : Queue → Bool
is_nil [] = true
is_nil (x ∷ xs) = false

pub is_empty-is_nil :
    {mem : Memory} {lvl : LevelFifo} (xs : Queue) → IsQueue mem lvl xs → is_empty lvl ≡ is_nil xs
is_empty-is_nil [] v = ground (arith, v.linked.0)
is_empty-is_nil ((p, r) ∷ xs) v = let (next, c, _, _) = v.linked in ground (arith, c)

pub is_nil-append : (ys : Queue) (x : ℕ × Resting) (zs : Queue) → is_nil (ys ++ x ∷ zs) ≡ false
is_nil-append [] x zs = refl
is_nil-append (y ∷ ys) x zs = refl

-- The touch after one ladder was replaced.
pub IsTouch-put_ladder :
    {band : Band} (ladders : Side → Ladder) (s : Side) (l : Ladder)
    → ((side : Side) → IsTouch band side (ladders side))
    → IsTouch band s l
    → (side : Side) → IsTouch band side (put_ladder ladders s l side)
IsTouch-put_ladder {band} ladders s l t t' side = elim (side-cases s side) [
  | inl same ↦
      subst (λ side. IsTouch band side (put_ladder ladders s l side)) same
        (subst (IsTouch band s) (sym (put_ladder_self ladders s l)) t')
  | inr ne ↦ subst (IsTouch band side) (sym (put_ladder_other ladders s l side ne)) (t side)
]

-- A book with a changed level is a book, if the stock is right and the touch of its side is.
pub IsBook-put :
    {b : Book} {A A' : Orders} {f f' : ℕ → Option ℕ} {free free' : List ℕ} {slab : Slab Order}
    {ids : IdIndex} (s : Side) (i : ℕ) (lvl : LevelFifo) (l : Ladder)
    → IsBook b A f free
    → IsStock b.band slab (change (levels_of b.ladders) s i lvl) ids A' f' free'
    → IsTouch b.band s l
    → l.levels ≡ update (b.ladders s).levels i lvl
    → IsBook
        (record b { slab = slab; ladders = put_ladder b.ladders s l; id_index = ids })
        A'
        f'
        free'
IsBook-put {b} {A'} {f'} {free'} {slab} {ids} s i lvl l k st t e = record {
  stock =
      subst (λ levels. IsStock b.band slab levels ids A' f' free')
        (sym (levels_of-put_ladder b.ladders s i lvl l e)) st;
  touch = IsTouch-put_ladder b.ladders s l k.touch t;
  narrow = k.narrow;
}

-- The repair of the touch after orders left a populated level.
pub settle_level-IsTouch :
    {band : Band} {side : Side} {l : Ladder} (i : ℕ) (lvl : LevelFifo)
    → i < width band
    → width band < u64_mod
    → IsTouch band side l
    → populated l i ≡ true
    → Returns
        (settle_level band side (price_at band i) lvl (put_level band l (price_at band i) lvl))
        λ l'. IsTouch band side l' × (l'.levels ≡ update l.levels i lvl)
unfolding settle_level
settle_level-IsTouch {band} {side} {l} i lvl hi narrow t was = elim (Bool-cases (is_empty lvl)) [
  | inr full ↦ (
    with_level l i lvl,
    rw (put_level-price_at, full),
    (keep-IsTouch i lvl hi t (rw full was), refl),
  )
  | inl gone ↦
      let (l', run, q) = mark_level_emptied-IsTouch i lvl hi t narrow was gone in
      (l', rw (put_level-price_at, gone) run, q)
]
