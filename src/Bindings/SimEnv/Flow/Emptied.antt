-- ===== src/Bindings/SimEnv/Flow/Emptied.antt =====
-- The cancels of `ResetInternal` empty the book.
use mathlib.Core.Path.{fun_ext}
use optimal_execution_platfo.Common.{
  ℕ, zero, suc, ◌+◌, ◌<◌, ◌≡◌, ◌≢◌, refl, sym, ap, ◌∙◌, arith, none, some, Bool, Returns, subst,
  List, [], ◌∷◌,
}
use optimal_execution_platfo.Core.Order.{Side}
use optimal_execution_platfo.Core.Level.Segment.{Queue}
use optimal_execution_platfo.Core.Ladder.{Band, width}
use optimal_execution_platfo.Core.Book.Stock.{Orders, All, IsEntry}
use optimal_execution_platfo.Core.Book.Invariant.{IsBook}
use optimal_execution_platfo.Core.Book.{Book}
use optimal_execution_platfo.Exec.Publisher.{Publisher, publish_cancel}
use optimal_execution_platfo.Exec.Publisher.Held.{IsSmall, Absent, Tracks}
use optimal_execution_platfo.Exec.Publisher.Tracked.{publish_cancel-Tracks}
use optimal_execution_platfo.Bindings.SimEnv.Flow.{Market, cancel_ids, cancel_resting}
use optimal_execution_platfo.Bindings.SimEnv.Flow.Kept.{Kept}

-- A sound book with no order in it.
pub record IsEmptied (b : Book) : Type 0 where
  pub orders : Orders
  pub free : List ℕ
  pub book : IsBook b orders (λ id. none) free
  pub small : IsSmall b.band
  pub none_rests : (side : Side) (i : ℕ) → i < width b.band → orders side i ≡ []

no_entry :
    (band : Band) (capacity : ℕ) (side : Side) (i : ℕ) (xs : Queue)
    → All (IsEntry band capacity (λ id. none) side i) xs
    → xs ≡ []
no_entry band capacity side i [] h = refl
no_entry band capacity side i ((p, r) ∷ xs) (e, h) = absurd (cc e.known)

-- Without an id in the vector nothing rests.
Tracks-IsEmptied : (a : ℕ → ℕ) (next : ℕ) (b : Book) → Tracks a 0 next b → IsEmptied b
Tracks-IsEmptied a next b t =
    let none_known : t.map ≡ (λ id. none) =
      fun_ext (λ id. t.tracked id (λ i h e. absurd (omega arith))) in
    let k : IsBook b t.orders (λ id. none) t.free =
      subst (λ f. IsBook b t.orders f t.free) none_known t.book in
    record {
      orders = t.orders;
      free = t.free;
      book = k;
      small = t.small;
      none_rests = λ side i h.
          no_entry b.band b.slab.capacity side i (t.orders side i) (k.stock.entries side i h);
    }

IsEmptied-Tracks : (a : ℕ → ℕ) (next : ℕ) (b : Book) → IsEmptied b → Tracks a 0 next b
IsEmptied-Tracks a next b k = record {
  orders = k.orders;
  map = λ id. none;
  free = k.free;
  book = k.book;
  small = k.small;
  tracked = λ id h. refl;
  fresh = λ id h. refl;
}

-- What the ids from index `i` on miss, when the one at `i` was cancelled.
Absent-front :
    (ids : ℕ → ℕ) (i n j : ℕ)
    → j ≢ ids i
    → Absent (λ k. ids (i + 1 + k)) n j
    → Absent (λ k. ids (i + k)) (suc n) j
Absent-front ids i n j ne h zero hk e = ne (sym e ∙ ap ids (omega arith))
Absent-front ids i n j ne h (suc k) hk e = h k (omega arith) (ap ids (omega arith) ∙ e)

module _ (clock : ℕ → ℕ) where
  cancel_ids-step :
      (n i : ℕ) (ids : ℕ → ℕ) (p : Publisher) (out : Bool × Publisher)
      → publish_cancel clock p (ids i) ≡ some out
      → cancel_ids clock (suc n) i ids p ≡ cancel_ids clock n (i + 1) ids out.1
  unfolding cancel_ids
  cancel_ids-step n i ids p out e = rw e

  cancel_ids-IsEmptied :
      (n i next : ℕ) (ids : ℕ → ℕ) (p : Publisher)
      → Tracks (λ k. ids (i + k)) n next p.book
      → Returns (cancel_ids clock n i ids p) λ p'. IsEmptied p'.book
  unfolding cancel_ids
  cancel_ids-IsEmptied zero i next ids p t =
      (p, refl, Tracks-IsEmptied (λ k. ids (i + k)) next p.book t)
  cancel_ids-IsEmptied (suc n) i next ids p t =
      let (out, run, t') =
        publish_cancel-Tracks clock (λ k. ids (i + k)) (λ k. ids (i + 1 + k)) (suc n) n next p
          (ids i) t (Absent-front ids i n) in
      let (p', run', k) = cancel_ids-IsEmptied n (i + 1) next ids out.1 t' in
      (p', cancel_ids-step n i ids p out run ∙ run', k)

  -- `ResetInternal` empties the book, and so its ids may start from 1 again.
  pub cancel_resting-Kept :
      (given : ℕ) (m : Market)
      → Kept given m
      → Returns (cancel_resting clock m) λ m'. IsEmptied m'.publisher.book × Kept 0 m'
  unfolding cancel_resting
  cancel_resting-Kept given m k =
      let from_start : (λ j. m.resting_ids (0 + j)) ≡ m.resting_ids =
        fun_ext (λ j. ap m.resting_ids (omega arith)) in
      let (p, run, empty) =
        cancel_ids-IsEmptied m.resting_count 0 m.next_id m.resting_ids m.publisher (
          subst (λ a. Tracks a m.resting_count m.next_id m.publisher.book) (sym from_start)
            k.tracks) in
      (
        record m { publisher = p; resting_count = 0; bg_count = 0; bg_head = 0; next_id = 1 },
        rw run,
        (
          empty,
          record { tracks = IsEmptied-Tracks m.resting_ids 1 p.book empty; few = omega arith },
        ),
      )
