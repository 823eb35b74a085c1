-- ===== src/Core/Book/Rest.antt =====
-- `Rest` on every branch.
use optimal_execution_platfo.Common.{
  ℕ, ◌+◌, ◌<◌, ◌≡◌, ◌≢◌, refl, sym, ap, ◌∙◌, inl, inr, Option, none, some, Bool, true, false,
  if◌then◌else◌, u64_mod, List, [], ◌∷◌, ◌++◌, arith, subst, update, Returns, Bool-cases,
}
use optimal_execution_platfo.Common.Slots.{has}
use optimal_execution_platfo.Core.Slab.{Slab, allocate, construct}
use optimal_execution_platfo.Core.Slab.FreeList.{IsFree, allocate-Allocated}
use optimal_execution_platfo.Core.IdIndex.{IdIndex, insert_id}
use optimal_execution_platfo.Core.IdIndex.Table.{Models}
use optimal_execution_platfo.Core.IdIndex.Probe.{insert_id-Models}
use optimal_execution_platfo.Core.Order.{Side, Order, Resting, order_of, Memory}
use optimal_execution_platfo.Core.Level.{LevelFifo, is_empty, push_back_to_level}
use optimal_execution_platfo.Core.Level.Segment.{holds}
use optimal_execution_platfo.Core.Level.Queue.{push_back_to_level-IsQueue}
use optimal_execution_platfo.Core.Ladder.{
  Band, Ladder, width, in_band, idx, level_at, put_level, mark_level_live,
}
use optimal_execution_platfo.Core.Ladder.Price.{price_at, price_at-idx, idx-lt}
use optimal_execution_platfo.Core.Ladder.Scan.{level_at-price_at}
use optimal_execution_platfo.Core.Ladder.Touch.{
  IsTouch, put_level-price_at, keep-IsTouch, mark_level_live-IsTouch,
}
use optimal_execution_platfo.Core.Book.{Book, put_ladder, rest, rest_at, rest_in}
use optimal_execution_platfo.Core.Book.Place.{change}
use optimal_execution_platfo.Core.Book.Stock.{Orders, IsQueue-frame, Threads-frame, not_free}
use optimal_execution_platfo.Core.Book.Entries.{ne_of_holds}
use optimal_execution_platfo.Core.Book.Arrival.{add-IsStock}
use optimal_execution_platfo.Core.Slab.Lifecycle.{
  construct-IsFree, construct_self, construct_other, construct_capacity, construct_in_use,
}
use optimal_execution_platfo.Core.Book.Invariant.{
  IsBook, is_empty-is_nil, is_nil-append, IsBook-put,
}
use optimal_execution_platfo.Core.Book.Release.{index_room}

-- What `Rest` does with a price in the band, at index `i`, when these slots are free.
abbrev pub Rested : Book → Orders → (ℕ → Option ℕ) → Resting → ℕ → List ℕ → Bool × Book → Type 0
Rested b A f r i [] (ok, b') = (ok ≡ false) × (b' ≡ b)
Rested b A f r i (p ∷ free) (ok, b') =
    (ok ≡ true)
    × IsBook b' (change A r.side i (A r.side i ++ (p, r) ∷ [])) (update f r.id (some p)) free
    × (b'.band ≡ b.band)

-- The same for every price.
abbrev pub RestOutcome : Book → Orders → (ℕ → Option ℕ) → Resting → List ℕ → Bool × Book → Type 0
RestOutcome b A f r free out =
    if in_band b.band r.price
    then Rested b A f r (idx b.band r.price) free out
    else (out ≡ (false, b))

rest_at-step :
    (b : Book) (slab : Slab Order) (p : ℕ) (r : Resting) (lvl lvl' : LevelFifo) (mem : Memory)
    (ids : IdIndex)
    → level_at b.band (b.ladders r.side) r.price ≡ some lvl
    → push_back_to_level (construct slab p (order_of r none none)).storage lvl p ≡ some (mem, lvl')
    → insert_id b.id_index r.id p ≡ some ids
    → rest_at b slab p r ≡ (
        let l = put_level b.band (b.ladders r.side) r.price lvl' in
        some (record b {
          slab = record (construct slab p (order_of r none none)) { storage = mem };
          ladders =
              put_ladder b.ladders r.side
                (if is_empty lvl then mark_level_live r.side r.price l else l);
          id_index = ids;
        }))
unfolding rest_at
rest_at-step b slab p r lvl lvl' mem ids e₀ e₁ e₂ = rw (e₀, e₁, e₂)

rest-step :
    (b : Book) (r : Resting) (p : Option ℕ) (slab : Slab Order)
    → in_band b.band r.price ≡ true
    → allocate b.slab ≡ some (p, slab)
    → rest b r ≡ rest_in b slab p r
unfolding rest
rest-step b r p slab e₀ e₁ = rw (e₀, e₁)

rest_in-step :
    (b : Book) (slab : Slab Order) (p : ℕ) (r : Resting) (b' : Book)
    → rest_at b slab p r ≡ some b'
    → rest_in b slab (some p) r ≡ some (true, b')
rest_in-step b slab p r b' e = rw e

-- The touch after an order came to rest at a level.
live_level-IsTouch :
    {band : Band} {side : Side} {l : Ladder} (i : ℕ) (lvl : LevelFifo)
    → i < width band
    → width band < u64_mod
    → IsTouch band side l
    → is_empty lvl ≡ false
    → let put = put_level band l (price_at band i) lvl in
      let l' = if is_empty (l.levels i) then mark_level_live side (price_at band i) put else put in
      IsTouch band side l' × (l'.levels ≡ update l.levels i lvl)
unfolding mark_level_live
live_level-IsTouch {band} {side} {l} i lvl hi narrow t full =
    elim (Bool-cases (is_empty (l.levels i))) [
      | inl was ↦
          rw (put_level-price_at, was)
            (mark_level_live-IsTouch i lvl hi t narrow (rw was refl) full, refl)
      | inr was ↦ rw (put_level-price_at, was) (keep-IsTouch i lvl hi t (rw (was, full) refl), refl)
    ]

module _ {b : Book} {A : Orders} {f : ℕ → Option ℕ} {p : ℕ} {free : List ℕ}
    (k : IsBook b A f (p ∷ free)) (i : ℕ) (hi : i < width b.band) (s : Side) where
  -- A free slot is in no queue.
  free_out : holds p (A s i) ≡ false
  free_out = elim (Bool-cases (holds p (A s i))) [
    | inr e ↦ e
    | inl e ↦ absurd (ground (arith, not_free k.stock s i p hi e))
  ]

  -- The free list after the new order was linked to its queue.
  free_linked :
      (slab : Slab Order) (mem : Memory)
      → IsFree slab free
      → has p free ≡ false
      → ((q : ℕ) → holds q (A s i) ≡ false → q ≢ p → mem q ≡ slab.storage q)
      → IsFree (record slab { storage = mem }) free
  free_linked slab mem v out same = record {
    threads =
        Threads-frame slab.storage mem slab.free_head free
          (λ q h. elim (Bool-cases (holds q (A s i))) [
            | inl e ↦ absurd (ground (arith, not_free k.stock s i q hi e))
            | inr e ↦ same q e (λ e'. cc (h, out, ap (λ j. has j free) e'))
          ])
          v.threads;
    distinct = v.distinct;
    below = v.below;
    counted = v.counted;
  }

module _ {b : Book} {A : Orders} {f : ℕ → Option ℕ} {p : ℕ} {free : List ℕ}
    (k : IsBook b A f (p ∷ free)) where
  rest_at-IsBook :
      (slab : Slab Order) (r : Resting) (i : ℕ)
      → i < width b.band
      → r.price ≡ price_at b.band i
      → 0 < r.qty
      → r.qty < u64_mod
      → f r.id ≡ none
      → IsFree slab free
      → has p free ≡ false
      → slab.in_use ≡ b.slab.in_use + 1
      → slab.capacity ≡ b.slab.capacity
      → slab.storage ≡ b.slab.storage
      → Returns (rest_at b slab p r) λ b'.
        IsBook b' (change A r.side i (A r.side i ++ (p, r) ∷ [])) (update f r.id (some p)) free
        × (b'.band ≡ b.band)
  rest_at-IsBook slab r i hi price pos word fresh v out used fits same =
      let s = r.side in
      let l = b.ladders s in
      let lvl = l.levels i in
      let o = order_of r none none in
      let slab₁ = construct slab p o in
      let xs = A s i in
      let apart = free_out k i hi s in
      let written : (q : ℕ) → q ≢ p → slab₁.storage q ≡ b.slab.storage q =
        λ q ne. construct_other slab p o q ne ∙ ap (λ m. m q) same in
      let v₁ =
        IsQueue-frame xs (k.stock.queues s i hi) (λ q h. written q (ne_of_holds q p xs h apart)) in
      let ((mem, lvl'), run, (v₂, kept)) =
        push_back_to_level-IsQueue slab₁.storage lvl p r none none xs v₁ (construct_self slab p o)
          apart word in
      let (ids, run', (m, indexed)) =
        insert_id-Models k.stock.index r.id p fresh (index_room k.stock) in
      let full = is_empty-is_nil (xs ++ (p, r) ∷ []) v₂ ∙ is_nil-append xs (p, r) [] in
      let (t, lev) = live_level-IsTouch i lvl' hi k.narrow (k.touch s) full in
      let st =
        add-IsStock k.stock s i hi r (record slab₁ { storage = mem }) lvl' ids v₂
          (λ q h g. kept q h (ground (arith, g)) ∙ written q (ground (arith, g)))
          (free_linked k i hi s slab₁ mem (construct-IsFree p free o v out) out kept)
          (construct_capacity slab p o ∙ fits)
          (subst (Models ids (update f r.id (some p))) (sym (construct_in_use slab p o ∙ used)) m)
          indexed fresh refl price pos in
      (
        _,
        rest_at-step b slab p r lvl lvl' mem ids
            (ap (level_at b.band l) price ∙ level_at-price_at b.band s l i hi) run run',
        (
          IsBook-put s i lvl' _ k st
              (subst
                (λ px.
                  let put = put_level b.band l px lvl' in
                  IsTouch b.band s (if is_empty lvl then mark_level_live s px put else put))
                (sym price) t)
              (subst
                (λ px.
                  let put = put_level b.band l px lvl' in
                  (if is_empty lvl then mark_level_live s px put else put).levels
                  ≡ update l.levels i lvl')
                (sym price) lev),
          refl,
        ),
      )

module _ {b : Book} {A : Orders} {f : ℕ → Option ℕ} where
  rest_in_band :
      (free : List ℕ) (r : Resting)
      → IsBook b A f free
      → 0 < r.qty
      → r.qty < u64_mod
      → f r.id ≡ none
      → in_band b.band r.price ≡ true
      → Returns (rest b r) (Rested b A f r (idx b.band r.price) free)
  rest_in_band [] r k pos word fresh e =
      let ((q, slab), run, (eq, same, _)) = allocate-Allocated [] k.stock.free_slots in
      (
        (false, record b { slab = slab }),
        rest-step b r q slab e run ∙ ap (λ q. rest_in b slab q r) eq,
        (refl, ap (λ slab. record b { slab = slab }) same),
      )
  rest_in_band (p ∷ free) r k pos word fresh e =
      let ((q, slab), run, (eq, v, out, _, used, fits, same)) =
        allocate-Allocated (p ∷ free) k.stock.free_slots in
      let (b', ran, (k', same_band)) =
        rest_at-IsBook k slab r (idx b.band r.price) (idx-lt b.band r.price e)
          (sym (price_at-idx b.band r.price e)) pos word fresh v out used fits same in
      (
        (true, b'),
        rest-step b r q slab e run
            ∙ ap (λ q. rest_in b slab q r) eq
            ∙ rest_in-step b slab p r b' ran,
        (refl, k', same_band),
      )

  -- `Rest` of an order with a new id and a quantity from 1 to 2^64 - 1 ends normally. A price outside
  -- the band is refused, and so is every order when no slot is free, and the book stays as it is.
  -- Otherwise the order becomes the last
  -- of the queue at its price, in the first free slot, the id index leads to it, and the invariant, with
  -- its best prices, holds again, over the same band.
  pub rest-IsBook :
      (free : List ℕ) (r : Resting)
      → IsBook b A f free
      → 0 < r.qty
      → r.qty < u64_mod
      → f r.id ≡ none
      → Returns (rest b r) (RestOutcome b A f r free)
  unfolding rest
  rest-IsBook free r k pos word fresh = elim (Bool-cases (in_band b.band r.price)) [
    | inr e ↦ ((false, b), rw e, rw e refl)
    | inl e ↦
        let (out, run, q) = rest_in_band free r k pos word fresh e in
        (
          out,
          run,
          subst
              (λ t. if t then Rested b A f r (idx b.band r.price) free out else (out ≡ (false, b)))
              (sym e) q,
        )
  ]
