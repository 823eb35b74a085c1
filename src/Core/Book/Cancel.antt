-- ===== src/Core/Book/Cancel.antt =====
-- `Cancel` on every branch.
use optimal_execution_platfo.Common.{
  ℕ, ◌-◌, ◌<◌, ◌≡◌, refl, sym, ap, ◌∙◌, inl, inr, Option, none, some, true, false, not, List, ◌∷◌,
  ◌++◌, subst, Returns, Option-cases,
}
use optimal_execution_platfo.Core.Slab.{Slab, live, deallocate}
use optimal_execution_platfo.Core.IdIndex.{IdIndex, lookup_and_erase_id}
use optimal_execution_platfo.Core.IdIndex.Table.{Models}
use optimal_execution_platfo.Core.IdIndex.Erase.{
  forget, held, lookup_and_erase_id-Erased, lookup_and_erase_id_absent,
}
use optimal_execution_platfo.Core.Order.{Order, Resting, order_of, Memory}
use optimal_execution_platfo.Core.Level.{LevelFifo, unlink_from_level}
use optimal_execution_platfo.Core.Level.Segment.{Queue, holds, Seg-split}
use optimal_execution_platfo.Core.Level.Queue.{IsQueue, unlink_from_level-IsQueue}
use optimal_execution_platfo.Core.Ladder.{Ladder, width, level_at, put_level}
use optimal_execution_platfo.Core.Ladder.Price.{price_at}
use optimal_execution_platfo.Core.Ladder.Scan.{populated, level_at-price_at}
use optimal_execution_platfo.Core.Book.{Book, put_ladder, settle_level, cancel, cancel_at}
use optimal_execution_platfo.Core.Book.Place.{change}
use optimal_execution_platfo.Core.Book.Stock.{Orders, IsEntry, All}
use optimal_execution_platfo.Core.Book.Entries.{All-split, Has-split}
use optimal_execution_platfo.Core.Book.Invariant.{
  IsBook, is_empty-is_nil, is_nil-append, IsBook-put, settle_level-IsTouch,
}
use optimal_execution_platfo.Core.Book.Release.{index_room, release-IsStock}

-- What `Cancel` does when the map of the id index says this of the id.
abbrev pub Cancelled :
    Book → Orders → (ℕ → Option ℕ) → List ℕ → ℕ → Option ℕ → Option Resting × Book → Type 0
Cancelled b A f free id none (told, b') = (told ≡ none) × (b' ≡ b)
Cancelled b A f free id (some p) (told, b') =
    (i : ℕ) × (r : Resting) × (ys : Queue) × (zs : Queue) × (i < width b.band)
    × (A r.side i ≡ ys ++ (p, r) ∷ zs)
    × (r.id ≡ id)
    × (r.price ≡ price_at b.band i)
    × (told ≡ some r)
    × IsBook b' (change A r.side i (ys ++ zs)) (forget f id) (p ∷ free)
    × (b'.band ≡ b.band)

cancel_at-step :
    (b : Book) (ids : IdIndex) (p : ℕ) (r : Resting) (prev next : Option ℕ) (lvl lvl' : LevelFifo)
    (mem : Memory) (l' : Ladder) (slab : Slab Order)
    → b.slab.storage p ≡ live (order_of r prev next)
    → level_at b.band (b.ladders r.side) r.price ≡ some lvl
    → unlink_from_level b.slab.storage lvl p ≡ some (mem, lvl')
    → settle_level b.band r.side r.price lvl' (put_level b.band (b.ladders r.side) r.price lvl')
      ≡ some l'
    → deallocate (record b.slab { storage = mem }) p ≡ some slab
    → cancel_at b ids p
      ≡ some (r, record b { slab = slab; ladders = put_ladder b.ladders r.side l'; id_index = ids })
unfolding cancel_at
cancel_at-step b ids p r prev next lvl lvl' mem l' slab e₀ e₁ e₂ e₃ e₄ = rw (e₀, e₁, e₂, e₃, e₄)

cancel-step :
    (b : Book) (id p : ℕ) (ids : IdIndex) (r : Resting) (b' : Book)
    → lookup_and_erase_id b.id_index id ≡ some (some p, ids)
    → cancel_at b ids p ≡ some (r, b')
    → cancel b id ≡ some (some r, b')
unfolding cancel
cancel-step b id p ids r b' e₀ e₁ = rw (e₀, e₁)

module _ {b : Book} {A : Orders} {f : ℕ → Option ℕ} {free : List ℕ} (k : IsBook b A f free) where
  -- The place of an order by the side and price that it carries itself.
  own_place :
      (id p : ℕ)
      → f id ≡ some p
      → (i : ℕ) × (r : Resting) × (ys : Queue) × (zs : Queue) × (i < width b.band)
        × (A r.side i ≡ ys ++ (p, r) ∷ zs)
        × (r.id ≡ id)
        × (r.price ≡ price_at b.band i)
  own_place id p h =
      let w = k.stock.named id p h in
      let (ys, zs, at) = Has-split p w.order (A w.side w.index) w.queued in
      let E = IsEntry b.band b.slab.capacity f w.side w.index in
      let (_, (e, _)) =
        All-split E ys ((p, w.order) ∷ zs)
          (subst (All E) at (k.stock.entries w.side w.index w.in_band)) in
      (
        w.index,
        w.order,
        ys,
        zs,
        w.in_band,
        subst (λ s. A s w.index ≡ ys ++ (p, w.order) ∷ zs) (sym e.same_side) at,
        w.same_id,
        e.at_price,
      )

  cancel_at-IsBook :
      (i p : ℕ) (r : Resting) (ys zs : Queue) (ids : IdIndex)
      → i < width b.band
      → A r.side i ≡ ys ++ (p, r) ∷ zs
      → r.price ≡ price_at b.band i
      → Models ids (forget f r.id) (b.slab.in_use - 1)
      → ids.capacity ≡ b.id_index.capacity
      → Returns (cancel_at b ids p) λ (r', b').
        (r' ≡ r)
        × IsBook b' (change A r.side i (ys ++ zs)) (forget f r.id) (p ∷ free)
        × (b'.band ≡ b.band)
  cancel_at-IsBook i p r ys zs ids hi at price m indexed =
      let s = r.side in
      let l = b.ladders s in
      let lvl = l.levels i in
      let v = k.stock.queues s i hi in
      let v₀ = subst (IsQueue b.slab.storage lvl) at v in
      let (mid, cur, _, (next, _, here, _)) =
        Seg-split b.slab.storage none lvl.head lvl.tail none ys ((p, r) ∷ zs) v₀.linked in
      let ((mem, lvl'), run, (v', same)) =
        unlink_from_level-IsQueue b.slab.storage lvl p r ys zs v₀ in
      let was : populated l i ≡ true =
        ap not (is_empty-is_nil (ys ++ (p, r) ∷ zs) v₀ ∙ is_nil-append ys (p, r) zs) in
      let (l', settled, (t, lev)) = settle_level-IsTouch i lvl' hi k.narrow (k.touch s) was in
      let (slab', freed, (st, _)) =
        release-IsStock k.stock s i hi p r ys zs mem lvl' ids at v'
          (λ q h. same q (subst (λ xs. holds q xs ≡ false) at h)) m indexed in
      (
        (r, record b { slab = slab'; ladders = put_ladder b.ladders s l'; id_index = ids }),
        cancel_at-step b ids p r mid next lvl lvl' mem l' slab' here
            (ap (level_at b.band l) price ∙ level_at-price_at b.band s l i hi) run
            (subst (λ px. settle_level b.band s px lvl' (put_level b.band l px lvl') ≡ some l')
              (sym price) settled)
            freed,
        (refl, IsBook-put s i lvl' l' k st t lev, refl),
      )

  -- `Cancel` ends normally on every book that satisfies the invariant. An id that does not rest in
  -- the book is refused, and the book stays as it is. An id that rests there is told to `on_cancel`
  -- with its side, price and remaining quantity; the order leaves its queue, the id index and the
  -- slab, the other orders keep their places, and the invariant, with its best prices, holds again, over the
  -- same band.
  pub cancel-IsBook : (id : ℕ) → Returns (cancel b id) (Cancelled b A f free id (f id))
  unfolding cancel
  cancel-IsBook id = elim (Option-cases (f id)) [
    | inl e ↦ (
      (none, b),
      rw (lookup_and_erase_id_absent k.stock.index id e),
      subst (λ o. Cancelled b A f free id o (none, b)) (sym e) (refl, refl),
    )
    | inr (p, e) ↦
        let (i, r, ys, zs, hi, at, same, price) = own_place id p e in
        let ((q, ids), run, (eq, m, indexed)) =
          lookup_and_erase_id-Erased k.stock.index id (index_room k.stock) in
        let run' : lookup_and_erase_id b.id_index id ≡ some (some p, ids) =
          run ∙ ap (λ q. some (q, ids)) (eq ∙ e) in
        let m' : Models ids (forget f r.id) (b.slab.in_use - 1) =
          subst (λ j. Models ids (forget f j) (b.slab.in_use - 1)) (sym same)
            (subst (λ q. Models ids (forget f id) (b.slab.in_use - held q)) e m) in
        let ((r', b'), ran, (er, k', same_band)) =
          cancel_at-IsBook i p r ys zs ids hi at price m' indexed in
        (
          (some r, b'),
          cancel-step b id p ids r b' run' (ran ∙ ap (λ r. some (r, b')) er),
          subst (λ o. Cancelled b A f free id o (some r, b')) (sym e)
              (
                i,
                r,
                ys,
                zs,
                hi,
                at,
                same,
                price,
                refl,
                subst (λ j. IsBook b' (change A r.side i (ys ++ zs)) (forget f j) (p ∷ free)) same
                    k',
                same_band,
              ),
        )
  ]
