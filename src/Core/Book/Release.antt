-- ===== src/Core/Book/Release.antt =====
-- An order that left its queue gives back its slot.
use optimal_execution_platfo.Common.{
  ℕ, ◌-◌, ◌<◌, ◌≡◌, sym, ◌∙◌, inl, inr, Option, true, false, List, ◌∷◌, ◌++◌, arith, subst, Returns,
  Bool-cases,
}
use optimal_execution_platfo.Core.Slab.{Slab, deallocate}
use optimal_execution_platfo.Core.Slab.FreeList.{IsFree, deallocate-IsFree}
use optimal_execution_platfo.Core.IdIndex.{IdIndex}
use optimal_execution_platfo.Core.IdIndex.Table.{Models}
use optimal_execution_platfo.Core.IdIndex.Erase.{forget}
use optimal_execution_platfo.Core.Order.{Side, Order, Resting, Memory}
use optimal_execution_platfo.Core.Level.{LevelFifo}
use optimal_execution_platfo.Core.Level.Segment.{Queue, holds, AllApart}
use optimal_execution_platfo.Core.Level.Queue.{IsQueue, holds-append, AllApart-split}
use optimal_execution_platfo.Core.Ladder.{Band, width}
use optimal_execution_platfo.Core.Book.Place.{change}
use optimal_execution_platfo.Core.Book.Stock.{
  Orders, IsStock, IsQueue-frame, Threads-frame, not_free, found,
}
use optimal_execution_platfo.Core.Book.Entries.{ne_of_holds}
use optimal_execution_platfo.Core.Book.Change.{remove-IsStock}

holds_middle : (p : ℕ) (r : Resting) (ys zs xs : Queue) → xs ≡ ys ++ (p, r) ∷ zs → holds p xs ≡ true
holds_middle p r ys zs xs e =
    subst (λ xs. holds p xs ≡ true) (sym e) (ground (arith, holds-append p ys ((p, r) ∷ zs)))

not_middle :
    (p : ℕ) (r : Resting) (ys zs : Queue)
    → AllApart (ys ++ (p, r) ∷ zs)
    → holds p (ys ++ zs) ≡ false
not_middle p r ys zs apart =
    let (_, (out, _), disjoint) = AllApart-split ys ((p, r) ∷ zs) apart in
    elim (Bool-cases (holds p ys)) [
      | inl e ↦ absurd (ground (arith, disjoint p e))
      | inr e ↦ holds-append p ys zs ∙ ground arith
    ]

module _ {band : Band} {slab : Slab Order} {levels : Side → ℕ → LevelFifo} {ids : IdIndex}
    {A : Orders} {f : ℕ → Option ℕ} {free : List ℕ}
    (st : IsStock band slab levels ids A f free) where
  -- The orders are fewer than the slots of the id index.
  pub index_room : slab.in_use < ids.capacity
  index_room = omega (arith, st.room, st.free_slots.counted)

module _ {band : Band} {slab : Slab Order} {levels : Side → ℕ → LevelFifo} {ids : IdIndex}
    {A : Orders} {f : ℕ → Option ℕ} {free : List ℕ} (st : IsStock band slab levels ids A f free)
    (s : Side) (i : ℕ) (hi : i < width band) where
  -- The free list survives writes to the slots of one queue.
  pub free_after :
      (mem : Memory)
      → ((q : ℕ) → holds q (A s i) ≡ false → mem q ≡ slab.storage q)
      → IsFree (record slab { storage = mem }) free
  free_after mem same = record {
    threads =
        Threads-frame slab.storage mem slab.free_head free
          (λ q h. elim (Bool-cases (holds q (A s i))) [
            | inl e ↦ absurd (cc (h, not_free st s i q hi e))
            | inr e ↦ same q e
          ])
          st.free_slots.threads;
    distinct = st.free_slots.distinct;
    below = st.free_slots.below;
    counted = st.free_slots.counted;
  }

  -- `Deallocate` of an order that was unlinked and erased from the id index.
  pub release-IsStock :
      (p : ℕ) (r : Resting) (ys zs : Queue) (mem : Memory) (lvl : LevelFifo) (ids' : IdIndex)
      → A s i ≡ ys ++ (p, r) ∷ zs
      → IsQueue mem lvl (ys ++ zs)
      → ((q : ℕ) → holds q (A s i) ≡ false → mem q ≡ slab.storage q)
      → Models ids' (forget f r.id) (slab.in_use - 1)
      → ids'.capacity ≡ ids.capacity
      → Returns (deallocate (record slab { storage = mem }) p) λ slab'.
        IsStock band slab'
          (change levels s i lvl)
          ids'
          (change A s i (ys ++ zs))
          (forget f r.id)
          (p ∷ free)
        × (slab'.capacity ≡ slab.capacity)
  release-IsStock p r ys zs mem lvl ids' at v same m indexed =
      let here = holds_middle p r ys zs (A s i) at in
      let there = found st s i p hi here in
      let (slab', run, (fs, used, fits, keep)) =
        deallocate-IsFree free p (free_after mem same) there.in_slab (not_free st s i p hi here) in
      let out = not_middle p r ys zs (subst AllApart at (st.queues s i hi).apart) in
      let v' = IsQueue-frame (ys ++ zs) v (λ q h. keep q (ne_of_holds q p (ys ++ zs) h out)) in
      let fewer : slab.in_use - 1 ≡ slab'.in_use = omega arith in
      (
        slab',
        run,
        (
          remove-IsStock st s i hi p r ys zs slab' lvl ids' at v'
              (λ q h g. keep q (λ e. ne_of_holds p q (A s i) here h (sym e)) ∙ same q h) fs fits
              (subst (Models ids' (forget f r.id)) fewer m) indexed,
          fits,
        ),
      )
