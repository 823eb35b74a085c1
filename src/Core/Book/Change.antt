-- ===== src/Core/Book/Change.antt =====
-- What a change at one place keeps of the rest of the book.
use optimal_execution_platfo.Common.{
  ℕ, ◌<◌, ◌≡◌, ◌≢◌, refl, sym, ap, ◌∙◌, inl, inr, Option, some, true, false, ◌&&◌, ◌==◌, List, ◌∷◌,
  ◌++◌, arith, subst, ℕ_discrete, Bool-cases,
}
use optimal_execution_platfo.Common.Slots.{has}
use optimal_execution_platfo.Core.Slab.{Slab}
use optimal_execution_platfo.Core.Slab.FreeList.{IsFree}
use optimal_execution_platfo.Core.IdIndex.{IdIndex}
use optimal_execution_platfo.Core.IdIndex.Table.{Models}
use optimal_execution_platfo.Core.IdIndex.Erase.{forget}
use optimal_execution_platfo.Core.Order.{Side, Order, Resting}
use optimal_execution_platfo.Core.Level.{LevelFifo}
use optimal_execution_platfo.Core.Level.Segment.{Queue, holds, AllApart}
use optimal_execution_platfo.Core.Level.Queue.{IsQueue, holds-append, AllApart-split}
use optimal_execution_platfo.Core.Ladder.{Band, width}
use optimal_execution_platfo.Core.Book.{same_side}
use optimal_execution_platfo.Core.Book.Place.{
  change, change-All, change_both, place-cases, change_self, change_other, same_side_self,
}
use optimal_execution_platfo.Core.Book.Stock.{
  Orders, IsEntry, All, Has, Stands, IsStock, IsQueue-frame, one_place, not_free,
}
use optimal_execution_platfo.Core.Book.Entries.{
  ne_of_holds, All-append, All-split, entries_under, Has-without,
}

-- One place is not another.
one_not_other :
    (s : Side) (i : ℕ) (s' : Side) (i' : ℕ)
    → (s ≡ s') × (i ≡ i')
    → (same_side s s' && (i == i')) ≢ false
one_not_other s i s' i' (e, e') h =
    let on : same_side s s' ≡ true = subst (λ t. same_side s t ≡ true) e (same_side_self s) in
    ground arith

-- An id that stands in the book still does if its queue keeps it.
pub Stands-change :
    {n : ℕ} (A : Orders) (s : Side) (i : ℕ) (xs : Queue)
    → i < n
    → (id q : ℕ) → Stands n A id q
    → ((o : Resting) → Has q o (A s i) → o.id ≡ id → (o' : Resting) × Has q o' xs × (o'.id ≡ id))
    → Stands n (change A s i xs) id q
Stands-change A s i xs hi id q w keep = elim (place-cases s i w.side w.index) [
  | inl (e, e') ↦
      let at : A w.side w.index ≡ A s i = sym (ap (λ t. A t i) e ∙ ap (A w.side) e') in
      let (o, has, same) = keep w.order (subst (Has q w.order) at w.queued) w.same_id in
      record {
        side = s;
        index = i;
        order = o;
        in_band = hi;
        queued = subst (Has q o) (sym (change_self A s i xs)) has;
        same_id = same;
      }
  | inr ne ↦ record {
    side = w.side;
    index = w.index;
    order = w.order;
    in_band = w.in_band;
    queued = subst (Has q w.order) (sym (change_other A s i xs w.side w.index ne)) w.queued;
    same_id = w.same_id;
  }
]

module _ {band : Band} {slab : Slab Order} {levels : Side → ℕ → LevelFifo} {ids : IdIndex}
    {A : Orders} {f : ℕ → Option ℕ} {free : List ℕ} (st : IsStock band slab levels ids A f free)
    (s : Side) (i : ℕ) (hi : i < width band) where
  -- A slot of another place is not one of this place.
  pub elsewhere :
      (s' : Side) (i' q : ℕ)
      → (same_side s s' && (i == i')) ≡ false
      → i' < width band
      → holds q (A s' i') ≡ true
      → holds q (A s i) ≡ false
  elsewhere s' i' q ne hi' h = elim (Bool-cases (holds q (A s i))) [
    | inr e ↦ e
    | inl e ↦ absurd (one_not_other s i s' i' (one_place st s i s' i' q hi hi' e h) ne)
  ]

  -- One order leaves its queue, the id index and the slab.
  pub remove-IsStock :
      (p : ℕ) (r : Resting) (ys zs : Queue) (slab' : Slab Order) (lvl : LevelFifo) (ids' : IdIndex)
      → A s i ≡ ys ++ (p, r) ∷ zs
      → IsQueue slab'.storage lvl (ys ++ zs)
      → ((q : ℕ) → holds q (A s i) ≡ false → has q free ≡ false → slab'.storage q ≡ slab.storage q)
      → IsFree slab' (p ∷ free)
      → slab'.capacity ≡ slab.capacity
      → Models ids' (forget f r.id) slab'.in_use
      → ids'.capacity ≡ ids.capacity
      → IsStock band slab'
          (change levels s i lvl)
          ids'
          (change A s i (ys ++ zs))
          (forget f r.id)
          (p ∷ free)
  remove-IsStock p r ys zs slab' lvl ids' at v same fs fits m indexed =
      let E = IsEntry band slab.capacity f s i in
      let es = subst (All E) at (st.entries s i hi) in
      let (ye, (pe, ze)) = All-split E ys ((p, r) ∷ zs) es in
      let apart = subst AllApart at (st.queues s i hi).apart in
      let (ya, (pz, za), disjoint) = AllApart-split ys ((p, r) ∷ zs) apart in
      let other : (q : ℕ) → q ≢ p → (id : ℕ) → f id ≡ some q → forget f r.id id ≡ some q =
        λ q ne id h. ground (arith, pe.known) in
      let here : holds p (A s i) ≡ true =
        subst (λ xs. holds p xs ≡ true) (sym at)
          (ground (arith, holds-append p ys ((p, r) ∷ zs))) in
      record {
        free_slots = fs;
        queues = λ s' i' hi'.
            change_both (λ s' i' l xs. i' < width band → IsQueue slab'.storage l xs) (λ h. v)
              (λ s' i' ne h.
                IsQueue-frame (A s' i') (st.queues s' i' h)
                  (λ q g. same q (elsewhere s' i' q ne h g) (not_free st s' i' q h g)))
              s' i' hi';
        entries = λ s' i' hi'.
            change-All
              (λ s' i' xs.
                i' < width band → All (IsEntry band slab'.capacity (forget f r.id) s' i') xs)
              (λ h.
                All-append (IsEntry band slab'.capacity (forget f r.id) s i) ys zs
                  (entries_under band s i ys fits
                    (λ id q g. other q (ground (arith, disjoint q g)) id) ye)
                  (entries_under band s i zs fits (λ id q g. other q (ne_of_holds q p zs g pz) id)
                    ze))
              (λ s' i' ne h.
                entries_under band s' i' (A s' i') fits
                  (λ id q g.
                    other q (λ e. ne_of_holds p q (A s i) here (elsewhere s' i' q ne h g) (sym e))
                      id)
                  (st.entries s' i' h))
              s' i' hi';
        named = λ id q h. elim (ℕ_discrete r.id id) [
          | yes same ↦ absurd (ground arith)
          | no ne ↦
              Stands-change A s i (ys ++ zs) hi id q (st.named id q (ground arith)) (λ o has same.
                elim (Has-without q o p r ys zs (subst (Has q o) at has)) [
                  | inl (_, e) ↦ absurd (ne (ap (λ r. r.id) e ∙ same))
                  | inr there ↦ (o, there, same)
                ])
        ];
        index = m;
        room = rw (fits, indexed) st.room;
      }

  -- The first order of a queue gives some of its quantity.
  pub amend-IsStock :
      (p : ℕ) (r r' : Resting) (zs : Queue) (slab' : Slab Order) (lvl : LevelFifo)
      → A s i ≡ (p, r) ∷ zs
      → IsQueue slab'.storage lvl ((p, r') ∷ zs)
      → ((q : ℕ) → holds q (A s i) ≡ false → slab'.storage q ≡ slab.storage q)
      → IsFree slab' free
      → slab'.capacity ≡ slab.capacity
      → slab'.in_use ≡ slab.in_use
      → r'.id ≡ r.id
      → r'.side ≡ r.side
      → r'.price ≡ r.price
      → 0 < r'.qty
      → IsStock band slab' (change levels s i lvl) ids (change A s i ((p, r') ∷ zs)) f free
  amend-IsStock p r r' zs slab' lvl at v same fs fits used eid eside eprice pos =
      let E = IsEntry band slab.capacity f s i in
      let (pe, ze) = subst (All E) at (st.entries s i hi) in
      let keep = λ (id q : ℕ) (h : f id ≡ some q). h in
      record {
        free_slots = fs;
        queues = λ s' i' hi'.
            change_both (λ s' i' l xs. i' < width band → IsQueue slab'.storage l xs) (λ h. v)
              (λ s' i' ne h.
                IsQueue-frame (A s' i') (st.queues s' i' h)
                  (λ q g. same q (elsewhere s' i' q ne h g)))
              s' i' hi';
        entries = λ s' i' hi'.
            change-All (λ s' i' xs. i' < width band → All (IsEntry band slab'.capacity f s' i') xs)
              (λ h. (
                record {
                  same_side = eside ∙ pe.same_side;
                  at_price = eprice ∙ pe.at_price;
                  remains = pos;
                  in_slab = rw fits pe.in_slab;
                  known = ap f eid ∙ pe.known;
                },
                entries_under band s i zs fits (λ id q g e. e) ze,
              ))
              (λ s' i' ne h.
                entries_under band s' i' (A s' i') fits (λ id q g e. e) (st.entries s' i' h))
              s' i' hi';
        named = λ id q h.
            Stands-change A s i ((p, r') ∷ zs) hi id q (st.named id q h) (λ o has same.
              elim (subst (Has q o) at has) [
                | inl (e, e') ↦ (r', inl (e, refl), eid ∙ ap (λ r. r.id) e' ∙ same)
                | inr there ↦ (o, inr there, same)
              ]);
        index = rw used st.index;
        room = rw fits st.room;
      }
