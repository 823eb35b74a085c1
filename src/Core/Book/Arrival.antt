-- ===== src/Core/Book/Arrival.antt =====
-- A new order at the end of a queue.
use optimal_execution_platfo.Common.{
  ℕ, ◌<◌, ◌≡◌, sym, Option, none, some, false, List, [], ◌∷◌, ◌++◌, arith, subst, update,
  ℕ_discrete,
}
use optimal_execution_platfo.Common.Slots.{has}
use optimal_execution_platfo.Core.Slab.{Slab}
use optimal_execution_platfo.Core.Slab.FreeList.{IsFree}
use optimal_execution_platfo.Core.IdIndex.{IdIndex}
use optimal_execution_platfo.Core.IdIndex.Table.{Models}
use optimal_execution_platfo.Core.Order.{Side, Order, Resting}
use optimal_execution_platfo.Core.Level.{LevelFifo}
use optimal_execution_platfo.Core.Level.Segment.{holds}
use optimal_execution_platfo.Core.Level.Queue.{IsQueue}
use optimal_execution_platfo.Core.Ladder.{Band, width}
use optimal_execution_platfo.Core.Ladder.Price.{price_at}
use optimal_execution_platfo.Core.Book.Place.{change, change-All, change_both, change_self}
use optimal_execution_platfo.Core.Book.Stock.{
  Orders, IsEntry, All, Has, IsStock, IsQueue-frame, not_free,
}
use optimal_execution_platfo.Core.Book.Entries.{All-append, entries_under, Has-append, Has-last}
use optimal_execution_platfo.Core.Book.Change.{Stands-change, elsewhere}

module _ {band : Band} {slab : Slab Order} {levels : Side → ℕ → LevelFifo} {ids : IdIndex}
    {A : Orders} {f : ℕ → Option ℕ} {p : ℕ} {free : List ℕ}
    (st : IsStock band slab levels ids A f (p ∷ free)) (s : Side) (i : ℕ)
    (hi : i < width band) where
  -- A new order comes to rest behind a queue.
  pub add-IsStock :
      (r : Resting) (slab' : Slab Order) (lvl : LevelFifo) (ids' : IdIndex)
      → IsQueue slab'.storage lvl (A s i ++ (p, r) ∷ [])
      → ((q : ℕ)
          → holds q (A s i) ≡ false
          → has q (p ∷ free) ≡ false
          → slab'.storage q ≡ slab.storage q)
      → IsFree slab' free
      → slab'.capacity ≡ slab.capacity
      → Models ids' (update f r.id (some p)) slab'.in_use
      → ids'.capacity ≡ ids.capacity
      → f r.id ≡ none
      → r.side ≡ s
      → r.price ≡ price_at band i
      → 0 < r.qty
      → IsStock band slab'
          (change levels s i lvl)
          ids'
          (change A s i (A s i ++ (p, r) ∷ []))
          (update f r.id (some p))
          free
  add-IsStock r slab' lvl ids' v same fs fits m indexed fresh eside eprice pos =
      let f' = update f r.id (some p) in
      let keep : (id q : ℕ) → f id ≡ some q → f' id ≡ some q = λ id q h. ground arith in
      record {
        free_slots = fs;
        queues = λ s' i' hi'.
            change_both (λ s' i' l xs. i' < width band → IsQueue slab'.storage l xs) (λ h. v)
              (λ s' i' ne h.
                IsQueue-frame (A s' i') (st.queues s' i' h)
                  (λ q g. same q (elsewhere st s i hi s' i' q ne h g) (not_free st s' i' q h g)))
              s' i' hi';
        entries = λ s' i' hi'.
            change-All (λ s' i' xs. i' < width band → All (IsEntry band slab'.capacity f' s' i') xs)
              (λ h.
                All-append (IsEntry band slab'.capacity f' s i) (A s i) ((p, r) ∷ [])
                  (entries_under band s i (A s i) fits (λ id q g e. keep id q e)
                    (st.entries s i hi))
                  (
                    record {
                      same_side = eside;
                      at_price = eprice;
                      remains = pos;
                      in_slab = rw fits st.free_slots.below.0;
                      known = ground arith;
                    },
                    tt,
                  ))
              (λ s' i' ne h.
                entries_under band s' i' (A s' i') fits (λ id q g e. keep id q e)
                  (st.entries s' i' h))
              s' i' hi';
        named = λ id q h. elim (ℕ_discrete r.id id) [
          | yes same ↦
              let here : p ≡ q = ground arith in
              record {
                side = s;
                index = i;
                order = r;
                in_band = hi;
                queued =
                    subst (Has q r) (sym (change_self A s i (A s i ++ (p, r) ∷ [])))
                      (subst (λ q. Has q r (A s i ++ (p, r) ∷ [])) here (Has-last p r (A s i)));
                same_id = same;
              }
          | no ne ↦
              Stands-change A s i (A s i ++ (p, r) ∷ []) hi id q (st.named id q (ground arith))
                (λ o has same. (o, Has-append q o (A s i) ((p, r) ∷ []) has, same))
        ];
        index = m;
        room = rw (fits, indexed) st.room;
      }
