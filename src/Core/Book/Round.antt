-- ===== src/Core/Book/Round.antt =====
-- The two ways a round of `ConsumeLevel` ends, and what they keep of the book.
use optimal_execution_platfo.Common.{
  pick_then, pick_else, ℕ, ◌-◌, ◌<◌, ◌≤◌, ◌≡◌, refl, sym, ap, ◌∙◌, Option, none, some, true, false,
  ◌==◌, min, sub64, u64_mod, List, [], ◌∷◌, ◌++◌, arith, subst, update, update_self, Returns,
}
use optimal_execution_platfo.Common.Int.{ℤ}
use optimal_execution_platfo.Core.Slab.{Slab, live}
use optimal_execution_platfo.Core.IdIndex.{IdIndex}
use optimal_execution_platfo.Core.IdIndex.Table.{Models}
use optimal_execution_platfo.Core.IdIndex.Erase.{forget, held, lookup_and_erase_id-Erased}
use optimal_execution_platfo.Core.Order.{Side, Order, Resting, order_of, store}
use optimal_execution_platfo.Core.Level.{LevelFifo, dec32}
use optimal_execution_platfo.Core.Level.Segment.{Queue, holds}
use optimal_execution_platfo.Core.Level.Queue.{IsQueue}
use optimal_execution_platfo.Core.Ladder.{Band, width}
use optimal_execution_platfo.Core.Book.Place.{change, change_self}
use optimal_execution_platfo.Core.Book.Stock.{Orders, IsEntry, All, IsStock, found}
use optimal_execution_platfo.Core.Book.Change.{amend-IsStock}
use optimal_execution_platfo.Core.Book.{Taking, fill_maker, advance_head, consume_maker}
use optimal_execution_platfo.Core.Book.Place.{change_twice}
use optimal_execution_platfo.Core.Book.Release.{free_after, index_room, release-IsStock}
use optimal_execution_platfo.Core.Book.Priority.{fill_of}
use optimal_execution_platfo.Core.Book.Maker.{
  filled, pop_maker-step, consume_maker-step, advance_head-IsQueue, amend-IsQueue,
}

-- The stock while the loop works at one level, whose orders are `xs`.
pub record Held (band : Band) (levels : Side → ℕ → LevelFifo) (A : Orders) (s : Side) (i : ℕ)
    (t : Taking) (xs : Queue) (f : ℕ → Option ℕ) (free : List ℕ) : Type 0 where
  pub stock : IsStock band t.slab (change levels s i t.level) t.id_index (change A s i xs) f free

module _ {band : Band} {levels : Side → ℕ → LevelFifo} {A : Orders} {s : Side} {i : ℕ}
    (hi : i < width band) {t : Taking} {xs : Queue} {f : ℕ → Option ℕ} {free : List ℕ}
    (st : Held band levels A s i t xs f free) where
  pub held-IsQueue : IsQueue t.slab.storage t.level xs
  held-IsQueue =
      subst (λ l. IsQueue t.slab.storage l xs) (change_self levels s i t.level)
        (subst (IsQueue t.slab.storage (change levels s i t.level s i)) (change_self A s i xs)
          (st.stock.queues s i hi))

  pub held_entries : All (IsEntry band t.slab.capacity f s i) xs
  held_entries =
      subst (All (IsEntry band t.slab.capacity f s i)) (change_self A s i xs)
        (st.stock.entries s i hi)

  -- A later state of the level.
  held_again :
      {slab : Slab Order} {ids : IdIndex} {f' : ℕ → Option ℕ} {free' : List ℕ} (lvl : LevelFifo)
      (ys : Queue)
      → IsStock band slab
          (change (change levels s i t.level) s i lvl)
          ids
          (change (change A s i xs) s i ys)
          f'
          free'
      → IsStock band slab (change levels s i lvl) ids (change A s i ys) f' free'
  held_again {slab} {ids} {f'} {free'} lvl ys st' =
      subst (λ l. IsStock band slab l ids (change A s i ys) f' free')
        (change_twice levels s i t.level lvl)
        (subst (λ B. IsStock band slab (change (change levels s i t.level) s i lvl) ids B f' free')
          (change_twice A s i xs ys) st')

sub64-min : (n m : ℕ) → n < u64_mod → m ≤ n → sub64 n (min n m) ≡ n - m
sub64-min n m h le = omega arith

module _ (id : ℕ) (side : Side) (px : ℤ) {band : Band} {levels : Side → ℕ → LevelFifo} {A : Orders}
    {s : Side} {i : ℕ} (hi : i < width band) {t : Taking} {p : ℕ} {r : Resting} {zs : Queue}
    {f : ℕ → Option ℕ} {free : List ℕ} (st : Held band levels A s i t ((p, r) ∷ zs) f free) where
  -- A round that fills the whole maker.
  pub pop-Held :
      t.remaining < u64_mod
      → r.qty ≤ t.remaining
      → Returns (consume_maker id side px t p) λ t'.
        (t'.fills ≡ t.fills ++ fill_of id side px r r.qty ∷ [])
        × (t'.remaining ≡ t.remaining - r.qty)
        × (t'.slab.capacity ≡ t.slab.capacity)
        × Held band levels A s i t' zs (forget f r.id) (p ∷ free)
  unfolding fill_maker
  pop-Held word enough =
      let q = held-IsQueue hi st in
      let (e, _) = held_entries hi st in
      let (next, c, m, _) = q.linked in
      let o = order_of r none next in
      let all : min t.remaining r.qty ≡ r.qty = omega arith in
      let empty : ((filled t o).qty == 0) ≡ true = rw all (ground arith) in
      let ((mem, lvl), run, (q', same)) =
        advance_head-IsQueue t.slab.storage t.level p r zs (live (filled t o)) next q m in
      let run' =
        subst
          (λ n.
            advance_head (update t.slab.storage p (live (filled t o)))
              (record t.level { total_qty = sub64 t.level.total_qty n }) next
            ≡ some (mem, lvl))
          (sym all) run in
      let ((told, ids), found, (_, m', indexed)) =
        lookup_and_erase_id-Erased st.stock.index r.id (index_room st.stock) in
      let (slab, freed, (st', fits)) =
        release-IsStock st.stock s i hi p r [] zs mem
          (record lvl { order_count = dec32 lvl.order_count }) ids (change_self A s i ((p, r) ∷ zs))
          q' (λ j h. same j (subst (λ xs. holds j xs ≡ false) (change_self A s i ((p, r) ∷ zs)) h))
          (subst (λ k. Models ids (forget f r.id) (t.slab.in_use - held k)) e.known m') indexed in
      let popped =
        pop_maker-step (fill_maker id side px t p o) p (filled t o) mem lvl told ids slab
          (update_self t.slab.storage p (live (filled t o))) run' found freed in
      (
        _,
        consume_maker-step id side px t p o m ∙ pick_then _ _ empty ∙ popped,
        (
          ap (λ n. t.fills ++ fill_of id side px r n ∷ []) all,
          sub64-min t.remaining r.qty word enough,
          fits,
          record { stock = held_again hi st _ zs st' },
        ),
      )

  -- The round that fills the taker.
  pub part-Held :
      t.remaining < r.qty
      → 0 < t.remaining
      → Returns (consume_maker id side px t p) λ t'.
        (t'.fills ≡ t.fills ++ fill_of id side px r t.remaining ∷ [])
        × (t'.remaining ≡ 0)
        × (t'.slab.capacity ≡ t.slab.capacity)
        × Held band levels A s i t' ((p, record r { qty = r.qty - t.remaining }) ∷ zs) f free
  unfolding fill_maker
  part-Held short pos =
      let q = held-IsQueue hi st in
      let (e, _) = held_entries hi st in
      let (next, c, m, _) = q.linked in
      let o = order_of r none next in
      let n = t.remaining in
      let some_of : min n r.qty ≡ n = omega arith in
      let left : sub64 r.qty n ≡ r.qty - n = omega (arith, q.words.0) in
      let rest : (filled t o).qty ≡ r.qty - n = ap (sub64 r.qty) some_of ∙ left in
      let more : ((filled t o).qty == 0) ≡ false = rw rest (ground arith) in
      let q' = amend-IsQueue t.slab.storage t.level p r zs n next q m short in
      let same_order : order_of (record r { qty = sub64 r.qty n }) none next ≡ filled t o =
        ap (λ k. record o { qty = sub64 r.qty k }) (sym some_of) in
      let q₁ =
        subst
          (λ w.
            IsQueue (store t.slab.storage p w)
              (record t.level { total_qty = sub64 t.level.total_qty n })
              ((p, record r { qty = sub64 r.qty n }) ∷ zs))
          same_order q' in
      let q₂ =
        subst
          (λ k.
            IsQueue (store t.slab.storage p (filled t o))
              (record t.level { total_qty = sub64 t.level.total_qty k })
              ((p, record r { qty = sub64 r.qty n }) ∷ zs))
          (sym some_of) q₁ in
      let q₃ =
        subst
          (λ k.
            IsQueue (store t.slab.storage p (filled t o))
              (record t.level { total_qty = sub64 t.level.total_qty (min n r.qty) })
              ((p, record r { qty = k }) ∷ zs))
          left q₂ in
      let outside : (j : ℕ)
          → holds j ((p, r) ∷ zs) ≡ false
          → store t.slab.storage p (filled t o) j ≡ t.slab.storage j =
        λ j h. ground arith in
      let at = change_self A s i ((p, r) ∷ zs) in
      let outside' = λ (j : ℕ) (h : holds j (change A s i ((p, r) ∷ zs) s i) ≡ false).
        outside j (subst (λ xs. holds j xs ≡ false) at h) in
      let st' =
        amend-IsStock st.stock s i hi p r (record r { qty = r.qty - n }) zs
          (record t.slab { storage = store t.slab.storage p (filled t o) }) _ at q₃ outside'
          (free_after st.stock s i hi _ outside') refl refl refl refl refl (omega arith) in
      (
        fill_maker id side px t p o,
        consume_maker-step id side px t p o m ∙ pick_else _ _ more,
        (
          ap (λ k. t.fills ++ fill_of id side px r k ∷ []) some_of,
          ap (sub64 n) some_of ∙ omega arith,
          refl,
          record { stock = held_again hi st _ ((p, record r { qty = r.qty - n }) ∷ zs) st' },
        ),
      )
