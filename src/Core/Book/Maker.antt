-- ===== src/Core/Book/Maker.antt =====
-- One round of `ConsumeLevel` at the first order of a queue.
use optimal_execution_platfo.Common.{
  ℕ, ◌<◌, ◌≡◌, refl, ◌∙◌, Option, none, some, false, ◌==◌, if◌then◌else◌, min, sub64, [], ◌∷◌,
  arith, subst, update, update_self, Returns,
}
use optimal_execution_platfo.Common.Int.{ℤ}
use optimal_execution_platfo.Core.Slab.{Slab, Slot, live, deallocate}
use optimal_execution_platfo.Core.IdIndex.{IdIndex, lookup_and_erase_id}
use optimal_execution_platfo.Core.Order.{Side, Order, Resting, order_of, Memory, store}
use optimal_execution_platfo.Core.Level.{LevelFifo, dec32}
use optimal_execution_platfo.Core.Level.Segment.{Queue, holds, Seg}
use optimal_execution_platfo.Core.Level.Queue.{IsQueue}
use optimal_execution_platfo.Core.Level.Segment.{Seg-store, relink_first}
use optimal_execution_platfo.Core.Book.{Taking, advance_head, pop_maker, fill_maker, consume_maker}

pub pop_maker-step :
    (t : Taking) (p : ℕ) (o : Order) (mem : Memory) (lvl : LevelFifo) (told : Option ℕ)
    (ids : IdIndex) (slab : Slab Order)
    → t.slab.storage p ≡ live o
    → advance_head t.slab.storage t.level o.next ≡ some (mem, lvl)
    → lookup_and_erase_id t.id_index o.id ≡ some (told, ids)
    → deallocate (record t.slab { storage = mem }) p ≡ some slab
    → pop_maker t p
      ≡ some (record t {
        slab = slab;
        id_index = ids;
        level = record lvl { order_count = dec32 lvl.order_count };
      })
unfolding pop_maker
pop_maker-step t p o mem lvl told ids slab e₀ e₁ e₂ e₃ = rw (e₀, e₁, e₂, e₃)

-- The maker after its fill.
abbrev pub filled : Taking → Order → Order
filled t o = record o { qty = sub64 o.qty (min t.remaining o.qty) }

fill_maker-storage :
    (id : ℕ) (side : Side) (px : ℤ) (t : Taking) (p : ℕ) (o : Order)
    → (fill_maker id side px t p o).slab.storage p ≡ live (filled t o)
unfolding fill_maker
fill_maker-storage id side px t p o = update_self t.slab.storage p (live (filled t o))

pub consume_maker-step :
    (id : ℕ) (side : Side) (px : ℤ) (t : Taking) (p : ℕ) (o : Order)
    → t.slab.storage p ≡ live o
    → consume_maker id side px t p ≡ (
        let t' = fill_maker id side px t p o in
        if (filled t o).qty == 0 then pop_maker t' p else some t')
unfolding consume_maker
consume_maker-step id side px t p o e = rw (e, fill_maker-storage id side px t p o)

-- The level once its first order is unlinked; only its own slots are written.
pub advance_head-IsQueue :
    (mem : Memory) (lvl : LevelFifo) (p : ℕ) (r : Resting) (zs : Queue) (v : Slot Order)
    (next : Option ℕ)
    → IsQueue mem lvl ((p, r) ∷ zs)
    → mem p ≡ live (order_of r none next)
    → Returns
        (advance_head (update mem p v) (record lvl { total_qty = sub64 lvl.total_qty r.qty }) next)
        λ (mem', lvl').
          IsQueue mem' (record lvl' { order_count = dec32 lvl'.order_count }) zs
          × ((q : ℕ) → holds q ((p, r) ∷ zs) ≡ false → mem' q ≡ mem q)
unfolding advance_head
advance_head-IsQueue mem lvl p r [] v next q here =
    let (next', c, m, (end, _)) = q.linked in
    let none_after : next ≡ none = cc (m, here, end) in
    (
      (
        update mem p v,
        record lvl { head = none; tail = none; total_qty = sub64 lvl.total_qty r.qty },
      ),
      rw none_after,
      (
        record {
          linked = (refl, refl);
          apart = tt;
          words = tt;
          quantity = omega (arith, q.quantity, q.words.0);
          count = omega (arith, q.count);
        },
        λ j h. ground arith,
      ),
    )
advance_head-IsQueue mem lvl p r ((y, w) ∷ zs) v next q here =
    let (next', c, m, s) = q.linked in
    let after : next ≡ some y = cc (m, here, s.1) in
    let s₁ = Seg-store mem (some p) next' lvl.tail none ((y, w) ∷ zs) p v q.apart.0 s in
    let (mem', run, s', same) =
      relink_first (update mem p v) (some p) next' lvl.tail none none y w zs q.apart.1 s₁ in
    (
      (mem', record lvl { head = some y; total_qty = sub64 lvl.total_qty r.qty }),
      rw (after, run),
      (
        record {
          linked = subst (λ h. Seg mem' none h lvl.tail none ((y, w) ∷ zs)) s.1 s';
          apart = q.apart.1;
          words = q.words.1;
          quantity = omega (arith, q.quantity, q.words.0);
          count = omega (arith, q.count);
        },
        λ j h. same j (ground arith) ∙ ground arith,
      ),
    )

-- The level once its first order gave some of its quantity.
pub amend-IsQueue :
    (mem : Memory) (lvl : LevelFifo) (p : ℕ) (r : Resting) (zs : Queue) (n : ℕ) (next : Option ℕ)
    → IsQueue mem lvl ((p, r) ∷ zs)
    → mem p ≡ live (order_of r none next)
    → n < r.qty
    → let r' = record r { qty = sub64 r.qty n } in
      IsQueue
        (store mem p (order_of r' none next))
        (record lvl { total_qty = sub64 lvl.total_qty n })
        ((p, r') ∷ zs)
amend-IsQueue mem lvl p r zs n next q here h =
    let (next', c, m, s) = q.linked in
    let o = order_of (record r { qty = sub64 r.qty n }) none next in
    let same : next' ≡ next = cc (m, here) in
    record {
      linked = (
        next,
        c,
        update_self mem p (live o),
        Seg-store mem (some p) next lvl.tail none zs p (live o) q.apart.0
            (subst (λ j. Seg mem (some p) j lvl.tail none zs) same s),
      );
      apart = q.apart;
      words = (omega arith, q.words.1);
      quantity = omega (arith, q.quantity, q.words.0);
      count = q.count;
    }
