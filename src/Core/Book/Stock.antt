-- ===== src/Core/Book/Stock.antt =====
-- The resting orders of a book, in the slab, at their levels and in the id index.
use optimal_execution_platfo.Common.{
  ℕ, ◌<◌, ◌≡◌, ◌≢◌, sym, ap, ◌∙◌, inl, inr, ◌⊎◌, Option, none, some, true, false, List, [], ◌∷◌,
  arith, subst, ℕ_discrete, Bool-cases,
}
use optimal_execution_platfo.Common.Slots.{has}
use optimal_execution_platfo.Core.Slab.{Slab, link, live}
use optimal_execution_platfo.Core.Slab.FreeList.{Threads, IsFree}
use optimal_execution_platfo.Core.IdIndex.{IdIndex}
use optimal_execution_platfo.Core.IdIndex.Table.{Models}
use optimal_execution_platfo.Core.Order.{Side, Order, Resting, order_of, Memory}
use optimal_execution_platfo.Core.Level.{LevelFifo}
use optimal_execution_platfo.Core.Level.Segment.{Queue, holds, Seg}
use optimal_execution_platfo.Core.Level.Queue.{IsQueue, Seg-frame}
use optimal_execution_platfo.Core.Ladder.{Band, width, idx}
use optimal_execution_platfo.Core.Ladder.Price.{price_at, idx-price_at}

-- The abstract book: at each place, the queue of its orders.
abbrev pub Orders : Type 0
Orders = Side → ℕ → Queue

-- An order stands at its place, has a quantity left, lies in a slot, and its id leads there.
pub record IsEntry (band : Band) (capacity : ℕ) (f : ℕ → Option ℕ) (side : Side) (i p : ℕ)
    (r : Resting) : Type 0 where
  pub same_side : r.side ≡ side
  pub at_price : r.price ≡ price_at band i
  pub remains : 0 < r.qty
  pub in_slab : p < capacity
  pub known : f r.id ≡ some p

-- A property of every order of a queue and its slot.
abbrev pub All : (ℕ → Resting → Type 0) → Queue → Type 0
All P [] = Unit
All P ((p, r) ∷ xs) = P p r × All P xs

-- The order lies in this slot and stands in the queue.
abbrev pub Has : ℕ → Resting → Queue → Type 0
Has q o [] = ⊥
Has q o ((p, r) ∷ xs) = ((p ≡ q) × (r ≡ o)) ⊎ Has q o xs

-- An order with this id, in this slot, stands somewhere in the book.
pub record Stands (n : ℕ) (A : Orders) (id p : ℕ) : Type 0 where
  pub side : Side
  pub index : ℕ
  pub order : Resting
  pub in_band : index < n
  pub queued : Has p order (A side index)
  pub same_id : order.id ≡ id

-- The slab, the levels and the id index hold the orders `A`. `f` is the map of the id index, and
-- `free` the free slots.
pub record IsStock (band : Band) (slab : Slab Order) (levels : Side → ℕ → LevelFifo) (ids : IdIndex)
    (A : Orders) (f : ℕ → Option ℕ) (free : List ℕ) : Type 0 where
  pub free_slots : IsFree slab free
  pub queues :
      (side : Side) (i : ℕ) → i < width band → IsQueue slab.storage (levels side i) (A side i)
  pub entries :
      (side : Side) (i : ℕ) → i < width band → All (IsEntry band slab.capacity f side i) (A side i)
  pub named : (id p : ℕ) → f id ≡ some p → Stands (width band) A id p
  pub index : Models ids f slab.in_use
  pub room : slab.capacity < ids.capacity

-- What memory and the map say of a slot that an order of the queue lies in.
pub record Found (band : Band) (mem : Memory) (capacity : ℕ) (f : ℕ → Option ℕ) (side : Side)
    (i q : ℕ) : Type 0 where
  pub order : Order
  pub at : mem q ≡ live order
  pub on_side : order.side ≡ side
  pub at_price : order.price ≡ price_at band i
  pub in_slab : q < capacity
  pub known : f order.id ≡ some q

module _ {band : Band} {mem : Memory} {capacity : ℕ} {f : ℕ → Option ℕ} {side : Side} {i : ℕ} where
  pub find :
      (q : ℕ) (before cur last stop : Option ℕ) (xs : Queue)
      → Seg mem before cur last stop xs
      → All (IsEntry band capacity f side i) xs
      → holds q xs ≡ true
      → Found band mem capacity f side i q
  find q before cur last stop [] s e h = cc h
  find q before cur last stop ((p, r) ∷ xs) (next, c, m, s) (e, es) h = elim (ℕ_discrete p q) [
    | no ne ↦ find q (some p) next last stop xs s es (ground arith)
    | yes same ↦
        subst (λ q. Found band mem capacity f side i q) same
          (record {
            order = order_of r before next;
            at = m;
            on_side = e.same_side;
            at_price = e.at_price;
            in_slab = e.in_slab;
            known = e.known;
          })
  ]

-- A queue survives any change of memory outside its slots.
pub IsQueue-frame :
    {mem mem' : Memory} {lvl : LevelFifo} (xs : Queue)
    → IsQueue mem lvl xs
    → ((q : ℕ) → holds q xs ≡ true → mem' q ≡ mem q)
    → IsQueue mem' lvl xs
IsQueue-frame {mem} {mem'} {lvl} xs v same = record {
  linked = Seg-frame mem mem' none lvl.head lvl.tail none xs same v.linked;
  apart = v.apart;
  words = v.words;
  quantity = v.quantity;
  count = v.count;
}

-- The memory of a free slot holds a link.
pub free-link :
    (storage : Memory) (head : Option ℕ) (xs : List ℕ) (q : ℕ)
    → Threads storage head xs
    → has q xs ≡ true
    → (n : Option ℕ) × (storage q ≡ link n)
free-link storage head [] q t h = cc h
free-link storage head (x ∷ xs) q (next, h, l, t) g = elim (ℕ_discrete x q) [
  | yes same ↦ (next, subst (λ k. storage k ≡ link next) same l)
  | no ne ↦ free-link storage next xs q t (ground arith)
]

pub Threads-frame :
    (storage storage' : Memory) (head : Option ℕ) (xs : List ℕ)
    → ((q : ℕ) → has q xs ≡ true → storage' q ≡ storage q)
    → Threads storage head xs
    → Threads storage' head xs
Threads-frame storage storage' head [] same t = t
Threads-frame storage storage' head (x ∷ xs) same (next, h, l, t) = (
  next,
  h,
  same x (ground arith) ∙ l,
  Threads-frame storage storage' next xs (λ q g. same q (ground arith)) t,
)

price_at_injective : (band : Band) (i j : ℕ) → price_at band i ≡ price_at band j → i ≡ j
price_at_injective band i j e =
    sym (idx-price_at band i) ∙ ap (λ p. idx band p) e ∙ idx-price_at band j

link-live : (n : Option ℕ) (o : Order) → link n ≢ live o
link-live n o e = cc e

live_injective : (o o' : Order) → live o ≡ live o' → o ≡ o'
live_injective o o' e = cc e

module _ {band : Band} {slab : Slab Order} {levels : Side → ℕ → LevelFifo} {ids : IdIndex}
    {A : Orders} {f : ℕ → Option ℕ} {free : List ℕ}
    (st : IsStock band slab levels ids A f free) where
  pub found :
      (side : Side) (i q : ℕ)
      → i < width band
      → holds q (A side i) ≡ true
      → Found band slab.storage slab.capacity f side i q
  found side i q hi h =
      find q none (levels side i).head (levels side i).tail none (A side i)
        (st.queues side i hi).linked (st.entries side i hi) h

  -- No slot is at two places.
  pub one_place :
      (s : Side) (i : ℕ) (s' : Side) (i' q : ℕ)
      → i < width band
      → i' < width band
      → holds q (A s i) ≡ true
      → holds q (A s' i') ≡ true
      → (s ≡ s') × (i ≡ i')
  one_place s i s' i' q hi hi' h h' =
      let a = found s i q hi h in
      let b = found s' i' q hi' h' in
      let same = live_injective a.order b.order (sym a.at ∙ b.at) in
      (
        sym a.on_side ∙ ap (λ o. o.side) same ∙ b.on_side,
        price_at_injective band i i' (sym a.at_price ∙ ap (λ o. o.price) same ∙ b.at_price),
      )

  -- No slot of an order is free.
  pub not_free : (s : Side) (i q : ℕ) → i < width band → holds q (A s i) ≡ true → has q free ≡ false
  not_free s i q hi h = elim (Bool-cases (has q free)) [
    | inr e ↦ e
    | inl e ↦
        let a = found s i q hi h in
        let (n, l) = free-link slab.storage slab.free_head free q st.free_slots.threads e in
        absurd (link-live n a.order (sym l ∙ a.at))
  ]
