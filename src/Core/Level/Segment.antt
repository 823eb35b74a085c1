-- ===== src/Core/Level/Segment.antt =====
-- Segments of a doubly linked list in memory, and what writes to their ends do.
use optimal_execution_platfo.Common.{
  ℕ, ◌≡◌, ◌≢◌, refl, sym, ◌∙◌, Option, some, List, [], ◌∷◌, ◌++◌, arith, update, update_self, ◌==◌,
  Bool, false, ◌||◌,
}
use optimal_execution_platfo.Core.Slab.{Slot, live}
use optimal_execution_platfo.Core.Order.{Order, Resting, order_of, Memory, store}
use optimal_execution_platfo.Core.Level.{set_next, set_prev}

-- A queue: each order with the slot that it lies in, the earliest first.
abbrev pub Queue : Type 0
Queue = List (ℕ × Resting)

abbrev pub holds : ℕ → Queue → Bool
holds p [] = false
holds p ((q, r) ∷ xs) = (p == q) || holds p xs

infix 40 ◌∉◌
abbrev pub ◌∉◌ : ℕ → Queue → Type 0
p ∉ xs = holds p xs ≡ false

abbrev pub AllApart : Queue → Type 0
AllApart [] = Unit
AllApart ((p, r) ∷ xs) = (p ∉ xs) × AllApart xs

-- The orders `xs` are linked both ways from `cur` on. `before` is the slot in front of the first,
-- `last` that of the last order (or `before`), and `stop` what follows it.
abbrev pub Seg : Memory → (before cur last stop : Option ℕ) → Queue → Type 0
Seg mem before cur last stop [] = (cur ≡ stop) × (before ≡ last)
Seg mem before cur last stop ((p, r) ∷ xs) =
    (next : Option ℕ) × (cur ≡ some p)
    × (mem p ≡ live (order_of r before next))
    × Seg mem (some p) next last stop xs

-- A segment survives a write to a slot outside it.
pub Seg-store :
    (mem : Memory) (before cur last stop : Option ℕ) (xs : Queue) (p : ℕ) (v : Slot Order)
    → p ∉ xs
    → Seg mem before cur last stop xs
    → Seg (update mem p v) before cur last stop xs
Seg-store mem before cur last stop [] p v out s = s
Seg-store mem before cur last stop ((q, r) ∷ xs) p v out (next, c, m, s) =
    (next, c, ground arith, Seg-store mem (some q) next last stop xs p v (ground arith) s)

pub not-mem-append : (p : ℕ) (xs ys : Queue) → p ∉ xs → p ∉ ys → p ∉ xs ++ ys
not-mem-append p [] ys h g = g
not-mem-append p ((q, r) ∷ xs) ys h g = ground (arith, not-mem-append p xs ys)

-- Two segments that meet are one, and one of two parts is two that meet.
pub Seg-append :
    (mem : Memory) (before cur mid next last stop : Option ℕ) (xs ys : Queue)
    → Seg mem before cur mid next xs
    → Seg mem mid next last stop ys
    → Seg mem before cur last stop (xs ++ ys)
Seg-append mem before cur mid next last stop [] ys (c, b) t = rw (c, b) t
Seg-append mem before cur mid next last stop ((p, r) ∷ xs) ys (n, c, m, s) t =
    (n, c, m, Seg-append mem (some p) n mid next last stop xs ys s t)

pub Seg-split :
    (mem : Memory) (before cur last stop : Option ℕ) (xs ys : Queue)
    → Seg mem before cur last stop (xs ++ ys)
    → (mid : Option ℕ) × (next : Option ℕ) × Seg mem before cur mid next xs
      × Seg mem mid next last stop ys
Seg-split mem before cur last stop [] ys s = (before, cur, (refl, refl), s)
Seg-split mem before cur last stop ((p, r) ∷ xs) ys (n, c, m, s) =
    let (mid, next, a, b) = Seg-split mem (some p) n last stop xs ys s in
    (mid, next, (n, c, m, a), b)

-- `last->next = v` gives the segment another end.
pub relink_last :
    (mem : Memory) (before cur last stop v : Option ℕ) (x : ℕ × Resting) (xs : Queue)
    → AllApart (x ∷ xs)
    → Seg mem before cur last stop (x ∷ xs)
    → (p : ℕ) × (mem' : Memory) × (last ≡ some p)
      × (set_next mem p v ≡ some mem')
      × Seg mem' before cur last v (x ∷ xs)
      × ((q : ℕ) → q ∉ x ∷ xs → mem' q ≡ mem q)
unfolding set_next
relink_last mem before cur last stop v (p, r) [] apart (next, c, m, (e, l)) = (
  p,
  store mem p (order_of r before v),
  sym l,
  rw m,
  (v, c, update_self mem p (live (order_of r before v)), (refl, l)),
  λ q out. ground arith,
)
relink_last mem before cur last stop v (p, r) (y ∷ ys) apart (next, c, m, s) =
    let (t, mem', l, run, s', same) = relink_last mem (some p) next last stop v y ys apart.1 s in
    (t, mem', l, run, (next, c, same p apart.0 ∙ m, s'), λ q out. same q (ground arith))

-- `first->prev = v` gives the segment another slot in front.
pub relink_first :
    (mem : Memory) (before cur last stop v : Option ℕ) (p : ℕ) (r : Resting) (xs : Queue)
    → AllApart ((p, r) ∷ xs)
    → Seg mem before cur last stop ((p, r) ∷ xs)
    → (mem' : Memory) × (set_prev mem p v ≡ some mem')
      × Seg mem' v cur last stop ((p, r) ∷ xs)
      × ((q : ℕ) → q ≢ p → mem' q ≡ mem q)
unfolding set_prev
relink_first mem before cur last stop v p r xs apart (next, c, m, s) = (
  store mem p (order_of r v next),
  rw m,
  (
    next,
    c,
    update_self mem p (live (order_of r v next)),
    Seg-store mem (some p) next last stop xs p (live (order_of r v next)) apart.0 s,
  ),
  λ q ne. ground arith,
)
