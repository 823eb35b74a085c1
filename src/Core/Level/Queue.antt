-- ===== src/Core/Level/Queue.antt =====
-- A level holds a queue of orders: what its two list operations keep.
use optimal_execution_platfo.Common.{
  ℕ, ◌+◌, ◌%◌, ◌^◌, ◌≡◌, ◌≢◌, ◌<◌, refl, sym, ◌∙◌, Option, none, some, [], ◌∷◌, ◌++◌, arith,
  update_self, update_ne, true, ◌||◌, length, length-append, u64_mod, sub64, add64, Returns,
}
use optimal_execution_platfo.Core.Slab.{live}
use optimal_execution_platfo.Core.Order.{Memory, store, Resting, order_of}
use optimal_execution_platfo.Core.Level.{
  LevelFifo, bypass_before, bypass_after, unlink_from_level, link_last, push_back_to_level, dec32,
  inc32,
}
use optimal_execution_platfo.Core.Level.Segment.{
  Queue, holds, ◌∉◌, AllApart, Seg, Seg-store, Seg-append, Seg-split, relink_last, relink_first,
}

abbrev pub total : Queue → ℕ
total [] = 0
total ((p, r) ∷ xs) = r.qty + total xs

pub total-append : (xs ys : Queue) → total (xs ++ ys) ≡ total xs + total ys
total-append [] ys = omega arith
total-append ((p, r) ∷ xs) ys = omega (arith, total-append xs ys)

-- Each quantity fits its 64-bit word.
abbrev pub AllWords : Queue → Type 0
AllWords [] = Unit
AllWords ((p, r) ∷ xs) = (r.qty < u64_mod) × AllWords xs

pub AllWords-append : (xs ys : Queue) → AllWords xs → AllWords ys → AllWords (xs ++ ys)
AllWords-append [] ys a b = b
AllWords-append ((p, r) ∷ xs) ys a b = (a.0, AllWords-append xs ys a.1 b)

pub AllWords-split : (xs ys : Queue) → AllWords (xs ++ ys) → AllWords xs × AllWords ys
AllWords-split [] ys a = (tt, a)
AllWords-split ((p, r) ∷ xs) ys a = let (b, c) = AllWords-split xs ys a.1 in ((a.0, b), c)

-- The level holds the orders `xs`, the earliest first; its two counters count them in their words.
pub record IsQueue (mem : Memory) (lvl : LevelFifo) (xs : Queue) : Type 0 where
  pub linked : Seg mem none lvl.head lvl.tail none xs
  pub apart : AllApart xs
  pub words : AllWords xs
  pub quantity : lvl.total_qty ≡ total xs % u64_mod
  pub count : lvl.order_count ≡ length xs % 2 ^ 32

pub holds-append : (p : ℕ) (xs ys : Queue) → holds p (xs ++ ys) ≡ (holds p xs || holds p ys)
holds-append p [] ys = refl
holds-append p ((q, r) ∷ xs) ys = ground (arith, holds-append p xs ys)

-- What the parts of a queue with distinct slots are.
pub AllApart-split :
    (xs ys : Queue)
    → AllApart (xs ++ ys)
    → AllApart xs × AllApart ys × ((p : ℕ) → holds p xs ≡ true → p ∉ ys)
AllApart-split [] ys a = (tt, a, λ p h. cc)
AllApart-split ((q, r) ∷ xs) ys a =
    let (b, c, d) = AllApart-split xs ys a.1 in
    (ground (arith, holds-append q xs ys), c, λ p h. ground (arith, holds-append q xs ys, d p))

pub AllApart-append :
    (xs ys : Queue)
    → AllApart xs
    → AllApart ys
    → ((p : ℕ) → holds p xs ≡ true → p ∉ ys)
    → AllApart (xs ++ ys)
AllApart-append [] ys a b d = b
AllApart-append ((q, r) ∷ xs) ys a b d = (
  ground (arith, holds-append q xs ys, d q),
  AllApart-append xs ys a.1 b (λ p h. d p (ground arith)),
)

module _ (mem : Memory) (lvl : LevelFifo) (mid v : Option ℕ) where
  bypass_before-Seg :
      (stop : Option ℕ) (ys : Queue)
      → AllApart ys
      → Seg mem none lvl.head mid stop ys
      → (mem' : Memory) × (head : Option ℕ) × (bypass_before mem lvl mid v
          ≡ some (mem', record lvl { head = head }))
        × Seg mem' none head mid v ys
        × ((q : ℕ) → q ∉ ys → mem' q ≡ mem q)
  unfolding bypass_before
  bypass_before-Seg stop [] apart (c, b) = (mem, v, rw (← b), (refl, b), λ q h. refl)
  bypass_before-Seg stop (y ∷ ys) apart s =
      let (p, mem', l, run, s', same) = relink_last mem none lvl.head mid stop v y ys apart s in
      (mem', lvl.head, rw (l, run), s', same)

  bypass_after-Seg :
      (before : Option ℕ) (zs : Queue)
      → AllApart zs
      → Seg mem before v lvl.tail none zs
      → (mem' : Memory) × (tail : Option ℕ) × (bypass_after mem lvl mid v
          ≡ some (mem', record lvl { tail = tail }))
        × Seg mem' mid v tail none zs
        × ((q : ℕ) → q ∉ zs → mem' q ≡ mem q)
  unfolding bypass_after
  bypass_after-Seg before [] apart (c, b) = (mem, mid, rw c, (c, refl), λ q h. refl)
  bypass_after-Seg before ((p, r) ∷ zs) apart s =
      let (mem', run, s', same) = relink_first mem before v lvl.tail none mid p r zs apart s in
      (mem', lvl.tail, rw (s.1, run), s', λ q h. same q (ground arith))

-- A segment survives any change of memory outside it.
pub Seg-frame :
    (mem mem' : Memory) (before cur last stop : Option ℕ) (xs : Queue)
    → ((p : ℕ) → holds p xs ≡ true → mem' p ≡ mem p)
    → Seg mem before cur last stop xs
    → Seg mem' before cur last stop xs
Seg-frame mem mem' before cur last stop [] same s = s
Seg-frame mem mem' before cur last stop ((q, r) ∷ xs) same (next, c, m, s) = (
  next,
  c,
  same q (ground arith) ∙ m,
  Seg-frame mem mem' (some q) next last stop xs (λ p h. same p (ground arith)) s,
)

-- `UnlinkFromLevel` of any order of a queue does not fault. The queue without the order is left, in
-- its order, with both counters right, and no slot outside the queue is written.
pub unlink_from_level-IsQueue :
    (mem : Memory) (lvl : LevelFifo) (p : ℕ) (r : Resting) (ys zs : Queue)
    → IsQueue mem lvl (ys ++ (p, r) ∷ zs)
    → Returns (unlink_from_level mem lvl p) λ (mem', lvl').
      IsQueue mem' lvl' (ys ++ zs) × ((q : ℕ) → q ∉ ys ++ (p, r) ∷ zs → mem' q ≡ mem q)
unfolding unlink_from_level
unlink_from_level-IsQueue mem lvl p r ys zs v =
    let (mid, cur, a, (next, c, m, b)) =
      Seg-split mem none lvl.head lvl.tail none ys ((p, r) ∷ zs) v.linked in
    let (yw, pzw) = AllWords-split ys ((p, r) ∷ zs) v.words in
    let (ya, pza, disjoint) = AllApart-split ys ((p, r) ∷ zs) v.apart in
    let (mem₁, head, run₁, a₁, same₁) = bypass_before-Seg mem lvl mid next cur ys ya a in
    let lvl₁ = record lvl { head = head } in
    let b₁ =
      Seg-frame mem mem₁ (some p) next lvl.tail none zs
        (λ q h. same₁ q (ground (arith, disjoint q))) b in
    let (mem₂, tail, run₂, b₂, same₂) = bypass_after-Seg mem₁ lvl₁ mid next (some p) zs pza.1 b₁ in
    let a₂ =
      Seg-frame mem₁ mem₂ none head mid next ys (λ q h. same₂ q (ground (arith, disjoint q))) a₁ in
    (
      (
        mem₂,
        record {
          head = head;
          tail = tail;
          total_qty = sub64 lvl.total_qty r.qty;
          order_count = dec32 lvl.order_count;
        },
      ),
      rw (m, run₁, run₂),
      (
        record {
          linked = Seg-append mem₂ none head mid next tail none ys zs a₂ b₂;
          apart = AllApart-append ys zs ya pza.1 (λ q h. ground (arith, disjoint q));
          words = AllWords-append ys zs yw pzw.1;
          quantity =
              omega (arith, v.quantity, total-append ys zs, total-append ys ((p, r) ∷ zs), pzw.0);
          count = omega (arith, v.count, length-append ys zs, length-append ys ((p, r) ∷ zs));
        },
        λ q out.
            same₂ q (ground (arith, holds-append q ys ((p, r) ∷ zs)))
            ∙ same₁ q (ground (arith, holds-append q ys ((p, r) ∷ zs))),
      ),
    )

link_last-Seg :
    (mem : Memory) (lvl : LevelFifo) (tail : Option ℕ) (p : ℕ) (xs : Queue)
    → AllApart xs
    → Seg mem none lvl.head tail none xs
    → (mem' : Memory) × (head : Option ℕ) × (link_last mem lvl tail p
        ≡ some (mem', record lvl { head = head }))
      × Seg mem' none head tail (some p) xs
      × ((q : ℕ) → q ∉ xs → mem' q ≡ mem q)
unfolding link_last
link_last-Seg mem lvl tail p [] apart (c, b) = (mem, some p, rw (← b), (refl, b), λ q h. refl)
link_last-Seg mem lvl tail p (x ∷ xs) apart s =
    let (q, mem', l, run, s', same) =
      relink_last mem none lvl.head tail none (some p) x xs apart s in
    (mem', lvl.head, rw (l, run), s', same)

-- `PushBackToLevel` of an order in a slot of its own does not fault. It becomes the last of the queue,
-- the others keep their order, both counters are right, and no other slot is written.
pub push_back_to_level-IsQueue :
    (mem : Memory) (lvl : LevelFifo) (p : ℕ) (r : Resting) (prev next : Option ℕ) (xs : Queue)
    → IsQueue mem lvl xs
    → mem p ≡ live (order_of r prev next)
    → p ∉ xs
    → r.qty < u64_mod
    → Returns (push_back_to_level mem lvl p) λ (mem', lvl').
      IsQueue mem' lvl' (xs ++ (p, r) ∷ []) × ((q : ℕ) → q ∉ xs → q ≢ p → mem' q ≡ mem q)
unfolding push_back_to_level
push_back_to_level-IsQueue mem lvl p r prev next xs v m out word =
    let o = order_of r lvl.tail none in
    let mem₁ = store mem p o in
    let linked = Seg-store mem none lvl.head lvl.tail none xs p (live o) out v.linked in
    let (mem₂, head, run, s, same) = link_last-Seg mem₁ lvl lvl.tail p xs v.apart linked in
    let here : mem₂ p ≡ live o = same p out ∙ update_self mem p (live o) in
    (
      (
        mem₂,
        record {
          head = head;
          tail = some p;
          total_qty = add64 lvl.total_qty r.qty;
          order_count = inc32 lvl.order_count;
        },
      ),
      rw (m, run),
      (
        record {
          linked =
              Seg-append mem₂ none head lvl.tail (some p) (some p) none xs ((p, r) ∷ []) s
                (none, refl, here, (refl, refl));
          apart = AllApart-append xs ((p, r) ∷ []) v.apart (refl, tt) (λ q h. ground arith);
          words = AllWords-append xs ((p, r) ∷ []) v.words (word, tt);
          quantity = omega (arith, v.quantity, total-append xs ((p, r) ∷ []));
          count = omega (arith, v.count, length-append xs ((p, r) ∷ []));
        },
        λ q h ne. same q h ∙ update_ne mem p q (live o) (λ e. ne (sym e)),
      ),
    )
