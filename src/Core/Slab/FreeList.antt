-- ===== src/Core/Slab/FreeList.antt =====
-- The free list of a slab: what `Allocate` and `Deallocate` keep, on every branch.
use optimal_execution_platfo.Common.{
  ℕ, zero, suc, ◌+◌, ◌-◌, ◌<◌, ◌≡◌, refl, ap, ◌≢◌, Option, none, some, arith, List, [], ◌∷◌,
  Returns, update, update_self, length,
}
use optimal_execution_platfo.Common.Slots.{
  ◌∉◌, IsDistinct, AllBelow, pigeonhole, AllBelow-mono, not-mem_of_below,
}
use optimal_execution_platfo.Core.Slab.{
  Slab, Slot, link, thread_slots, threaded, next_of, allocate, deallocate, owns,
}

-- `n - 1, …, 1, 0`
abbrev pub countdown : ℕ → List ℕ
countdown zero = []
countdown (suc n) = n ∷ countdown n

countdown-AllBelow : (n : ℕ) → AllBelow n (countdown n)
countdown-AllBelow zero = tt
countdown-AllBelow (suc n) =
    (omega arith, AllBelow-mono n (suc n) (countdown n) (omega arith) (countdown-AllBelow n))

countdown-IsDistinct : (n : ℕ) → IsDistinct (countdown n)
countdown-IsDistinct zero = tt
countdown-IsDistinct (suc n) = (
  not-mem_of_below n n (countdown n) (countdown-AllBelow n) (omega arith),
  countdown-IsDistinct n,
)

pub length-countdown : (n : ℕ) → length (countdown n) ≡ n
length-countdown zero = refl
length-countdown (suc n) = ap suc (length-countdown n)

module _ {ℓ} {A : Type ℓ} where
  -- From `head` the links lead through the slots `xs`, in order, to the end.
  abbrev pub Threads : (ℕ → Slot A) → Option ℕ → List ℕ → Type ℓ
  Threads storage head [] = (head ≡ none) × Unit {ℓ}
  Threads storage head (x ∷ xs) =
      (next : Option ℕ) × (head ≡ some x) × (storage x ≡ link next) × Threads storage next xs

  -- The free slots of `s`, from the head on, are `xs`; all others are in use.
  pub record IsFree (s : Slab A) (xs : List ℕ) : Type ℓ where
    pub threads : Threads s.storage s.free_head xs
    pub distinct : IsDistinct xs
    pub below : AllBelow s.capacity xs
    pub counted : length xs + s.in_use ≡ s.capacity

  -- A write to a slot that is not on the list does not touch the list.
  pub Threads-update :
      (storage : ℕ → Slot A) (head : Option ℕ) (xs : List ℕ) (p : ℕ) (v : Slot A)
      → p ∉ xs
      → Threads storage head xs
      → Threads (update storage p v) head xs
  Threads-update storage head [] p v out t = t
  Threads-update storage head (x ∷ xs) p v out (next, h, l, t) =
      (next, h, ground arith, Threads-update storage next xs p v (ground arith) t)

  thread_slots-Threads :
      (raw : ℕ → Slot A) (n : ℕ)
      → Threads (thread_slots raw n).0 (thread_slots raw n).1 (countdown n)
  unfolding thread_slots
  thread_slots-Threads raw zero = (refl, tt)
  thread_slots-Threads raw (suc n) =
      let (storage, head) = thread_slots raw n in
      let out = not-mem_of_below n n (countdown n) (countdown-AllBelow n) (omega arith) in
      (
        head,
        refl,
        update_self storage n (link head),
        Threads-update storage head (countdown n) n (link head) out (thread_slots-Threads raw n),
      )

  -- A new slab has every slot on its free list, the highest index first, and none in use.
  pub new-IsFree : (raw : ℕ → Slot A) (n : ℕ) → IsFree (threaded raw n) (countdown n)
  unfolding threaded
  new-IsFree raw n = record {
    threads = thread_slots-Threads raw n;
    distinct = countdown-IsDistinct n;
    below = countdown-AllBelow n;
    counted = omega (arith, length-countdown n);
  }

  -- What `Allocate` does at a slab whose free slots are `xs`.
  abbrev pub Allocated : Slab A → List ℕ → Option ℕ × Slab A → Type ℓ
  Allocated s [] (p, s') = (p ≡ none) × (s' ≡ s) × (s.in_use ≡ s.capacity)
  Allocated s (x ∷ xs) (p, s') =
      (p ≡ some x)
      × IsFree s' xs
      × (x ∉ xs)
      × (x < s.capacity)
      × (s'.in_use ≡ s.in_use + 1)
      × (s'.capacity ≡ s.capacity)
      × (s'.storage ≡ s.storage)

  -- On a slab whose free slots are `xs`, `Allocate` does not fault. With no free slot every slot is
  -- in use, and it returns `nullptr` and changes nothing. Otherwise it returns the first of them, a
  -- slot of the buffer that is no longer free, counts it, and leaves the other slots free and the
  -- memory as it was.
  pub allocate-Allocated :
      {s : Slab A} (xs : List ℕ) → IsFree s xs → Returns (allocate s) (Allocated s xs)
  unfolding allocate next_of
  allocate-Allocated {s} [] v =
      let end = v.threads.0 in ((none, s), ground arith, (refl, refl, omega (arith, v.counted)))
  allocate-Allocated {s} (x ∷ xs) v =
      let (next, h, l, t) = v.threads in
      (
        (some x, record s { free_head = next; in_use = s.in_use + 1 }),
        ground arith,
        (
          refl,
          record {
            threads = t;
            distinct = v.distinct.1;
            below = v.below.1;
            counted = omega (arith, v.counted);
          },
          v.distinct.0,
          v.below.0,
          refl,
          refl,
          refl,
        ),
      )

  -- `Deallocate` of a slot that is in use does not fault: the slot becomes the first free one, its
  -- memory the link to the others, and no other slot changes.
  pub deallocate-IsFree :
      {s : Slab A} (xs : List ℕ) (p : ℕ)
      → IsFree s xs
      → p < s.capacity
      → p ∉ xs
      → Returns (deallocate s p) λ s'.
        IsFree s' (p ∷ xs)
        × (s'.in_use + 1 ≡ s.in_use)
        × (s'.capacity ≡ s.capacity)
        × ((q : ℕ) → q ≢ p → s'.storage q ≡ s.storage q)
  unfolding deallocate owns
  deallocate-IsFree {s} xs p v h out =
      let room = pigeonhole s.capacity (p ∷ xs) (out, v.distinct) (h, v.below) in
      let used : 0 < s.in_use = omega (arith, v.counted) in
      (
        record s {
          storage = update s.storage p (link s.free_head);
          free_head = some p;
          in_use = s.in_use - 1;
        },
        ground arith,
        (
          record {
            threads = (
              s.free_head,
              refl,
              update_self s.storage p (link s.free_head),
              Threads-update s.storage s.free_head xs p (link s.free_head) out v.threads,
            );
            distinct = (out, v.distinct);
            below = (h, v.below);
            counted = omega (arith, v.counted);
          },
          omega arith,
          refl,
          λ q n. ground arith,
        ),
      )
