-- ===== src/Core/Slab/Lifecycle.antt =====
-- Sequences of calls on a slab: what is handed out, and in which order.
use optimal_execution_platfo.Common.{
  ℕ, zero, suc, ◌≡◌, refl, ap, ◌≢◌, Option, none, some, arith, List, [], ◌∷◌, Returns, update_self,
  update_ne, length, ◌%◌, ◌*◌, ◌<◌, leb, true, u64_mod, ◌>>=◌, map, sym, ◌∙◌, subst,
}
use optimal_execution_platfo.Common.Slots.{◌∉◌}
use optimal_execution_platfo.Core.Slab.{
  object_of, Slab, Slot, live, slot_size, threaded, new, allocate, construct, new_object,
  delete_object,
}
use optimal_execution_platfo.Core.Slab.FreeList.{
  IsFree, Threads-update, countdown, length-countdown, new-IsFree, Allocated, allocate-Allocated,
  deallocate-IsFree,
}

module _ {ℓ} {A : Type ℓ} where
  -- A write of an object to a slot in use does not touch the free list.
  pub construct-IsFree :
      {s : Slab A} (p : ℕ) (xs : List ℕ) (a : A)
      → IsFree s xs
      → p ∉ xs
      → IsFree (construct s p a) xs
  unfolding construct
  construct-IsFree {s} p xs a v out = record {
    threads = Threads-update s.storage s.free_head xs p (live a) out v.threads;
    distinct = v.distinct;
    below = v.below;
    counted = v.counted;
  }

  -- `construct` writes its own slot only.
  pub construct_self : (s : Slab A) (p : ℕ) (a : A) → (construct s p a).storage p ≡ live a
  unfolding construct
  construct_self s p a = update_self s.storage p (live a)

  pub construct_other :
      (s : Slab A) (p : ℕ) (a : A) (q : ℕ) → q ≢ p → (construct s p a).storage q ≡ s.storage q
  unfolding construct
  construct_other s p a q ne = update_ne s.storage p q (live a) (λ e. ne (sym e))

  pub construct_capacity : (s : Slab A) (p : ℕ) (a : A) → (construct s p a).capacity ≡ s.capacity
  unfolding construct
  construct_capacity s p a = refl

  pub construct_in_use : (s : Slab A) (p : ℕ) (a : A) → (construct s p a).in_use ≡ s.in_use
  unfolding construct
  construct_in_use s p a = refl

  -- `Allocate` with a free slot, with the slot that it returns written out.
  allocate-cons :
      {s : Slab A} (x : ℕ) (xs : List ℕ)
      → IsFree s (x ∷ xs)
      → (s' : Slab A) × (allocate s ≡ some (some x, s')) × Allocated s (x ∷ xs) (some x, s')
  allocate-cons x xs v =
      let ((p, s'), run, (e, v', out, below, used, cap, same)) = allocate-Allocated (x ∷ xs) v in
      (s', run ∙ ap (λ q. some (q, s')) e, (refl, v', out, below, used, cap, same))

  -- The constructor ends normally, if the size in bytes does not wrap.
  pub new-threaded :
      (size_of : ℕ) (raw : ℕ → Slot A) (capacity : ℕ)
      → capacity * slot_size size_of < u64_mod
      → new size_of raw capacity ≡ some (threaded raw capacity)
  unfolding new
  new-threaded size_of raw capacity fits =
      let bytes = capacity * slot_size size_of in
      let whole : leb bytes (bytes % u64_mod) ≡ true = ground arith in rw whole

  -- `n` calls of `Allocate` in a row, with the slots that they return.
  abbrev pub allocate_many : ℕ → Slab A → Option (List (Option ℕ) × Slab A)
  allocate_many zero s = some ([], s)
  allocate_many (suc n) s = do
    (p, s') ← allocate s
    (ps, s'') ← allocate_many n s'
    some (p ∷ ps, s'')

  drain-map :
      (xs : List ℕ) {s : Slab A}
      → IsFree s xs
      → Returns (allocate_many (length xs) s) λ r. (r.0 ≡ map some xs) × IsFree r.1 []
  drain-map [] v = (_, refl, (refl, v))
  drain-map (x ∷ xs) v =
      let ((p, s'), run, (e, v', _, _, _, _, _)) = allocate-Allocated (x ∷ xs) v in
      let ((ps, s''), run', (e', v'')) = drain-map xs v' in
      ((p ∷ ps, s''), rw (run, run'), (rw (e, e'), v''))

  -- If its size in bytes does not wrap, a new slab of `n` slots hands out each of them exactly once, the
  -- highest index first and then downwards, and after `n` calls of `Allocate` the next one returns `nullptr`.
  pub new_drains :
      (size_of : ℕ) (raw : ℕ → Slot A) (n : ℕ)
      → n * slot_size size_of < u64_mod
      → Returns
          (do s ← new size_of raw n; allocate_many n s)
          λ r. (r.0 ≡ map some (countdown n)) × Returns (allocate r.1) (λ q. q.0 ≡ none)
  new_drains size_of raw n fits =
      let (r, run, (e, v)) = drain-map (countdown n) (new-IsFree raw n) in
      let (q, run', (end, _, _)) = allocate-Allocated [] v in
      (
        r,
        rw (new-threaded size_of raw n fits)
            (subst (λ k. allocate_many k (threaded raw n) ≡ some r) (length-countdown n) run),
        (e, (q, run', end)),
      )

  -- `New` on a slab with a free slot does not fault: it constructs the object in the first free
  -- slot, and no other slot changes; `Delete` of that pointer, with a destructor that returns, brings the
  -- same free list and count back.
  pub delete-new :
      {s : Slab A} (x : ℕ) (xs : List ℕ) (a : A) (destroy : A → Option (Unit {0}))
      → IsFree s (x ∷ xs)
      → destroy a ≡ some tt
      → Returns (new_object s a) λ r.
        (r.0 ≡ some x)
        × (r.1.storage x ≡ live a)
        × ((q : ℕ) → q ≢ x → r.1.storage q ≡ s.storage q)
        × Returns (delete_object destroy r.1 r.0) λ s'. IsFree s' (x ∷ xs) × (s'.in_use ≡ s.in_use)
  unfolding new_object delete_object object_of construct
  delete-new {s} x xs a destroy v ends =
      let (s', run, (_, v', out, below, used, cap, same)) = allocate-cons x xs v in
      let built = construct-IsFree x xs a v' out in
      let (s'', run', (v'', used', _, _)) = deallocate-IsFree xs x built (rw cap below) out in
      (
        (some x, construct s' x a),
        rw run,
        (
          refl,
          update_self s'.storage x (live a),
          λ q n. update_ne s'.storage x q (live a) (λ h. n (sym h)) ∙ ap (λ st. st q) same,
          (s'', rw (update_self s'.storage x (live a), ends) run', (v'', omega arith)),
        ),
      )
