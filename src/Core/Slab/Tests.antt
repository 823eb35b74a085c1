-- ===== src/Core/Slab/Tests.antt =====
-- The slab at concrete pools.
use optimal_execution_platfo.Common.{
  ◌>>=◌, ◌^◌, ℕ, ◌+◌, ◌*◌, ◌/◌, ◌<◌, ◌≡◌, ◌≢◌, ◌↔◌, refl, none, some, true, false, [], ◌∷◌, Returns,
  arith,
}
use optimal_execution_platfo.Core.Slab.{
  Slot, live, Slab, slot_size, cache_line, object_of, thread_slots, threaded, new, next_of,
  allocate, owns, deallocate, construct, new_object, delete_object, available, owns_address,
}
use optimal_execution_platfo.Core.Slab.FreeList.{
  IsFree, new-IsFree, Allocated, allocate-Allocated, deallocate-IsFree,
}
use optimal_execution_platfo.Core.Slab.Lifecycle.{allocate_many, new_drains, delete-new}
use optimal_execution_platfo.Core.Slab.Layout.{owns_address_iff, slots_apart}

program : Unit {0}
unfolding thread_slots threaded new object_of next_of allocate owns deallocate construct new_object
    delete_object available
program = tt

-- Memory that no one has written.
abbrev raw : ℕ → Slot ℕ
raw i = live 0

abbrev three : Slab ℕ
three = threaded raw 3

-- Slot 2 is in use, and slots 1 and 0 are free.
abbrev one_used : Slab ℕ
one_used = record { capacity = 3; storage = three.storage; free_head = some 1; in_use = 1 }

slot_of_order : slot_size 48 ≡ 64
unfolding slot_size
slot_of_order = refl

owns_inside : owns_address 64 3 (some 128) (some 192) ≡ true
unfolding owns_address
owns_inside = refl

owns_between : owns_address 64 3 (some 128) (some 200) ≡ false
unfolding owns_address
owns_between = refl

first_is_highest : allocate three ≡ some (some 2, one_used)
unfolding program
first_is_highest = refl

double_free_faults : deallocate three 1 ≡ none
unfolding program
double_free_faults = refl

one_used-IsFree : IsFree one_used (1 ∷ 0 ∷ [])
unfolding program
one_used-IsFree = record {
  threads = (some 0, refl, refl, (none, refl, refl, (refl, tt)));
  distinct = (refl, (refl, tt));
  below = omega arith;
  counted = refl;
}

new-IsFree_example : IsFree three (2 ∷ 1 ∷ 0 ∷ [])
new-IsFree_example = new-IsFree raw 3

allocate-Allocated_example : Returns (allocate one_used) (Allocated one_used (1 ∷ 0 ∷ []))
allocate-Allocated_example = allocate-Allocated (1 ∷ 0 ∷ []) one_used-IsFree

deallocate-IsFree_example : Returns (deallocate one_used 2) λ s'.
    IsFree s' (2 ∷ 1 ∷ 0 ∷ [])
    × (s'.in_use + 1 ≡ 1)
    × (s'.capacity ≡ 3)
    × ((q : ℕ) → q ≢ 2 → s'.storage q ≡ one_used.storage q)
deallocate-IsFree_example = deallocate-IsFree (1 ∷ 0 ∷ []) 2 one_used-IsFree (omega arith) refl

new_drains_example :
    Returns
      (do s ← new 48 raw 3; allocate_many 3 s)
      λ r. (r.0 ≡ some 2 ∷ some 1 ∷ some 0 ∷ []) × Returns (allocate r.1) (λ q. q.0 ≡ none)
unfolding slot_size
new_drains_example = new_drains 48 raw 3 (omega arith)

-- The bytes of 2^58 slots wrap to none.
new_too_large : new 48 raw (2 ^ 58) ≡ none
unfolding new slot_size
new_too_large = refl

delete-new_example : Returns (new_object one_used 7) λ r.
    (r.0 ≡ some 1)
    × (r.1.storage 1 ≡ live 7)
    × ((q : ℕ) → q ≢ 1 → r.1.storage q ≡ one_used.storage q)
    × Returns (delete_object (λ a. some tt) r.1 r.0) λ s'. IsFree s' (1 ∷ 0 ∷ []) × (s'.in_use ≡ 1)
delete-new_example = delete-new 1 (0 ∷ []) 7 (λ a. some tt) one_used-IsFree refl

owns_address_iff_example :
    (owns_address 64 3 (some 128) (some 192) ≡ true) ↔ ((i : ℕ) × (i < 3) × (192 ≡ 128 + i * 64))
owns_address_iff_example = owns_address_iff 64 3 128 192 (omega arith) (omega arith)

slots_apart_example :
    (128 + 0 * slot_size 48 + 63) / cache_line ≢ (128 + 1 * slot_size 48 + 0) / cache_line
unfolding slot_size
slots_apart_example = slots_apart 48 128 0 1 63 0 refl (omega arith) (omega arith) (omega arith)
