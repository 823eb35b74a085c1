-- ===== src/Core/Slab.antt =====
-- cpp/core/slab_allocator.hpp: the pool of fixed slots with its intrusive free list.
-- A `T*` or `Node*` into the buffer is the index of its slot, and a slot's memory is read either as
-- the free-list link or as a live `T`.
pub mod FreeList
pub mod Lifecycle
pub mod Layout
mod Tests
use optimal_execution_platfo.Common.{
  ℕ, zero, suc, ◌+◌, ◌-◌, ◌*◌, ◌/◌, ◌%◌, ◌<◌, Option, none, some, Bool, true, false, ◌||◌, ltb, leb,
  ◌==◌, if◌then◌else◌, ◌>>=◌, u64_mod, update, length, List, [], ◌∷◌,
}

abbrev pub cache_line : ℕ
cache_line = 64

-- `kSlotSize`: the size of a `T` rounded up to whole cache lines; `x & ~63` is `x / 64 * 64`.
unfoldable pub slot_size : ℕ → ℕ
slot_size size_of = (size_of + cache_line - 1) / cache_line * cache_line

-- `capacity * kSlotSize`, in a `std::size_t`
abbrev pub buffer_bytes : (slot capacity : ℕ) → ℕ
buffer_bytes slot capacity = capacity * slot % u64_mod

-- The memory of one slot.
pub data Slot {ℓ} (A : Type ℓ) : Type ℓ where
  link : Option ℕ → Slot A
  live : A → Slot A

pub record Slab {ℓ} (A : Type ℓ) : Type ℓ where
  pub capacity : ℕ
  pub storage : ℕ → Slot A
  pub free_head : Option ℕ
  pub in_use : ℕ

module _ {ℓ} {A : Type ℓ} where
  -- The loop of the constructor, with `n` rounds made.
  unfoldable pub thread_slots : (ℕ → Slot A) → ℕ → (ℕ → Slot A) × Option ℕ
  thread_slots raw zero = (raw, none)
  thread_slots raw (suc n) =
      let (storage, free_head) = thread_slots raw n in (update storage n (link free_head), some n)

  -- The slab that the constructor makes, once its loop has ended.
  unfoldable pub threaded : (ℕ → Slot A) → ℕ → Slab A
  unfolding thread_slots
  threaded raw capacity =
      let (storage, free_head) = thread_slots raw capacity in
      record { capacity = capacity; storage = storage; free_head = free_head; in_use = 0 }

  -- The constructor over a buffer that `operator new[]` returned with any content. If the size in bytes
  -- wrapped, the buffer is shorter than the slots, and the loop writes behind its end.
  unfoldable pub new : (size_of : ℕ) → (ℕ → Slot A) → ℕ → Option (Slab A)
  unfolding slot_size
  new size_of raw capacity =
      if leb (capacity * slot_size size_of) (buffer_bytes (slot_size size_of) capacity)
      then some (threaded raw capacity)
      else none

  -- `node->next` of a slot whose memory holds a link; any other memory read as one is a fault.
  unfoldable pub next_of : Slot A → Option (Option ℕ)
  next_of (link next) = some next
  next_of (live a) = none

  -- `Allocate`: the inner option is the `T*` that is returned, `none` for `nullptr`.
  unfoldable pub allocate : Slab A → Option (Option ℕ × Slab A)
  unfolding next_of
  allocate s = elim s.free_head [
    | none ↦ some (none, s)
    | some node ↦ do
      next ← next_of (s.storage node)
      some (some node, record s { free_head = next; in_use = s.in_use + 1 })
  ]

  -- `Owns` of a pointer to the start of a slot; for other addresses see `owns_address`.
  unfoldable pub owns : Slab A → Option ℕ → Bool
  owns s none = false
  owns s (some p) = ltb p s.capacity

  -- `Deallocate`. A failed assertion is a fault; `--in_use_` runs only at `in_use_ > 0`.
  unfoldable pub deallocate : Slab A → ℕ → Option (Slab A)
  unfolding owns
  deallocate s p =
      if owns s (some p)
      then (if ltb 0 s.in_use
          then some (record s {
            storage = update s.storage p (link s.free_head);
            free_head = some p;
            in_use = s.in_use - 1;
          })
          else none)
      else none

  -- `::new (raw) T(…)` or the writes of the fields through the pointer.
  unfoldable pub construct : Slab A → ℕ → A → Slab A
  construct s p a = record s { storage = update s.storage p (live a) }

  -- `New`
  unfoldable pub new_object : Slab A → A → Option (Option ℕ × Slab A)
  unfolding allocate construct
  new_object s a = do
    (p, s') ← allocate s
    elim p [ none ↦ some (none, s') | some raw ↦ some (some raw, construct s' raw a) ]

  -- The object in a slot, for `p->~T()`; a slot without one is a fault.
  unfoldable pub object_of : Slot A → Option A
  object_of (link next) = none
  object_of (live a) = some a

  -- `Delete`. What the destructor does, with the object that ends its life, is an argument: it may fault,
  -- and leaves the slab alone.
  unfoldable pub delete_object :
      (destroy : A → Option (Unit {0})) → Slab A → Option ℕ → Option (Slab A)
  unfolding deallocate object_of
  delete_object destroy s none = some s
  delete_object destroy s (some p) = do
    a ← object_of (s.storage p)
    done ← destroy a
    deallocate s p

  unfoldable pub available : Slab A → ℕ
  available s = s.capacity - s.in_use

-- `Owns` over byte addresses: `base` is `storage_`, `none` for `nullptr`.
unfoldable pub owns_address : (slot capacity : ℕ) (base p : Option ℕ) → Bool
owns_address slot capacity base none = false
owns_address slot capacity none (some raw) = false
owns_address slot capacity (some base) (some raw) =
    if ltb raw base || leb (base + buffer_bytes slot capacity) raw
    then false
    else (raw - base) % slot == 0
