-- ===== src/Core/Slab/Layout.antt =====
-- Addresses of slots: which pointers `Owns` accepts, and why two slots never share a cache line.
use optimal_execution_platfo.Common.{
  ℕ, suc, ◌+◌, ◌-◌, ◌*◌, ◌/◌, ◌%◌, ◌<◌, ◌≤◌, ◌≡◌, ◌≢◌, ◌↔◌, some, true, arith, u64_mod,
}
use native.Mathlib.Nat.{mod-add-div, mul-le-mul_right, lt_of_mul-lt-mul_left, mul_comm}
use optimal_execution_platfo.Common.Words.{mod_unique}
use optimal_execution_platfo.Core.Slab.{cache_line, slot_size, owns_address}

-- A slot is a whole number of cache lines, large enough for a `T`, and less than a line too large.
pub slot_size_bounds :
    (size : ℕ)
    → 0 < size
    → (slot_size size % cache_line ≡ 0)
      × (size ≤ slot_size size)
      × (slot_size size < size + cache_line)
      × (cache_line ≤ slot_size size)
unfolding slot_size
slot_size_bounds size h = omega arith

-- If the size of the buffer in bytes does not wrap, `Owns` accepts exactly the addresses at which one of
-- the `capacity` slots starts.
pub owns_address_iff :
    (slot capacity base raw : ℕ)
    → 0 < slot
    → capacity * slot < u64_mod
    → (owns_address slot capacity (some base) (some raw) ≡ true)
      ↔ ((i : ℕ) × (i < capacity) × (raw ≡ base + i * slot))
unfolding owns_address
owns_address_iff slot capacity base raw pos fits =
    let q = (raw - base) / slot in
    let whole : capacity * slot % u64_mod ≡ capacity * slot = omega arith in
    let e = mod-add-div (raw - base) slot in
    (
      λ h. (
        q,
        lt_of_mul-lt-mul_left slot (ground (arith, mul_comm slot capacity)),
        ground (arith, mul_comm slot q),
      ),
      λ (i, below, at).
          let le = mul-le-mul_right slot below in
          let exact = mod_unique (raw - base) slot i 0 (grind arith) pos in ground (arith, exact),
    )

slots_ordered :
    (lines base i j a b : ℕ)
    → base % cache_line ≡ 0
    → a < lines * cache_line
    → i < j
    → (base + i * (lines * cache_line) + a) / cache_line
      < (base + j * (lines * cache_line) + b) / cache_line
slots_ordered lines base i j a b aligned ha h =
    let le = mul-le-mul_right lines h in
    let next : suc i * lines ≡ i * lines + lines = grind arith in omega arith

-- Two bytes of different slots lie on different cache lines, if the buffer is aligned to one.
pub slots_apart :
    (size base i j a b : ℕ)
    → base % cache_line ≡ 0
    → a < slot_size size
    → b < slot_size size
    → i ≢ j
    → (base + i * slot_size size + a) / cache_line ≢ (base + j * slot_size size + b) / cache_line
unfolding slot_size
slots_apart size base i j a b aligned ha hb ne =
    let lines = (size + cache_line - 1) / cache_line in
    ground (
      arith,
      slots_ordered lines base i j a b aligned ha,
      slots_ordered lines base j i b a aligned hb,
    )
