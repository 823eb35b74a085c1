-- ===== src/Core/IdIndex.antt =====
-- The id index of cpp/core/order_book.hpp: an open-addressing hash table from `OrderId` to `Order*`
-- with linear probing and back-shift deletion. An `Order*` is the index of its slab slot.
-- The loops run on fuel; `none` is a loop that would go on past it.
pub mod Cycle
pub mod Table
pub mod Probe
pub mod Hole
pub mod Move
pub mod Shift
pub mod Erase
pub mod Churn
mod Tests
use optimal_execution_platfo.Common.{
  ℕ, zero, suc, ◌+◌, ◌-◌, ◌*◌, ◌/◌, ◌%◌, ◌^◌, Option, none, some, Bool, true, false, ltb, leb, ◌==◌,
  if◌then◌else◌, update, bit_and, bit_xor, add64, sub64, mul64, ◌>>=◌,
}

-- `IdEntry`; `IdEntry{}` is `vacant`.
pub record IdEntry : Type 0 where
  pub id : ℕ
  pub ptr : Option ℕ

abbrev pub vacant : IdEntry
vacant = record { id = 0; ptr = none }

-- `id_index_` with `id_capacity_` and `id_mask_`
pub record IdIndex : Type 0 where
  pub capacity : ℕ
  pub mask : ℕ
  pub entries : ℕ → IdEntry

-- `while (p < n) p <<= 1`, at most `fuel` times
unfoldable pub double_until : ℕ → ℕ → ℕ → ℕ
double_until zero p n = p
double_until (suc fuel) p n = let rest = double_until fuel (p * 2) n in if ltb p n then rest else p

-- `RoundUpPow2`. 63 doublings reach every power of two of a 64-bit word.
unfoldable pub round_up_pow2 : ℕ → ℕ
unfolding double_until
round_up_pow2 n = double_until 63 1 n

-- `MixId`, the splitmix64 finaliser
unfoldable pub mix_id : ℕ → ℕ
mix_id id =
    let x = add64 id 0x9E3779B97F4A7C15 in
    let y = mul64 (bit_xor x (x / 2 ^ 30)) 0xBF58476D1CE4E5B9 in
    let z = mul64 (bit_xor y (y / 2 ^ 27)) 0x94D049BB133111EB in bit_xor z (z / 2 ^ 31)

-- The members as the constructor of `OrderBook` sets them.
unfoldable pub new : ℕ → IdIndex
unfolding round_up_pow2
new order_capacity =
    let n = round_up_pow2 ((if order_capacity == 0 then 1 else order_capacity) * 2) in
    record { capacity = n; mask = n - 1; entries = λ _. vacant }

unfoldable pub home : IdIndex → ℕ → ℕ
home t id = bit_and (mix_id id) t.mask

-- `(slot + 1) & id_mask_`
abbrev pub next_slot : IdIndex → ℕ → ℕ
next_slot t slot = bit_and (add64 slot 1) t.mask

-- `(to - from) & id_mask_`
abbrev pub distance : IdIndex → ℕ → ℕ → ℕ
distance t from to = bit_and (sub64 to from) t.mask

-- The search of `InsertId` for an empty slot.
unfoldable pub free_slot : IdIndex → ℕ → ℕ → Option ℕ
free_slot t zero slot = none
free_slot t (suc fuel) slot = elim (t.entries slot).ptr [
  | none ↦ some slot
  | some o ↦ free_slot t fuel (next_slot t slot)
]

-- `InsertId`
unfoldable pub insert_id : IdIndex → ℕ → ℕ → Option IdIndex
insert_id t id o = do
  slot ← free_slot t t.capacity (home t id)
  some (record t { entries = update t.entries slot (record { id = id; ptr = some o }) })

-- The body of the shift at an occupied `next`: the table and the hole after it.
unfoldable pub shift_entry : IdIndex → ℕ → ℕ → IdIndex × ℕ
shift_entry t hole next =
    if leb (distance t hole next) (distance t (home t (t.entries next).id) next)
    then (record t { entries = update t.entries hole (t.entries next) }, next)
    else (t, hole)

-- The shift loop, which ends by clearing the hole at the first empty slot.
unfoldable pub shift_back : ℕ → IdIndex → ℕ → ℕ → Option IdIndex
shift_back zero t hole next = none
shift_back (suc fuel) t hole next = elim (t.entries next).ptr [
  | none ↦ some (record t { entries = update t.entries hole vacant })
  | some o ↦
      let (t', hole') = shift_entry t hole next in shift_back fuel t' hole' (next_slot t next)
]

-- The probe loop of `LookupAndEraseId`, with `probes` rounds left: the slot of the id, if any.
unfoldable pub find_slot : IdIndex → ℕ → ℕ → ℕ → Option (ℕ × ℕ)
find_slot t id zero slot = none
find_slot t id (suc probes) slot = elim (t.entries slot).ptr [
  | none ↦ none
  | some o ↦
      let rest = find_slot t id probes (next_slot t slot) in
      if (t.entries slot).id == id then some (slot, o) else rest
]

-- `LookupAndEraseId`: the inner option is the `Order*` that it returns.
unfoldable pub lookup_and_erase_id : IdIndex → ℕ → Option (Option ℕ × IdIndex)
lookup_and_erase_id t id = elim (find_slot t id t.capacity (home t id)) [
  | none ↦ some (none, t)
  | some (slot, o) ↦ do t' ← shift_back t.capacity t slot (next_slot t slot); some (some o, t')
]
