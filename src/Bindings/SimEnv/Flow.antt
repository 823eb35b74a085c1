-- ===== src/Bindings/SimEnv/Flow.antt =====
-- cpp/bindings/py_module.cpp: the synthetic orders of `StepImpl`, their expiry, and the cancels of
-- `ResetInternal`.
pub mod Kept
pub mod Emptied
use optimal_execution_platfo.Common.{
  ℕ, zero, suc, ◌+◌, ◌-◌, ◌%◌, Option, none, some, Bool, true, false, ◌&&◌, ltb, leb, if◌then◌else◌,
  ◌>>=◌, add64, update,
}
use optimal_execution_platfo.Common.Int.{to_int64, ℤ, pos, ◌+ℤ◌, ◌-ℤ◌}
use optimal_execution_platfo.Core.Order.{Side, buy, sell}
use optimal_execution_platfo.Core.Book.{open_order_count}
use optimal_execution_platfo.Exec.Publisher.{Publisher, publish_add_limit, publish_cancel}
use optimal_execution_platfo.Main.Random.{next_random, is_odd}
pub use optimal_execution_platfo.Main.Sim.{book_capacity, default_band}

abbrev pub liquidity_lifetime_steps : ℕ
liquidity_lifetime_steps = 3

-- The members of `SimEnv` that the synthetic orders change.
pub record Market : Type 0 where
  pub publisher : Publisher
  pub rng : ℕ
  pub next_id : ℕ
  pub resting_ids : ℕ → ℕ
  pub resting_count : ℕ
  pub bg_ids : ℕ → ℕ
  pub bg_birth : ℕ → ℕ
  pub bg_count : ℕ
  pub bg_head : ℕ

-- `arrival_mid - 1 - depth` or `arrival_mid + 1 + depth`, in signed 64-bit operations
unfoldable pub flow_price : ℤ → Bool → (depth : ℕ) → Option ℤ
flow_price arrival_mid true depth = do
  below ← to_int64 (arrival_mid -ℤ pos 1)
  to_int64 (below -ℤ pos depth)
flow_price arrival_mid false depth = do
  above ← to_int64 (arrival_mid +ℤ pos 1)
  to_int64 (above +ℤ pos depth)

-- `10 + Next() % 40`
unfoldable pub flow_quantity : ℕ → ℕ
flow_quantity r = 10 + r % 40

-- An order that `AddLimit` took is noted for the reset and for its expiry.
abbrev pub note_flow : Market → (step_idx id : ℕ) → (ok : Bool) → Publisher → Market
note_flow m step_idx id true p = record m {
  publisher = p;
  resting_ids = update m.resting_ids m.resting_count id;
  resting_count = m.resting_count + 1;
  bg_ids = update m.bg_ids m.bg_count id;
  bg_birth = update m.bg_birth m.bg_count step_idx;
  bg_count = m.bg_count + 1;
}
note_flow m step_idx id false p = record m { publisher = p }

-- The test of the expiry loop.
abbrev pub is_expired : (step_idx : ℕ) → Market → Bool
is_expired step_idx m =
    ltb m.bg_head m.bg_count && leb (add64 (m.bg_birth m.bg_head) liquidity_lifetime_steps) step_idx

module _ (clock : ℕ → ℕ) where
  -- The expiry loop; it fails if the fuel does not reach its end.
  unfoldable pub expire_from : (fuel step_idx : ℕ) → Market → Option Market
  expire_from zero step_idx m = if is_expired step_idx m then none else some m
  expire_from (suc fuel) step_idx m =
      let more = (do
        (ok, p) ← publish_cancel clock m.publisher (m.bg_ids m.bg_head)
        expire_from fuel step_idx (record m { publisher = p; bg_head = m.bg_head + 1 })) in
      if is_expired step_idx m then more else some m

  abbrev pub expire : (step_idx : ℕ) → Market → Option Market
  expire step_idx m = expire_from (m.bg_count - m.bg_head) step_idx m

  -- The last id of `resting_ids` is taken out and cancelled, if the slab is nearly full.
  unfoldable pub make_room : Market → Option Market
  make_room m =
      let evict = (do
        (ok, p) ← publish_cancel clock m.publisher (m.resting_ids (m.resting_count - 1))
        some (record m { publisher = p; resting_count = m.resting_count - 1 })) in
      if leb (book_capacity - 8) (open_order_count m.publisher.book)
      then (if ltb 0 m.resting_count then evict else some m)
      else some m

  -- One synthetic order; its random numbers are drawn before the slab is checked.
  unfoldable pub flow_order : (arrival_mid : ℤ) (step_idx : ℕ) → Market → Option Market
  flow_order arrival_mid step_idx m =
      let r₁ = next_random m.rng in
      let r₂ = next_random r₁ in
      let r₃ = next_random r₂ in
      let is_buy = is_odd r₁ in
      let side : Side = if is_buy then buy else sell in
      (do
        px ← flow_price arrival_mid is_buy (r₂ % 5)
        m₁ ← make_room (record m { rng = r₃; next_id = add64 m.next_id 1 })
        (ok, p) ← publish_add_limit clock m₁.publisher m.next_id side px (flow_quantity r₃)
        some (note_flow m₁ step_idx m.next_id ok p))

  -- The burst, with the orders to go.
  unfoldable pub background_flow : (arrival_mid : ℤ) (step_idx orders : ℕ) → Market → Option Market
  background_flow arrival_mid step_idx zero m = some m
  background_flow arrival_mid step_idx (suc n) m = do
    m' ← flow_order arrival_mid step_idx m
    background_flow arrival_mid step_idx n m'

  -- The cancels of `ResetInternal`, from the id at index `i` on.
  unfoldable pub cancel_ids : (todo i : ℕ) → (ℕ → ℕ) → Publisher → Option Publisher
  cancel_ids zero i ids p = some p
  cancel_ids (suc n) i ids p = do
    (ok, p') ← publish_cancel clock p (ids i)
    cancel_ids n (i + 1) ids p'

  -- `ResetInternal`, as far as it changes these members.
  unfoldable pub cancel_resting : Market → Option Market
  cancel_resting m = do
    p ← cancel_ids m.resting_count 0 m.resting_ids m.publisher
    some (record m { publisher = p; resting_count = 0; bg_count = 0; bg_head = 0; next_id = 1 })
