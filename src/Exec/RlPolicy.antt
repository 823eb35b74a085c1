-- ===== src/Exec/RlPolicy.antt =====
-- cpp/exec/rl_policy.cpp: `RlPolicy`, which asks an actor for each child quantity. The actor is a TorchScript
-- module and not part of the program: its forward pass is an argument, `none` where it throws, and so are
-- `float` and `double` arithmetic. A failed assertion is `none` too.
pub mod CloseOut
mod Tests
use optimal_execution_platfo.Common.{
  ℕ, zero, suc, ◌+◌, ◌-◌, Option, none, some, Bool, true, false, ltb, leb, ◌==◌, if◌then◌else◌,
  ◌>>=◌, sub64, List, [], ◌∷◌, update,
}
use optimal_execution_platfo.Core.Order.{Side}
use optimal_execution_platfo.Exec.Double.{Doubles}

-- What the policy uses of `float`; `widen` is the conversion to `double`.
pub record Floats (d : Doubles) : Type 1 where
  pub Float : Type 0
  pub zero_f : Float
  pub one_f : Float
  pub less_f : Float → Float → Bool
  pub widen : Float → d.Double

abbrev pub state_dim : ℕ
state_dim = 8

module _ {d : Doubles} (fl : Floats d) where
  -- The members that change or are read; a vector is a function from its indices.
  pub record RlPolicy : Type 0 where
    pub parent_qty : ℕ
    pub parent_side : Side
    pub num_steps : ℕ
    pub input_tensor : ℕ → fl.Float
    pub child_qty : ℕ → ℕ
    pub remaining : ℕ → ℕ
    pub current_step : ℕ
    pub last_size_fraction : fl.Float
    pub last_aggression : fl.Float

  -- `ClampUnit`
  unfoldable pub clamp_unit_f : fl.Float → fl.Float
  clamp_unit_f x =
      if fl.less_f x fl.zero_f then fl.zero_f else if fl.less_f fl.one_f x then fl.one_f else x

  -- The members as `Init` leaves them.
  abbrev pub blank_policy : (parent_qty : ℕ) → Side → (num_steps : ℕ) → RlPolicy
  blank_policy parent_qty side num_steps = record {
    parent_qty = parent_qty;
    parent_side = side;
    num_steps = num_steps;
    input_tensor = λ i. fl.zero_f;
    child_qty = λ j. 0;
    remaining = update (λ j. 0) 0 parent_qty;
    current_step = 0;
    last_size_fraction = fl.zero_f;
    last_aggression = fl.zero_f;
  }

  -- The constructor and `Init`
  unfoldable pub init_policy : (parent_qty : ℕ) → Side → (num_steps : ℕ) → Option RlPolicy
  init_policy parent_qty side num_steps =
      if leb 1 num_steps then some (blank_policy parent_qty side num_steps) else none

  -- The loop of `WriteState` over the first `n` elements.
  unfoldable pub copy_state : (n : ℕ) → (state dst : ℕ → fl.Float) → ℕ → fl.Float
  copy_state zero state dst = dst
  copy_state (suc n) state dst = update (copy_state n state dst) n (state n)

  -- `WriteState`
  unfoldable pub write_state : RlPolicy → (ℕ → fl.Float) → RlPolicy
  write_state p state = record p { input_tensor = copy_state state_dim state p.input_tensor }

  -- The quantity of the current step.
  unfoldable pub decode_quantity : RlPolicy → (size_fraction : fl.Float) → ℕ
  decode_quantity p size_fraction =
      let remaining_before = p.remaining p.current_step in
      let q = d.round_to_quantity (d.times (d.of_size remaining_before) (fl.widen size_fraction)) in
      if p.current_step + 1 == p.num_steps
      then remaining_before
      else if ltb remaining_before q
      then remaining_before
      else q

  -- The writes at the end of `ComputeNextAction`.
  abbrev pub take_action : RlPolicy → (action : fl.Float × fl.Float) → RlPolicy
  take_action p (size, aggression) =
      let size_fraction = clamp_unit_f size in
      let q = decode_quantity p size_fraction in
      record p {
        child_qty = update p.child_qty p.current_step q;
        remaining = update p.remaining (p.current_step + 1) (sub64 (p.remaining p.current_step) q);
        last_size_fraction = size_fraction;
        last_aggression = clamp_unit_f aggression;
        current_step = p.current_step + 1;
      }

  module _ (forward : (ℕ → fl.Float) → Option (fl.Float × fl.Float)) where
    -- `ComputeNextAction`
    unfoldable pub compute_next_action : RlPolicy → Option RlPolicy
    compute_next_action p = do
      action ← forward p.input_tensor
      if ltb p.current_step p.num_steps then some (take_action p action) else none

    -- A `WriteState` and a `ComputeNextAction` for each of these observations.
    unfoldable pub run_policy : RlPolicy → List (ℕ → fl.Float) → Option RlPolicy
    run_policy p [] = some p
    run_policy p (state ∷ states) = do
      p' ← compute_next_action (write_state p state)
      run_policy p' states
