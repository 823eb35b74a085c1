-- ===== src/Bindings/SimEnv.antt =====
-- cpp/bindings/py_module.cpp: `SimEnv`. Floating-point arithmetic is an argument, as the schedules have it.
-- The vectors are functions from their indices, each with its size. The child order shares the ring and the clock of the publisher and has sequence numbers of its own.
pub mod Flow
pub mod Sound
pub mod Cash
pub mod Child
pub mod Reset
pub mod Episode
pub mod Life
mod Tests
use optimal_execution_platfo.Common.{
  ℕ, zero, suc, ◌+◌, ◌-◌, ◌*◌, ◌%◌, Option, none, some, Bool, true, false, ◌&&◌, ◌||◌, ltb, leb,
  ◌==◌, if◌then◌else◌, ◌>>=◌, add64, sub64, update, List, [], ◌∷◌,
}
use optimal_execution_platfo.Common.Int.{to_int64, ℤ, pos, negsuc, sub_ℕ, ltb_ℤ, eqb_ℤ, ◌+ℤ◌, ◌-ℤ◌}
use optimal_execution_platfo.Core.Order.{Side, buy, sell, Fill, Memory}
use optimal_execution_platfo.Core.Ladder.{Band}
use optimal_execution_platfo.Core.Book.{
  Book, new_book, add_limit, open_order_count, has_best, best_price,
}
use optimal_execution_platfo.Core.Ring.{new_ring}
use optimal_execution_platfo.External.Event.{TelemetryEvent}
use optimal_execution_platfo.External.Ipc.{signed}
use optimal_execution_platfo.Exec.Double.{Doubles}
use optimal_execution_platfo.Exec.RlPolicy.{Floats, clamp_unit_f}
use optimal_execution_platfo.Exec.Publisher.{Publisher, on_fills, acknowledge}
use optimal_execution_platfo.Bindings.SimEnv.Flow.{
  Market, expire, background_flow, cancel_resting, book_capacity, default_band,
}

-- What the rewards and the observations use of `float` and `double`, with their constants.
pub record RewardFloats {d : Doubles} (fl : Floats d) : Type 0 where
  pub float_of_size : ℕ → fl.Float
  pub float_of_price : ℤ → fl.Float
  pub times_f : fl.Float → fl.Float → fl.Float
  pub divide_f : fl.Float → fl.Float → fl.Float
  pub plus_f : fl.Float → fl.Float → fl.Float
  pub minus_f : fl.Float → fl.Float → fl.Float
  pub negate_f : fl.Float → fl.Float
  pub at_most_f : fl.Float → fl.Float → Bool
  -- `static_cast<std::uint64_t>`
  pub truncate : fl.Float → ℕ
  pub half_f : fl.Float
  pub phi : fl.Float
  pub double_of_price : ℤ → d.Double
  pub negate_d : d.Double → d.Double
  pub basis_points : d.Double
  pub kappa : d.Double
  pub narrow : d.Double → fl.Float

-- The product of two integers.
abbrev pub times_ℤ : ℤ → ℤ → ℤ
times_ℤ (pos m) (pos n) = pos (m * n)
times_ℤ (pos m) (negsuc n) = sub_ℕ 0 (m * suc n)
times_ℤ (negsuc m) (pos n) = sub_ℕ 0 (suc m * n)
times_ℤ (negsuc m) (negsuc n) = pos (suc m * suc n)

-- `child_cash += price * qty` for each fill in turn, in signed 64-bit operations.
unfoldable pub fills_cash : ℤ → List Fill → Option ℤ
fills_cash cash [] = some cash
fills_cash cash (f ∷ fs) = do
  product ← to_int64 (times_ℤ f.price (signed f.qty))
  sum ← to_int64 (cash +ℤ product)
  fills_cash sum fs

module _ {d : Doubles} {fl : Floats d} (rf : RewardFloats fl) where
  -- The members of `SimEnv`; those that the background flow changes are its `market`.
  pub record SimEnv : Type 0 where
    pub parent_qty : ℕ
    pub horizon_steps : ℕ
    pub arrival_mid : ℤ
    pub market : Market
    pub fused_seq : ℕ
    pub remaining : ℕ
    pub qty_filled : ℕ
    pub cash_from_fills : ℤ
    pub step_idx : ℕ
    pub done : Bool
    pub state_buf : ℕ → fl.Float

  -- `MaybeCloseOut`
  unfoldable pub maybe_close_out : SimEnv → SimEnv
  maybe_close_out e = record e {
    done = if e.remaining == 0 || leb e.horizon_steps e.step_idx then true else e.done;
  }

  -- `x / parent_qty` as floats
  abbrev share : SimEnv → ℕ → fl.Float
  share e n = rf.divide_f (rf.float_of_size n) (rf.float_of_size e.parent_qty)

  -- `WriteState`
  unfoldable pub write_observation : SimEnv → SimEnv
  write_observation e =
      let b = e.market.publisher.book in
      let bb = if has_best b buy then best_price b buy else pos 0 in
      let ba = if has_best b sell then best_price b sell else pos 0 in
      let one_sided = eqb_ℤ bb (pos 0) || eqb_ℤ ba (pos 0) in
      let s₀ = update e.state_buf 0 (share e e.remaining) in
      let s₁ = update s₀ 1 (
        if e.horizon_steps == 0
        then fl.zero_f
        else rf.minus_f fl.one_f
            (rf.divide_f (rf.float_of_size e.step_idx) (rf.float_of_size e.horizon_steps))) in
      let s₂ = update s₁ 2 (rf.float_of_price bb) in
      let s₃ = update s₂ 3 (rf.float_of_price ba) in
      let s₄ = update s₃ 4 (
        if one_sided
        then fl.zero_f
        else rf.minus_f (rf.float_of_price ba) (rf.float_of_price bb)) in
      let s₅ = update s₄ 5 (
        if one_sided
        then rf.float_of_price e.arrival_mid
        else rf.times_f rf.half_f (rf.plus_f (rf.float_of_price bb) (rf.float_of_price ba))) in
      let s₆ = update s₅ 6 (share e e.qty_filled) in
      let s₇ = update s₆ 7 (
        if e.qty_filled == 0 || eqb_ℤ e.arrival_mid (pos 0)
        then fl.one_f
        else rf.narrow (
            d.divide (rf.double_of_price e.cash_from_fills)
              (d.times (d.of_size e.qty_filled) (rf.double_of_price e.arrival_mid)))) in
      record e { state_buf = s₇ }

  -- `step_idx_ + 1 >= horizon_steps_`
  abbrev pub is_terminal : SimEnv → Bool
  is_terminal e = leb e.horizon_steps (add64 e.step_idx 1)

  -- The quantity of the child order.
  unfoldable pub child_quantity : SimEnv → (size_frac : fl.Float) → ℕ
  child_quantity e size_frac =
      if is_terminal e
      then e.remaining
      else rf.truncate (rf.times_f size_frac (rf.float_of_size e.remaining))

  -- Its price: the best bid if it is aggressive, or else the best ask.
  unfoldable pub child_price : SimEnv → (aggression : fl.Float) → Option ℤ
  child_price e aggression = do
    let b = e.market.publisher.book
    bid ← if has_best b buy then some (best_price b buy) else to_int64 (e.arrival_mid -ℤ pos 1)
    ask ← if has_best b sell then some (best_price b sell) else to_int64 (e.arrival_mid +ℤ pos 1)
    some (if is_terminal e || rf.at_most_f rf.half_f aggression then bid else ask)

  -- The reward of the fills.
  unfoldable pub fill_reward : SimEnv → (filled : ℕ) → (cash : ℤ) → fl.Float
  fill_reward e filled cash =
      let s0 = rf.double_of_price (if ltb_ℤ (pos 0) e.arrival_mid then e.arrival_mid else pos 1) in
      let numerator = d.minus (rf.double_of_price cash) (d.times (d.of_size filled) s0) in
      if ltb 0 filled
      then rf.narrow
          (d.divide (d.times (d.divide numerator s0) rf.basis_points) (d.of_size e.parent_qty))
      else fl.zero_f

  -- The penalty for what is left at the end.
  unfoldable pub terminal_penalty : SimEnv → fl.Float → fl.Float
  terminal_penalty e reward =
      let rem_frac = d.divide (d.of_size e.remaining) (d.of_size e.parent_qty) in
      if e.done && ltb 0 e.remaining
      then rf.plus_f reward (rf.narrow (d.times (d.times (rf.negate_d rf.kappa) rem_frac) rem_frac))
      else reward

  -- A step that sends nothing.
  unfoldable pub idle_step : SimEnv → fl.Float × SimEnv
  idle_step e =
      let inv_frac = share e e.remaining in
      (
        rf.times_f (rf.times_f (rf.negate_f rf.phi) inv_frac) inv_frac,
        maybe_close_out (record e { step_idx = add64 e.step_idx 1 }),
      )

  -- The members after the child order, in which `filled` of it was filled for `cash`; `all_cash` is what
  -- `cash_from_fills_ += child_cash` yields.
  unfoldable pub settle_child :
      SimEnv → Market → (fused_seq filled : ℕ) → (cash all_cash : ℤ) → fl.Float × SimEnv
  settle_child e m fused_seq filled cash all_cash =
      let e₁ : SimEnv = record e {
        market = m;
        fused_seq = fused_seq;
        qty_filled = add64 e.qty_filled filled;
        cash_from_fills = all_cash;
        remaining = if leb e.remaining filled then 0 else sub64 e.remaining filled;
      } in
      let inv_frac = share e₁ e₁.remaining in
      let reward =
        rf.minus_f (fill_reward e filled cash) (rf.times_f (rf.times_f rf.phi inv_frac) inv_frac) in
      let e₂ = maybe_close_out (record e₁ { step_idx = add64 e.step_idx 1 }) in
      (terminal_penalty e₂ reward, e₂)

  -- `resting_ids_.push_back(child_id)`, if a rest of the child order stays in the book.
  abbrev pub note_child : Market → (id : ℕ) → (rests : Bool) → Market
  note_child m id true = record m {
    resting_ids = update m.resting_ids m.resting_count id;
    resting_count = m.resting_count + 1;
  }
  note_child m id false = m

  -- The members as they are initialised.
  abbrev pub blank_env :
      Book
      → (zeroed : TelemetryEvent) (parent_qty horizon_steps seed : ℕ) (arrival_mid : ℤ) → SimEnv
  blank_env book zeroed parent_qty horizon_steps seed arrival_mid = record {
    parent_qty = if parent_qty == 0 then 1 else parent_qty;
    horizon_steps = if horizon_steps == 0 then 1 else horizon_steps;
    arrival_mid = arrival_mid;
    market = record {
      publisher = record { book = book; ring = new_ring zeroed 16; seq = 0; readings = 0 };
      rng = if seed == 0 then 1 else seed;
      next_id = 1;
      resting_ids = λ i. 0;
      resting_count = 0;
      bg_ids = λ i. 0;
      bg_birth = λ i. 0;
      bg_count = 0;
      bg_head = 0;
    };
    fused_seq = 1000000000;
    remaining = 0;
    qty_filled = 0;
    cash_from_fills = pos 0;
    step_idx = 0;
    done = false;
    state_buf = λ i. fl.zero_f;
  }

  -- `rng_.Reseed(seed)`
  abbrev pub reseed : SimEnv → (seed : ℕ) → SimEnv
  reseed e seed = record e { market = record e.market { rng = if seed == 0 then 1 else seed } }

  -- The assignments at the end of `ResetInternal`.
  abbrev pub restart : SimEnv → Market → SimEnv
  restart e m = record e {
    market = m;
    remaining = e.parent_qty;
    step_idx = 0;
    qty_filled = 0;
    cash_from_fills = pos 0;
    done = false;
  }

  module _ (clock : ℕ → ℕ) where
    -- The child order: `AddLimit` with the fused observer, and what follows it.
    unfoldable pub send_child :
        SimEnv → (child_qty : ℕ) → (child_px : ℤ) → Option (fl.Float × SimEnv)
    send_child e child_qty child_px = do
      let m = e.market
      let p = m.publisher
      (ok, fills, book) ← add_limit p.book m.next_id sell child_px child_qty
      let (p₁, filled) = on_fills clock (record p { book = book; seq = e.fused_seq }) 0 fills
      let p₂ = acknowledge clock p₁ ok m.next_id sell child_px child_qty filled
      let m₁ : Market = record m {
        publisher = record p₂ { seq = p.seq };
        next_id = add64 m.next_id 1;
      }
      cash ← fills_cash (pos 0) fills
      all_cash ← to_int64 (e.cash_from_fills +ℤ cash)
      some (
          settle_child e (note_child m₁ m.next_id (ok && ltb filled child_qty)) p₂.seq filled cash
            all_cash)

    -- The part of `StepImpl` after the background flow.
    unfoldable pub child_step :
        SimEnv → (size_frac aggression : fl.Float) → Option (fl.Float × SimEnv)
    child_step e size_frac aggression =
        let q = child_quantity e size_frac in
        if q == 0 then some (idle_step e) else (do px ← child_price e aggression; send_child e q px)

    -- `StepImpl`
    unfoldable pub step_impl :
        SimEnv → (size_frac aggression : fl.Float) → Option (fl.Float × SimEnv)
    step_impl e size_frac aggression = if e.done then some (fl.zero_f, e) else (do
      m ← expire clock e.step_idx e.market
      m' ← background_flow clock e.arrival_mid e.step_idx 12 m
      child_step (record e { market = m' }) size_frac aggression)

    -- `Step`; an action of less than two elements throws, which the first component says by `none`.
    unfoldable pub step_env : SimEnv → List fl.Float → Option (Option fl.Float × SimEnv)
    step_env e [] = some (none, e)
    step_env e (x ∷ []) = some (none, e)
    step_env e (x ∷ y ∷ rest) = do
      (reward, e') ← step_impl e (clamp_unit_f fl x) (clamp_unit_f fl y)
      some (some reward, write_observation e')

    -- `ResetInternal`
    unfoldable pub reset_internal : SimEnv → Option SimEnv
    reset_internal e = do m ← cancel_resting clock e.market; some (restart e m)

    -- `Reset`
    unfoldable pub reset_env : SimEnv → (seed : ℕ) → Option SimEnv
    reset_env e seed = do e' ← reset_internal (reseed e seed); some (write_observation e')

    -- The constructor
    unfoldable pub new_env :
        (raw : Memory) (zeroed : TelemetryEvent) (parent_qty horizon_steps seed : ℕ)
        (arrival_mid : ℤ)
        → Option SimEnv
    new_env raw zeroed parent_qty horizon_steps seed arrival_mid = do
      book ← new_book raw book_capacity default_band
      e ← reset_internal (blank_env book zeroed parent_qty horizon_steps seed arrival_mid)
      some (write_observation e)
