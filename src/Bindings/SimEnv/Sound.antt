-- ===== src/Bindings/SimEnv/Sound.antt =====
-- A step of the environment never faults, and accounts for the parent quantity.
use optimal_execution_platfo.Common.{
  ◌^◌, sym, subst, ℕ, ◌+◌, ◌*◌, ◌<◌, ◌≤◌, ◌≡◌, ◌⊎◌, refl, inl, inr, arith, true, false, ◌||◌, leb,
  ◌==◌, if◌then◌else◌, add64, sub64, u64_mod, Bool-cases,
}
use optimal_execution_platfo.Common.Int.{pos, ℤ}
use optimal_execution_platfo.Exec.Double.{Doubles}
use optimal_execution_platfo.Exec.RlPolicy.{Floats, clamp_unit_f}
use optimal_execution_platfo.Bindings.SimEnv.Flow.{Market}
use optimal_execution_platfo.Bindings.SimEnv.Flow.Kept.{IsMid, Kept}
use optimal_execution_platfo.Bindings.SimEnv.{
  RewardFloats, SimEnv, maybe_close_out, idle_step, settle_child,
}

-- What `n` units brought, each at a price below 2^14.
abbrev pub IsCash : ℤ → ℕ → Type 0
IsCash cash n = (c : ℕ) × (cash ≡ pos c) × (c ≤ 2 ^ 14 * n)

module _ {d : Doubles} {fl : Floats d} (rf : RewardFloats fl) where
  -- What is left and what was filled make up the parent; the steps stay within the horizon, and before it
  -- the episode may be over only early.
  pub record Accounts (e : SimEnv rf) : Type 0 where
    pub conserved : e.remaining + e.qty_filled ≡ e.parent_qty
    pub parent_word : e.parent_qty < 2 ^ 49
    pub cash : IsCash e.cash_from_fills e.qty_filled
    pub within : e.step_idx ≤ e.horizon_steps
    pub going : (e.done ≡ true) ⊎ (e.step_idx < e.horizon_steps)
    pub ids_word : 13 * e.horizon_steps + 2 < u64_mod
    pub mid : IsMid e.arrival_mid

  -- With a sound book, all of whose orders are noted for the reset.
  pub record IsEnv (e : SimEnv rf) : Type 0 where
    pub kept : Kept (13 * e.step_idx) e.market
    pub accounts : Accounts e

  -- The same episode, one step on.
  pub record Follows (e e' : SimEnv rf) : Type 0 where
    pub same_parent : e'.parent_qty ≡ e.parent_qty
    pub same_horizon : e'.horizon_steps ≡ e.horizon_steps
    pub moved : e'.step_idx ≡ e.step_idx + 1

  -- The same episode, over or one step on; one that is over stays so.
  pub record Stepped (e e' : SimEnv rf) : Type 0 where
    pub same_parent : e'.parent_qty ≡ e.parent_qty
    pub same_horizon : e'.horizon_steps ≡ e.horizon_steps
    pub on : (e'.done ≡ true) ⊎ ((e.done ≡ false) × (e'.step_idx ≡ e.step_idx + 1))

  -- The product that sizes a child is not above what is left, so that nothing is sent twice.
  abbrev pub Fits : (parent_qty : ℕ) → fl.Float → Type 0
  Fits parent_qty x =
      (n : ℕ)
      → n ≤ parent_qty
      → rf.truncate (rf.times_f (clamp_unit_f fl x) (rf.float_of_size n)) ≤ n

  maybe_close_out_going :
      (e : SimEnv rf)
      → let e' = maybe_close_out rf e in ((e'.done ≡ true) ⊎ (e'.step_idx < e'.horizon_steps))
  unfolding maybe_close_out
  maybe_close_out_going e = elim (Bool-cases (e.remaining == 0 || leb e.horizon_steps e.step_idx)) [
    | inl c ↦ inl (rw c refl)
    | inr c ↦ inr (ground arith)
  ]

  -- A step of which the market, the remaining and the filled quantity are known.
  module _ (e : SimEnv rf) (k : Accounts e) (early : e.step_idx < e.horizon_steps) where
    pub idle_step-IsEnv :
        Kept (13 * e.step_idx + 12) e.market
        → IsEnv (idle_step rf e).1 × Follows e (idle_step rf e).1
    unfolding idle_step maybe_close_out
    idle_step-IsEnv m =
        let next : add64 e.step_idx 1 ≡ e.step_idx + 1 = omega (arith, k.ids_word) in
        (
          record {
            kept = record { tracks = m.tracks; few = omega (arith, m.few) };
            accounts = record {
              conserved = k.conserved;
              cash = k.cash;
              parent_word = k.parent_word;
              within = omega arith;
              going = maybe_close_out_going (record e { step_idx = add64 e.step_idx 1 });
              ids_word = k.ids_word;
              mid = k.mid;
            };
          },
          record { same_parent = refl; same_horizon = refl; moved = next },
        )

    pub settle_child-IsEnv :
        (m : Market) (fused_seq filled : ℕ) (cash all_cash : ℤ)
        → Kept (13 * e.step_idx + 13) m
        → filled ≤ e.remaining
        → IsCash all_cash (e.qty_filled + filled)
        → let e' = (settle_child rf e m fused_seq filled cash all_cash).1 in IsEnv e' × Follows e e'
    unfolding settle_child maybe_close_out
    settle_child-IsEnv m fused_seq filled cash all_cash kept le earned =
        let next : add64 e.step_idx 1 ≡ e.step_idx + 1 = omega (arith, k.ids_word) in
        let left : (if leb e.remaining filled then 0 else sub64 e.remaining filled) + filled
            ≡ e.remaining =
          ground (arith, k.conserved, k.parent_word) in
        let taken : add64 e.qty_filled filled ≡ e.qty_filled + filled =
          omega (arith, k.conserved, k.parent_word) in
        let remaining' = if leb e.remaining filled then 0 else sub64 e.remaining filled in
        let e₁ : SimEnv rf = record e {
          market = m;
          fused_seq = fused_seq;
          qty_filled = add64 e.qty_filled filled;
          cash_from_fills = all_cash;
          remaining = remaining';
          step_idx = add64 e.step_idx 1;
        } in
        (
          record {
            kept = record { tracks = kept.tracks; few = omega (arith, kept.few) };
            accounts = record {
              conserved = omega (arith, k.conserved);
              cash = subst (IsCash all_cash) (sym taken) earned;
              parent_word = k.parent_word;
              within = omega arith;
              going = maybe_close_out_going e₁;
              ids_word = k.ids_word;
              mid = k.mid;
            };
          },
          record { same_parent = refl; same_horizon = refl; moved = next },
        )
