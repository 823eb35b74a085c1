-- ===== src/Bindings/SimEnv/Reset.antt =====
-- A new environment and a reset one start from an empty book.
use optimal_execution_platfo.Common.{
  ◌^◌, ℕ, ◌+◌, ◌*◌, ◌<◌, ◌≤◌, ◌≡◌, refl, inr, arith, none, some, false, ◌==◌, if◌then◌else◌,
  u64_mod, Returns, [], ◌∷◌,
}
use optimal_execution_platfo.Common.Int.{ℤ}
use optimal_execution_platfo.Core.Order.{Memory}
use optimal_execution_platfo.Core.Slab.FreeList.{countdown}
use optimal_execution_platfo.Main.Sim.Start.{
  default_book-IsSmall, default_book, new_book-default_book, default_book-IsBook,
}
use optimal_execution_platfo.External.Event.{TelemetryEvent}
use optimal_execution_platfo.Exec.Double.{Doubles}
use optimal_execution_platfo.Exec.RlPolicy.{Floats, clamp_unit_f}
use optimal_execution_platfo.Bindings.SimEnv.Flow.{book_capacity}
use optimal_execution_platfo.Bindings.SimEnv.Flow.Kept.{Kept, IsMid}
use optimal_execution_platfo.Bindings.SimEnv.Flow.Emptied.{IsEmptied, cancel_resting-Kept}
use optimal_execution_platfo.Bindings.SimEnv.{
  RewardFloats, SimEnv, write_observation, step_impl, step_env, restart, reseed, reset_internal,
  reset_env, blank_env, new_env,
}
use optimal_execution_platfo.Bindings.SimEnv.Sound.{IsEnv, Stepped, Fits}
use optimal_execution_platfo.Bindings.SimEnv.Child.{step_impl-IsEnv}

module _ {d : Doubles} {fl : Floats d} (rf : RewardFloats fl) where
  -- `WriteState` changes only the observation.
  observed-IsEnv : (e : SimEnv rf) → IsEnv rf e → IsEnv rf (write_observation rf e)
  unfolding write_observation
  observed-IsEnv e k = record {
    kept = k.kept;
    accounts = record {
      conserved = k.accounts.conserved;
      parent_word = k.accounts.parent_word;
      cash = k.accounts.cash;
      within = k.accounts.within;
      going = k.accounts.going;
      ids_word = k.accounts.ids_word;
      mid = k.accounts.mid;
    };
  }

  observed-Stepped : (e e' : SimEnv rf) → Stepped rf e e' → Stepped rf e (write_observation rf e')
  unfolding write_observation
  observed-Stepped e e' s = record {
    same_parent = s.same_parent;
    same_horizon = s.same_horizon;
    on = s.on;
  }

  -- What a reset makes of the environment.
  pub record IsFresh (parent_qty horizon_steps : ℕ) (e : SimEnv rf) : Type 0 where
    pub sound : IsEnv rf e
    pub emptied : IsEmptied e.market.publisher.book
    pub whole : e.remaining ≡ e.parent_qty
    pub parent : e.parent_qty ≡ parent_qty
    pub horizon : e.horizon_steps ≡ horizon_steps
    pub start : e.step_idx ≡ 0
    pub open_ : e.done ≡ false

  observed-IsFresh :
      (parent_qty horizon_steps : ℕ) (e : SimEnv rf)
      → IsFresh parent_qty horizon_steps e
      → IsFresh parent_qty horizon_steps (write_observation rf e)
  unfolding write_observation
  observed-IsFresh parent_qty horizon_steps e k = record {
    sound = observed-IsEnv e k.sound;
    emptied = k.emptied;
    whole = k.whole;
    parent = k.parent;
    horizon = k.horizon;
    start = k.start;
    open_ = k.open_;
  }

  or_one : (n : ℕ) → let m = if n == 0 then 1 else n in ((0 < m) × (m ≤ n + 1))
  or_one n = ground arith

  -- A parent of 0 is taken as 1.
  or_one_word : (n : ℕ) → n < 2 ^ 49 → (if n == 0 then 1 else n) < 2 ^ 49
  or_one_word n h = ground arith

  -- What a reset needs: a sound book, all of whose orders are noted, at most `given` ids given out, a
  -- horizon that is not 0, and parameters that are not too large. Nothing is asked of what was sold so far.
  pub record IsResettable (given : ℕ) (e : SimEnv rf) : Type 0 where
    pub kept : Kept given e.market
    pub some_steps : 0 < e.horizon_steps
    pub ids_word : 13 * e.horizon_steps + 2 < u64_mod
    pub parent_word : e.parent_qty < 2 ^ 49
    pub mid : IsMid e.arrival_mid

  -- Every state that the invariant allows can be reset.
  pub IsEnv-IsResettable :
      (e : SimEnv rf) → IsEnv rf e → 0 < e.horizon_steps → IsResettable (13 * e.step_idx) e
  IsEnv-IsResettable e k some_ = record {
    kept = k.kept;
    some_steps = some_;
    ids_word = k.accounts.ids_word;
    parent_word = k.accounts.parent_word;
    mid = k.accounts.mid;
  }

  module _ (clock : ℕ → ℕ) where
    step_env-step :
        (e : SimEnv rf) (x y : fl.Float) (out : fl.Float × SimEnv rf)
        → step_impl rf clock e (clamp_unit_f fl x) (clamp_unit_f fl y) ≡ some out
        → step_env rf clock e (x ∷ y ∷ []) ≡ some (some out.0, write_observation rf out.1)
    unfolding step_env
    step_env-step e x y out run = rw run

    pub step_env-IsEnv :
        (e : SimEnv rf) (x y : fl.Float)
        → IsEnv rf e
        → Fits rf e.parent_qty x
        → Returns (step_env rf clock e (x ∷ y ∷ [])) λ (reward, e'). IsEnv rf e' × Stepped rf e e'
    step_env-IsEnv e x y k fits =
        let (out, run, (sound, on)) = step_impl-IsEnv rf clock e x (clamp_unit_f fl y) k fits in
        (
          (some out.0, write_observation rf out.1),
          step_env-step e x y out run,
          (observed-IsEnv out.1 sound, observed-Stepped e out.1 on),
        )

    reset_internal-IsFresh :
        (given : ℕ) (e : SimEnv rf)
        → IsResettable given e
        → Returns (reset_internal rf clock e) (IsFresh e.parent_qty e.horizon_steps)
    unfolding reset_internal
    reset_internal-IsFresh given e k =
        let (m, run, (empty, kept)) = cancel_resting-Kept clock given e.market k.kept in
        (
          restart rf e m,
          rw run,
          record {
            sound = record {
              kept = record { tracks = kept.tracks; few = omega (arith, kept.few) };
              accounts = record {
                conserved = omega arith;
                parent_word = k.parent_word;
                cash = (0, refl, omega arith);
                within = omega arith;
                going = inr k.some_steps;
                ids_word = k.ids_word;
                mid = k.mid;
              };
            };
            emptied = empty;
            whole = refl;
            parent = refl;
            horizon = refl;
            start = refl;
            open_ = refl;
          },
        )

    -- `Reset` ends normally if the book is sound, each of its orders is among `resting_ids`, the horizon is
    -- not 0 and its ids fit their word, the parent is below 2^49, and the mid is 5 ticks away from the ends of the
    -- 64-bit prices; what was sold so far does not matter. Then no order rests in the book, at
    -- any price of either side, so that ids may start from 1 again; the whole parent remains, no step was
    -- made, and the episode is open.
    pub reset_env-IsFresh :
        (given : ℕ) (e : SimEnv rf) (seed : ℕ)
        → IsResettable given e
        → Returns (reset_env rf clock e seed) (IsFresh e.parent_qty e.horizon_steps)
    unfolding reset_env
    reset_env-IsFresh given e seed k =
        let (e', run, f) = reset_internal-IsFresh given (reseed rf e seed) record {
          kept = record { tracks = k.kept.tracks; few = k.kept.few };
          some_steps = k.some_steps;
          ids_word = k.ids_word;
          parent_word = k.parent_word;
          mid = k.mid;
        } in
        (write_observation rf e', rw run, observed-IsFresh e.parent_qty e.horizon_steps e' f)

    pub new_env-IsFresh :
        (raw : Memory) (zeroed : TelemetryEvent) (parent_qty horizon_steps seed : ℕ)
        (arrival_mid : ℤ)
        → parent_qty < 2 ^ 49
        → 13 * horizon_steps + 15 < u64_mod
        → IsMid arrival_mid
        → Returns (new_env rf clock raw zeroed parent_qty horizon_steps seed arrival_mid) (
            IsFresh
              (if parent_qty == 0 then 1 else parent_qty)
              (if horizon_steps == 0 then 1 else horizon_steps))
    unfolding new_env
    new_env-IsFresh raw zeroed parent_qty horizon_steps seed arrival_mid word words mid =
        let e = blank_env rf (default_book raw) zeroed parent_qty horizon_steps seed arrival_mid in
        let kept : Kept 0 e.market = record {
          tracks = record {
            orders = λ side i. [];
            map = λ id. none;
            free = countdown book_capacity;
            book = default_book-IsBook raw;
            small = default_book-IsSmall raw;
            tracked = λ id h. refl;
            fresh = λ id h. refl;
          };
          few = omega arith;
        } in
        let (some_, le) = or_one horizon_steps in
        let (e', run, f) = reset_internal-IsFresh 0 e record {
          kept = kept;
          some_steps = some_;
          ids_word = omega (arith, le);
          parent_word = or_one_word parent_qty word;
          mid = mid;
        } in
        (
          write_observation rf e',
          rw (new_book-default_book raw, run),
          observed-IsFresh e.parent_qty e.horizon_steps e' f,
        )
