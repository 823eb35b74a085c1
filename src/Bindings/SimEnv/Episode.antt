-- ===== src/Bindings/SimEnv/Episode.antt =====
-- The environment over its whole life.
use optimal_execution_platfo.Common.{ℕ, ◌+◌, ◌≡◌, ◌⊎◌, Option, some, true, ◌>>=◌, List, [], ◌∷◌}
use optimal_execution_platfo.Exec.Double.{Doubles}
use optimal_execution_platfo.Exec.RlPolicy.{Floats}
use optimal_execution_platfo.Bindings.SimEnv.{RewardFloats, SimEnv, step_env}
use optimal_execution_platfo.Bindings.SimEnv.Sound.{IsEnv, Fits}

module _ {d : Doubles} {fl : Floats d} (rf : RewardFloats fl) where
  module _ (clock : ℕ → ℕ) where
    -- The steps of these actions, each of two numbers.
    pub run_steps : SimEnv rf → List (fl.Float × fl.Float) → Option (SimEnv rf)
    run_steps e [] = some e
    run_steps e ((x, y) ∷ actions) = do
      (reward, e') ← step_env rf clock e (x ∷ y ∷ [])
      run_steps e' actions

    abbrev pub AllFit : (parent_qty : ℕ) → List (fl.Float × fl.Float) → Type 0
    AllFit parent_qty [] = Unit
    AllFit parent_qty ((x, y) ∷ actions) = Fits rf parent_qty x × AllFit parent_qty actions

    -- After `n` steps the episode is over, or each of them counted.
    pub record Ran (e : SimEnv rf) (n : ℕ) (e' : SimEnv rf) : Type 0 where
      pub sound : IsEnv rf e'
      pub same_parent : e'.parent_qty ≡ e.parent_qty
      pub same_horizon : e'.horizon_steps ≡ e.horizon_steps
      pub so_far : (e'.done ≡ true) ⊎ (e'.step_idx ≡ e.step_idx + n)
