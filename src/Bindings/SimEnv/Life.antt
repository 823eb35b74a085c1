-- ===== src/Bindings/SimEnv/Life.antt =====
-- Any sequence of calls of the Python side.
use optimal_execution_platfo.Common.{ℕ, ◌≡◌, Option, some, ◌>>=◌, List, [], ◌∷◌}
use optimal_execution_platfo.Exec.Double.{Doubles}
use optimal_execution_platfo.Exec.RlPolicy.{Floats}
use optimal_execution_platfo.Bindings.SimEnv.{RewardFloats, SimEnv, step_env, reset_env}
use optimal_execution_platfo.Bindings.SimEnv.Sound.{IsEnv, Fits}

module _ {d : Doubles} {fl : Floats d} (rf : RewardFloats fl) where
  -- `reset(seed)`, and `step` with two numbers or with fewer, which throws.
  pub data EnvCall : Type 0 where
    reset_call : (seed : ℕ) → EnvCall
    step_call : (x y : fl.Float) → EnvCall
    short_call : EnvCall

  abbrev pub AllSized : (parent_qty : ℕ) → List EnvCall → Type 0
  AllSized parent_qty [] = Unit
  AllSized parent_qty (reset_call seed ∷ cs) = AllSized parent_qty cs
  AllSized parent_qty (step_call x y ∷ cs) = Fits rf parent_qty x × AllSized parent_qty cs
  AllSized parent_qty (short_call ∷ cs) = AllSized parent_qty cs

  -- The environment of one parent and one horizon.
  abbrev pub Alive : (parent_qty horizon_steps : ℕ) → SimEnv rf → Type 0
  Alive parent_qty horizon_steps e =
      IsEnv rf e × (e.parent_qty ≡ parent_qty) × (e.horizon_steps ≡ horizon_steps)

  module _ (clock : ℕ → ℕ) where
    abbrev pub serve_env : SimEnv rf → EnvCall → Option (SimEnv rf)
    serve_env e (reset_call seed) = reset_env rf clock e seed
    serve_env e (step_call x y) = do (reward, e') ← step_env rf clock e (x ∷ y ∷ []); some e'
    serve_env e short_call = do (reward, e') ← step_env rf clock e []; some e'

    abbrev pub serve_env_all : SimEnv rf → List EnvCall → Option (SimEnv rf)
    serve_env_all e [] = some e
    serve_env_all e (c ∷ cs) = do e' ← serve_env e c; serve_env_all e' cs
