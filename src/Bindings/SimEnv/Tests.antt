-- ===== src/Bindings/SimEnv/Tests.antt =====
-- An environment over hundredths in place of `float` and `double`.
use optimal_execution_platfo.Common.{
  some, ℕ, ◌+◌, ◌-◌, ◌*◌, ◌/◌, ◌≡◌, refl, arith, none, ltb, leb, ◌>>=◌, List, [], ◌∷◌, Returns,
}
use optimal_execution_platfo.Common.Int.{pos, negsuc, pos_part, ◌+ℤ◌}
use optimal_execution_platfo.Core.Slab.{link}
use optimal_execution_platfo.Core.Order.{buy, sell, Memory}
use optimal_execution_platfo.External.Event.{TelemetryEvent, cancel_event}
use optimal_execution_platfo.Exec.Double.{Doubles}
use optimal_execution_platfo.Exec.RlPolicy.{Floats}
use optimal_execution_platfo.Bindings.SimEnv.{RewardFloats, fills_cash, SimEnv, reset_env, new_env}
use optimal_execution_platfo.Bindings.SimEnv.Reset.{
  IsFresh, IsEnv-IsResettable, new_env-IsFresh, reset_env-IsFresh,
}
use optimal_execution_platfo.Bindings.SimEnv.Life.{EnvCall, reset_call, step_call, short_call}

-- Hundredths: 100 is 1.0, and a quantity of 1 is 100.
abbrev hundredths : Doubles
hundredths = record {
  Double = ℕ;
  zero_d = 0;
  one_d = 100;
  tiny_d = 1;
  of_size = λ n. n * 100;
  plus = λ a b. a + b;
  minus = λ a b. a - b;
  times = λ a b. a * b / 100;
  divide = λ a b. a * 100 / b;
  less = ltb;
  at_most = leb;
  sqrt = λ a. a;
  sinh = λ a. a;
  round_to_quantity = λ a. (a + 50) / 100;
}

abbrev floats : Floats hundredths
floats = record { Float = ℕ; zero_f = 0; one_f = 100; less_f = ltb; widen = λ x. x }

abbrev rewards : RewardFloats floats
rewards = record {
  float_of_size = λ n. n * 100;
  float_of_price = λ p. pos_part p * 100;
  times_f = λ a b. a * b / 100;
  divide_f = λ a b. a * 100 / b;
  plus_f = λ a b. a + b;
  minus_f = λ a b. a - b;
  negate_f = λ a. a;
  at_most_f = leb;
  truncate = λ a. a / 100;
  half_f = 50;
  phi = 100;
  double_of_price = λ p. pos_part p * 100;
  negate_d = λ a. a;
  basis_points = 1000000;
  kappa = 100000;
  narrow = λ a. a;
}

cash_test :
    fills_cash (pos 0) (
      record { maker_id = 1; taker_id = 2; price = pos 99; qty = 2; taker_side = sell }
      ∷ record { maker_id = 3; taker_id = 2; price = negsuc 0; qty = 3; taker_side = sell }
      ∷ [])
    ≡ some (pos 195)
unfolding fills_cash ◌+ℤ◌
cash_test = refl

abbrev raw : Memory
raw = λ p. link none

abbrev zeroed : TelemetryEvent
zeroed = cancel_event 0 0 0 buy (pos 0) 0

abbrev clock : ℕ → ℕ
clock n = 1000 + n

abbrev calls : List (EnvCall rewards)
calls = step_call 60 100 ∷ short_call ∷ reset_call 7 ∷ step_call 60 0 ∷ []

-- A new environment of two steps.
made : Returns (new_env rewards clock raw zeroed 1000 2 7 (pos 100)) (IsFresh rewards 1000 2)
made =
    new_env-IsFresh rewards clock raw zeroed 1000 2 7 (pos 100) (omega arith) (omega arith)
      (omega arith, omega arith)

abbrev fresh : SimEnv rewards
fresh = made.0

reset_env-IsFresh_example :
    Returns (reset_env rewards clock fresh 9) (IsFresh rewards fresh.parent_qty fresh.horizon_steps)
reset_env-IsFresh_example =
    reset_env-IsFresh rewards clock (13 * fresh.step_idx) fresh 9
      (IsEnv-IsResettable rewards fresh made.2.sound (omega (arith, made.2.horizon)))
