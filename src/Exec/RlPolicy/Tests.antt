-- ===== src/Exec/RlPolicy/Tests.antt =====
-- A policy over hundredths in place of `float` and `double`.
use optimal_execution_platfo.Common.{
  ℕ, ◌+◌, ◌-◌, ◌*◌, ◌/◌, ◌≡◌, refl, arith, Option, some, ltb, leb, List, [], ◌∷◌, ◌>>=◌, Returns,
}
use optimal_execution_platfo.Core.Order.{sell}
use optimal_execution_platfo.Exec.Double.{Doubles}
use optimal_execution_platfo.Exec.RlPolicy.{
  Floats, RlPolicy, clamp_unit_f, init_policy, copy_state, write_state, decode_quantity,
  compute_next_action, run_policy,
}
use optimal_execution_platfo.Exec.RlPolicy.CloseOut.{SentAll, policy-SentAll}

program : Unit {0}
unfolding clamp_unit_f init_policy copy_state write_state decode_quantity compute_next_action
    run_policy
program = tt

-- Hundredths: 100 is 1.0, and a quantity of 1 is 100.
abbrev hundredths : Doubles
hundredths = record {
  Double = ℕ;
  zero_d = 0;
  one_d = 100;
  tiny_d = 1;
  of_size = λ n. n * 100;
  plus = λ a b. a + b;
  minus = λ a b. a - b;
  times = λ a b. a * b / 100;
  divide = λ a b. a * 100 / b;
  less = ltb;
  at_most = leb;
  sqrt = λ a. a;
  sinh = λ a. a;
  round_to_quantity = λ a. (a + 50) / 100;
}

abbrev floats : Floats hundredths
floats = record { Float = ℕ; zero_f = 0; one_f = 100; less_f = ltb; widen = λ x. x }

-- The actor asks for the fraction that the first element of the observation names.
abbrev actor : (ℕ → ℕ) → Option (ℕ × ℕ)
actor x = some (x 0, x 1)

-- 40 %, then 25 %, and the last step sends the rest whatever is asked for.
abbrev observations : List (ℕ → ℕ)
observations = (λ i. 40) ∷ (λ i. 25) ∷ (λ i. 10) ∷ []

policy_test :
    (p : RlPolicy floats) × ((do
      p ← init_policy floats 10 sell 3
      run_policy floats actor p observations)
      ≡ some p)
    × (p.child_qty 0 ≡ 4)
    × (p.child_qty 1 ≡ 2)
    × (p.child_qty 2 ≡ 4)
    × (p.last_size_fraction ≡ 10)
unfolding program
policy_test = (_, refl, refl, refl, refl, refl)

policy-SentAll_example :
    Returns
      (do p ← init_policy floats 10 sell 3; run_policy floats actor p observations)
      (SentAll floats sell 10 3)
policy-SentAll_example =
    policy-SentAll floats actor (λ x. (_, refl)) 10 sell observations (omega arith) (omega arith)
