-- ===== src/Exec/Tests.antt =====
-- Schedules over whole numbers in place of `double`.
use optimal_execution_platfo.Common.{
  ℕ, ◌+◌, ◌-◌, ◌*◌, ◌/◌, ◌≡◌, refl, arith, some, ltb, leb, [], ◌∷◌, Returns,
}
use optimal_execution_platfo.Core.Order.{buy, sell}
use optimal_execution_platfo.Exec.Double.{Doubles}
use optimal_execution_platfo.Exec.Schedule.{
  Schedule, clamp_unit, vwap_target, vwap_steps, vwap, compute_kappa, fraction, inventory, ac_steps,
  almgren_chriss,
}
use optimal_execution_platfo.Exec.Schedule.RunDown.{
  SendsAll, vwap-SendsAll, almgren_chriss-SendsAll,
}

program : Unit {0}
unfolding clamp_unit vwap_target vwap_steps vwap compute_kappa fraction inventory ac_steps
    almgren_chriss
program = tt

-- Hundredths: 100 is 1.0, and a quantity of 1 is 100.
abbrev hundredths : Doubles
hundredths = record {
  Double = ℕ;
  zero_d = 0;
  one_d = 100;
  tiny_d = 1;
  of_size = λ n. n * 100;
  plus = λ a b. a + b;
  minus = λ a b. a - b;
  times = λ a b. a * b / 100;
  divide = λ a b. a * 100 / b;
  less = ltb;
  at_most = leb;
  sqrt = λ a. a;
  sinh = λ a. a;
  round_to_quantity = λ a. (a + 50) / 100;
}

vwap_test :
    (s : Schedule) × (vwap hundredths sell 7 (25 ∷ 50 ∷ 25 ∷ []) ≡ some s)
    × (s.child_qty ≡ 2 ∷ 3 ∷ 2 ∷ [])
    × (s.remaining ≡ 7 ∷ 5 ∷ 2 ∷ 0 ∷ [])
unfolding program
vwap_test = (_, refl, refl, refl)

vwap-SendsAll_example : Returns (vwap hundredths sell 7 (25 ∷ 50 ∷ 25 ∷ [])) (SendsAll sell 7 3)
vwap-SendsAll_example =
    vwap-SendsAll hundredths sell 7 25 (50 ∷ 25 ∷ []) (omega arith) (refl, (refl, (refl, tt)))

almgren_chriss_test :
    (s : Schedule) × (almgren_chriss hundredths buy 10 4 400 0 100 100 ≡ some s)
    × (s.remaining ≡ 10 ∷ 8 ∷ 5 ∷ 3 ∷ 0 ∷ [])
unfolding program
almgren_chriss_test = (_, refl, refl)

almgren_chriss-SendsAll_example :
    Returns (almgren_chriss hundredths buy 10 4 400 0 100 100) (SendsAll buy 10 4)
almgren_chriss-SendsAll_example =
    almgren_chriss-SendsAll hundredths buy 10 3 400 0 100 100 (omega arith) refl refl
