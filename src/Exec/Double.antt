-- ===== src/Exec/Double.antt =====
-- What cpp/exec uses of `double` arithmetic. The schedules are right whatever it computes, so it is an
-- argument of them: rounding, overflow and NaN are all covered.
use optimal_execution_platfo.Common.{ℕ, Bool}

pub record Doubles : Type 1 where
  pub Double : Type 0
  pub zero_d : Double
  pub one_d : Double
  pub tiny_d : Double
  pub of_size : ℕ → Double
  pub plus : Double → Double → Double
  pub minus : Double → Double → Double
  pub times : Double → Double → Double
  pub divide : Double → Double → Double
  pub less : Double → Double → Bool
  pub at_most : Double → Double → Bool
  pub sqrt : Double → Double
  pub sinh : Double → Double
  -- `static_cast<Quantity>(std::llround(x))`, a 64-bit word
  pub round_to_quantity : Double → ℕ
