-- ===== src/Exec/Schedule.antt =====
-- cpp/exec/vwap.cpp and cpp/exec/almgren_chriss.cpp: the child quantities of the two schedules, which
-- the constructors compute. A failed assertion is `none`.
pub mod RunDown
use optimal_execution_platfo.Common.{
  ℕ, zero, suc, ◌+◌, ◌-◌, Option, none, some, Bool, true, false, not, ltb, ◌==◌, if◌then◌else◌,
  ◌>>=◌, sub64, List, [], ◌∷◌,
}
use optimal_execution_platfo.Core.Order.{Side}
use optimal_execution_platfo.Exec.Double.{Doubles}

-- The members that `VwapStrategy` and `AlmgrenChriss` fill in; `remaining` has one entry more.
pub record Schedule : Type 0 where
  pub side : Side
  pub parent_qty : ℕ
  pub child_qty : List ℕ
  pub remaining : List ℕ

-- `ChildQuantity` and `RemainingAfterStep`, an index of a vector.
unfoldable pub at_index : List ℕ → ℕ → Option ℕ
at_index [] j = none
at_index (x ∷ xs) zero = some x
at_index (x ∷ xs) (suc j) = at_index xs j

module _ (d : Doubles) where
  -- `if (c < 0.0) c = 0.0; if (c > 1.0) c = 1.0;`
  unfoldable pub clamp_unit : d.Double → d.Double
  clamp_unit c =
      let low = if d.less c d.zero_d then d.zero_d else c in
      if d.less d.one_d low then d.one_d else low

  -- The cumulative target of a step, with the profile after it.
  unfoldable pub vwap_target : (parent_qty : ℕ) → (cum : d.Double) → (sent : ℕ) → List d.Double → ℕ
  vwap_target parent_qty cum sent [] = parent_qty
  vwap_target parent_qty cum sent (w ∷ ws) =
      let rounded = d.round_to_quantity (d.times (d.of_size parent_qty) (clamp_unit cum)) in
      let most = if ltb parent_qty rounded then parent_qty else rounded in
      if ltb most sent then sent else most

  -- The loop of the constructor: the children, and what remains after each.
  unfoldable pub vwap_steps :
      (parent_qty : ℕ) → (cum : d.Double) → (sent : ℕ) → List d.Double → Option (List ℕ × List ℕ)
  vwap_steps parent_qty cum sent [] = some ([], [])
  vwap_steps parent_qty cum sent (w ∷ ws) =
      let cum' = d.plus cum w in
      let target = vwap_target parent_qty cum' sent ws in
      let rest = vwap_steps parent_qty cum' target ws in
      if d.at_most d.zero_d w
      then (do
        (children, remaining) ← rest
        some (sub64 target sent ∷ children, sub64 parent_qty target ∷ remaining))
      else none

  -- `VwapStrategy`; a profile of no steps fails the first assertion.
  unfoldable pub vwap : Side → (parent_qty : ℕ) → (volume_profile : List d.Double) → Option Schedule
  vwap side parent_qty [] = none
  vwap side parent_qty (w ∷ ws) = do
    (children, remaining) ← vwap_steps parent_qty d.zero_d 0 (w ∷ ws)
    some (record {
      side = side;
      parent_qty = parent_qty;
      child_qty = children;
      remaining = parent_qty ∷ remaining;
    })

  -- `AlmgrenChriss::ComputeKappa`
  unfoldable pub compute_kappa : (lambda sigma eta : d.Double) → Option d.Double
  compute_kappa lambda sigma eta =
      let num = d.times (d.times lambda sigma) sigma in
      if d.less d.zero_d eta
      then some (if d.at_most num d.zero_d then d.zero_d else d.sqrt (d.divide num eta))
      else none

  -- `frac` of step `j`, before the clamp
  unfoldable pub fraction : (kappa horizon : d.Double) (num_steps j : ℕ) → d.Double
  fraction kappa horizon num_steps j =
      let kt = d.times kappa horizon in
      let t = d.divide (d.times (d.of_size j) horizon) (d.of_size num_steps) in
      let left = d.minus horizon t in
      if not (d.less d.tiny_d kt)
      then d.divide left horizon
      else d.divide (d.sinh (d.times kappa left)) (d.sinh kt)

  -- `x` of step `j`
  unfoldable pub inventory : (parent_qty : ℕ) (kappa horizon : d.Double) (num_steps j prev : ℕ) → ℕ
  inventory parent_qty kappa horizon num_steps j prev =
      let x =
        d.round_to_quantity
          (d.times (d.of_size parent_qty) (clamp_unit (fraction kappa horizon num_steps j))) in
      if ltb prev x then prev else x

  -- The loop from step `j` on, with `n` steps to go before the last, and the close-out after it.
  unfoldable pub ac_steps :
      (parent_qty : ℕ) (kappa horizon : d.Double) (num_steps n j prev : ℕ) → List ℕ × List ℕ
  ac_steps parent_qty kappa horizon num_steps zero j prev = (prev ∷ [], 0 ∷ [])
  ac_steps parent_qty kappa horizon num_steps (suc n) j prev =
      let x = inventory parent_qty kappa horizon num_steps j prev in
      let (children, remaining) = ac_steps parent_qty kappa horizon num_steps n (suc j) x in
      (sub64 prev x ∷ children, x ∷ remaining)

  -- `AlmgrenChriss`
  unfoldable pub almgren_chriss :
      Side → (parent_qty num_steps : ℕ) (horizon lambda sigma eta : d.Double) → Option Schedule
  almgren_chriss side parent_qty zero horizon lambda sigma eta = none
  almgren_chriss side parent_qty (suc n) horizon lambda sigma eta = do
    kappa ← compute_kappa lambda sigma eta
    let (children, remaining) = ac_steps parent_qty kappa horizon (suc n) n 1 parent_qty
    let s : Schedule = record {
      side = side;
      parent_qty = parent_qty;
      child_qty = children;
      remaining = parent_qty ∷ remaining;
    }
    if d.less d.zero_d horizon then some s else none
