-- ===== src/Exec/Schedule/RunDown.antt =====
-- Both schedules send the parent exactly.
use optimal_execution_platfo.Common.{
  ℕ, zero, suc, ◌+◌, ◌-◌, ◌<◌, ◌≤◌, ◌≡◌, refl, sym, ap, arith, some, true, ltb, if◌then◌else◌,
  sub64, u64_mod, List, [], ◌∷◌, length, sum, Returns, subst,
}
use optimal_execution_platfo.Core.Order.{Side}
use optimal_execution_platfo.Exec.Double.{Doubles}
use optimal_execution_platfo.Exec.Schedule.{
  Schedule, clamp_unit, vwap_target, vwap_steps, vwap, compute_kappa, inventory, ac_steps,
  almgren_chriss,
}

-- From `q` on, each child takes its part of what is left, and nothing is left at the end.
abbrev pub RunsDown : ℕ → List ℕ → List ℕ → Type 0
RunsDown q [] [] = q ≡ 0
RunsDown q [] (r ∷ rs) = ⊥
RunsDown q (c ∷ cs) [] = ⊥
RunsDown q (c ∷ cs) (r ∷ rs) = (r + c ≡ q) × RunsDown r cs rs

-- Then the children add up to `q`.
pub sum-RunsDown : (q : ℕ) (cs rs : List ℕ) → RunsDown q cs rs → sum cs ≡ q
sum-RunsDown q [] [] h = sym h
sum-RunsDown q [] (r ∷ rs) h = absurd h
sum-RunsDown q (c ∷ cs) [] h = absurd h
sum-RunsDown q (c ∷ cs) (r ∷ rs) (e, h) = omega (arith, sum-RunsDown r cs rs h)

-- A schedule of `n` steps that starts with the parent quantity and sends all of it.
abbrev pub SendsAll : Side → ℕ → ℕ → Schedule → Type 0
SendsAll side parent_qty n s =
    (s.side ≡ side)
    × (s.parent_qty ≡ parent_qty)
    × (length s.child_qty ≡ n)
    × (sum s.child_qty ≡ parent_qty)
    × ((rs : List ℕ) × (s.remaining ≡ parent_qty ∷ rs) × RunsDown parent_qty s.child_qty rs)

clamped :
    (q sent rounded : ℕ)
    → sent ≤ q
    → let most = if ltb q rounded then q else rounded in
      let target = if ltb most sent then sent else most in (sent ≤ target) × (target ≤ q)
clamped q sent rounded h = ground arith

module _ (d : Doubles) where
  -- No weight fails the assertion.
  abbrev pub AllWeights : List d.Double → Type 0
  AllWeights [] = Unit
  AllWeights (w ∷ ws) = (d.at_most d.zero_d w ≡ true) × AllWeights ws

  target-bounds :
      (q : ℕ) (cum : d.Double) (sent : ℕ) (ws : List d.Double)
      → sent ≤ q
      → (sent ≤ vwap_target d q cum sent ws) × (vwap_target d q cum sent ws ≤ q)
  unfolding vwap_target
  target-bounds q cum sent [] h = (h, omega arith)
  target-bounds q cum sent (w ∷ ws) h =
      let rounded = d.round_to_quantity (d.times (d.of_size q) (clamp_unit d cum)) in
      clamped q sent rounded h

  vwap_steps-cons :
      (q : ℕ) (w : d.Double) (ws : List d.Double) (cum : d.Double) (sent : ℕ) (cs rs : List ℕ)
      → d.at_most d.zero_d w ≡ true
      → vwap_steps d q (d.plus cum w) (vwap_target d q (d.plus cum w) sent ws) ws ≡ some (cs, rs)
      → vwap_steps d q cum sent (w ∷ ws) ≡ (
          let target = vwap_target d q (d.plus cum w) sent ws in
          some (sub64 target sent ∷ cs, sub64 q target ∷ rs))
  unfolding vwap_steps
  vwap_steps-cons q w ws cum sent cs rs ok run = rw (vwap_steps, ok, run)

  -- The last step sends the rest, so there is one.
  vwap_steps-RunsDown :
      (q : ℕ) (w : d.Double) (ws : List d.Double) (cum : d.Double) (sent : ℕ)
      → q < u64_mod
      → sent ≤ q
      → AllWeights (w ∷ ws)
      → Returns
          (vwap_steps d q cum sent (w ∷ ws))
          λ (cs, rs). RunsDown (q - sent) cs rs × (length cs ≡ suc (length ws))
  unfolding vwap_steps vwap_target
  vwap_steps-RunsDown q w [] cum sent word h (ok, _) =
      ((sub64 q sent ∷ [], sub64 q q ∷ []), rw ok, ((omega arith, omega arith), refl))
  vwap_steps-RunsDown q w (v ∷ ws) cum sent word h (ok, oks) =
      let cum' = d.plus cum w in
      let target = vwap_target d q cum' sent (v ∷ ws) in
      let (lo, hi) = target-bounds q cum' sent (v ∷ ws) h in
      let ((cs, rs), run, (down, n)) = vwap_steps-RunsDown q v ws cum' target word hi oks in
      let left : sub64 q target ≡ q - target = omega arith in
      (
        (sub64 target sent ∷ cs, sub64 q target ∷ rs),
        vwap_steps-cons q w (v ∷ ws) cum sent cs rs ok run,
        ((omega arith, subst (λ r. RunsDown r cs rs) (sym left) down), ap suc n),
      )

  -- `VwapStrategy` with a profile of at least one weight, none of which fails the assertion, ends
  -- normally, whatever `double` arithmetic computes: there is one child for each weight, the children add
  -- up to the parent, what remains after each step is what remained before less the child, and nothing
  -- remains at the end.
  pub vwap-SendsAll :
      (side : Side) (q : ℕ) (w : d.Double) (ws : List d.Double)
      → q < u64_mod
      → AllWeights (w ∷ ws)
      → Returns (vwap d side q (w ∷ ws)) (SendsAll side q (suc (length ws)))
  unfolding vwap
  vwap-SendsAll side q w ws word ok =
      let ((cs, rs), run, (down, n)) =
        vwap_steps-RunsDown q w ws d.zero_d 0 word (omega arith) ok in
      let all = subst (λ r. RunsDown r cs rs) (omega arith) down in
      (_, rw run, (refl, refl, n, sum-RunsDown q cs rs all, (rs, refl, all)))

  inventory-le :
      (q : ℕ) (kappa horizon : d.Double) (n j prev : ℕ)
      → inventory d q kappa horizon n j prev ≤ prev
  unfolding inventory
  inventory-le q kappa horizon n j prev = ground arith

  ac_steps-RunsDown :
      (q : ℕ) (kappa horizon : d.Double) (all n j prev : ℕ)
      → prev < u64_mod
      → let (cs, rs) = ac_steps d q kappa horizon all n j prev in
        RunsDown prev cs rs × (length cs ≡ suc n)
  unfolding ac_steps
  ac_steps-RunsDown q kappa horizon all zero j prev word = ((omega arith, refl), refl)
  ac_steps-RunsDown q kappa horizon all (suc n) j prev word =
      let le = inventory-le q kappa horizon all j prev in
      let x = inventory d q kappa horizon all j prev in
      let (down, len) = ac_steps-RunsDown q kappa horizon all n (suc j) x (omega arith) in
      ((omega arith, down), ap suc len)

  -- `AlmgrenChriss` with at least one step, a positive horizon and a positive impact ends normally,
  -- whatever `double` arithmetic computes: there is one child for each step, the children add up to the
  -- parent, what remains after each step is what remained before less the child, and nothing remains at
  -- the end.
  pub almgren_chriss-SendsAll :
      (side : Side) (q n : ℕ) (horizon lambda sigma eta : d.Double)
      → q < u64_mod
      → d.less d.zero_d horizon ≡ true
      → d.less d.zero_d eta ≡ true
      → Returns (almgren_chriss d side q (suc n) horizon lambda sigma eta) (SendsAll side q (suc n))
  unfolding almgren_chriss compute_kappa
  almgren_chriss-SendsAll side q n horizon lambda sigma eta word time impact =
      let num = d.times (d.times lambda sigma) sigma in
      let kappa = if d.at_most num d.zero_d then d.zero_d else d.sqrt (d.divide num eta) in
      let (down, len) = ac_steps-RunsDown q kappa horizon (suc n) n 1 q word in
      let (cs, rs) = ac_steps d q kappa horizon (suc n) n 1 q in
      (_, rw (impact, time), (refl, refl, len, sum-RunsDown q cs rs down, (rs, refl, down)))
