-- ===== src/Exec/RlPolicy/CloseOut.antt =====
-- Whatever the actor answers, the policy sends the parent exactly.
use optimal_execution_platfo.Common.{
  ℕ, zero, suc, ◌+◌, ◌<◌, ◌≤◌, ◌≡◌, ◌⊎◌, refl, sym, ap, ◌∙◌, inl, inr, arith, Option, some, true,
  ltb, leb, sub64, u64_mod, List, [], ◌∷◌, length, Returns, ℕ_discrete, ◌>>=◌, update, update_self,
  update_ne, subst,
}
use optimal_execution_platfo.Core.Order.{Side}
use optimal_execution_platfo.Exec.Double.{Doubles}
use optimal_execution_platfo.Exec.RlPolicy.{
  Floats, RlPolicy, blank_policy, init_policy, write_state, decode_quantity, take_action,
  clamp_unit_f, compute_next_action, run_policy,
}

-- The sum of the first `k` values.
abbrev pub sum_to : (ℕ → ℕ) → ℕ → ℕ
sum_to a zero = 0
sum_to a (suc k) = sum_to a k + a k

-- In each of the first `k` steps the child takes its part of what is left.
abbrev pub Falls : (child_qty remaining : ℕ → ℕ) → ℕ → Type 0
Falls c r zero = Unit
Falls c r (suc k) = Falls c r k × (r (suc k) + c k ≡ r k)

Falls-update :
    (c r : ℕ → ℕ) (k n v w : ℕ) → k ≤ n → Falls c r k → Falls (update c n v) (update r (suc n) w) k
Falls-update c r zero n v w h f = tt
Falls-update c r (suc k) n v w h (f, e) = (
  Falls-update c r k n v w (omega arith) f,
  rw
      (
        update_ne r (suc n) (suc k) w (omega arith),
        update_ne c n k v (omega arith),
        update_ne r (suc n) k w (omega arith),
      )
      e,
)

sum_to-Falls : (c r : ℕ → ℕ) (k : ℕ) → Falls c r k → sum_to c k + r k ≡ r 0
sum_to-Falls c r zero f = omega arith
sum_to-Falls c r (suc k) (f, e) = omega (arith, sum_to-Falls c r k f)

Falls-next :
    (c r : ℕ → ℕ) (k i j q w : ℕ)
    → i ≡ k
    → j ≡ suc k
    → Falls c r k
    → w + q ≡ r k
    → Falls (update c i q) (update r j w) (suc k)
Falls-next c r k i j q w ei ej f e =
    subst (λ i. Falls (update c i q) (update r j w) (suc k)) (sym ei)
      (subst (λ j. Falls (update c k q) (update r j w) (suc k)) (sym ej)
        (
          Falls-update c r k k q w (omega arith) f,
          rw (update_self r (suc k) w, update_self c k q, update_ne r (suc k) k w (omega arith)) e,
        ))

module _ {d : Doubles} (fl : Floats d) where
  -- The policy after `k` of its `n` steps; after the last nothing is left.
  pub record Sending (side : Side) (parent_qty n k : ℕ) (p : RlPolicy fl) : Type 0 where
    pub same_side : p.parent_side ≡ side
    pub same_parent : p.parent_qty ≡ parent_qty
    pub same_steps : p.num_steps ≡ n
    pub step : p.current_step ≡ k
    pub whole : p.remaining 0 ≡ parent_qty
    pub falls : Falls p.child_qty p.remaining k
    pub closed : (k ≡ 0) ⊎ ((k < n) ⊎ (p.remaining k ≡ 0))

  decode_quantity-le :
      (p : RlPolicy fl) (x : fl.Float) → decode_quantity fl p x ≤ p.remaining p.current_step
  unfolding decode_quantity
  decode_quantity-le p x = ground arith

  decode_quantity_last :
      (p : RlPolicy fl) (x : fl.Float)
      → p.current_step + 1 ≡ p.num_steps
      → decode_quantity fl p x ≡ p.remaining p.current_step
  unfolding decode_quantity
  decode_quantity_last p x e = ground arith

  module _ (forward : (ℕ → fl.Float) → Option (fl.Float × fl.Float)) where
    compute_next_action-step :
        (p : RlPolicy fl) (a : fl.Float × fl.Float)
        → forward p.input_tensor ≡ some a
        → p.current_step < p.num_steps
        → compute_next_action fl forward p ≡ some (take_action fl p a)
    unfolding compute_next_action
    compute_next_action-step p a e h =
        let test : ltb p.current_step p.num_steps ≡ true = ground arith in rw (e, test)

    run_policy-step :
        (p p' : RlPolicy fl) (state : ℕ → fl.Float) (states : List (ℕ → fl.Float))
        → compute_next_action fl forward (write_state fl p state) ≡ some p'
        → run_policy fl forward p (state ∷ states) ≡ run_policy fl forward p' states
    unfolding run_policy
    run_policy-step p p' state states e = rw e

  module _ {side : Side} {parent_qty n : ℕ} (word : parent_qty < u64_mod) where
    take_action-Sending :
        (k : ℕ) (p : RlPolicy fl) (a : fl.Float × fl.Float)
        → Sending side parent_qty n k p
        → k < n
        → Sending side parent_qty n (suc k) (take_action fl p a)
    take_action-Sending k p (size, aggression) s h =
        let q = decode_quantity fl p (clamp_unit_f fl size) in
        let le = decode_quantity-le p (clamp_unit_f fl size) in
        let total = sum_to-Falls p.child_qty p.remaining k s.falls in
        let here : p.remaining p.current_step ≡ p.remaining k = ap p.remaining s.step in
        let small : p.remaining k < u64_mod = omega (arith, s.whole) in
        let left : sub64 (p.remaining p.current_step) q + q ≡ p.remaining k = omega arith in
        let next : p.current_step + 1 ≡ suc k = omega (arith, s.step) in
        let last : (suc k ≡ n) → sub64 (p.remaining p.current_step) q ≡ 0 = λ (e : suc k ≡ n).
          let all =
            decode_quantity_last p (clamp_unit_f fl size) (omega (arith, s.step, s.same_steps)) in
          omega (arith) in
        let r = update p.remaining (p.current_step + 1) (sub64 (p.remaining p.current_step) q) in
        let written : r (suc k) ≡ sub64 (p.remaining p.current_step) q =
          rw next (update_self p.remaining (suc k) (sub64 (p.remaining p.current_step) q)) in
        record {
          same_side = s.same_side;
          same_parent = s.same_parent;
          same_steps = s.same_steps;
          step = next;
          whole =
              update_ne p.remaining (p.current_step + 1) 0 (sub64 (p.remaining p.current_step) q)
                (omega arith)
              ∙ s.whole;
          falls =
              Falls-next p.child_qty p.remaining k p.current_step (p.current_step + 1) q
                (sub64 (p.remaining p.current_step) q) s.step next s.falls left;
          closed = inr (elim (ℕ_discrete (suc k) n) [
            | yes e ↦ inr (written ∙ last e)
            | no e ↦ inl (omega arith)
          ]);
        }

    module _ (forward : (ℕ → fl.Float) → Option (fl.Float × fl.Float)) where
      run_policy-Sending :
          (answers : (x : ℕ → fl.Float) → (a : fl.Float × fl.Float) × (forward x ≡ some a))
          (states : List (ℕ → fl.Float)) (k : ℕ) (p : RlPolicy fl)
          → Sending side parent_qty n k p
          → k + length states ≤ n
          → Returns (run_policy fl forward p states) (Sending side parent_qty n (k + length states))
      unfolding run_policy write_state
      run_policy-Sending answers [] k p s h =
          (p, refl, subst (λ j. Sending side parent_qty n j p) (omega arith) s)
      run_policy-Sending answers (state ∷ states) k p s h =
          let p₁ = write_state fl p state in
          let s₁ : Sending side parent_qty n k p₁ = record {
            same_side = s.same_side;
            same_parent = s.same_parent;
            same_steps = s.same_steps;
            step = s.step;
            whole = s.whole;
            falls = s.falls;
            closed = s.closed;
          } in
          let (a, e) = answers p₁.input_tensor in
          let run = compute_next_action-step forward p₁ a e (omega (arith, s.step, s.same_steps)) in
          let s₂ = take_action-Sending k p₁ a s₁ (omega arith) in
          let (p', run', s') =
            run_policy-Sending answers states (suc k) (take_action fl p₁ a) s₂ (omega arith) in
          (
            p',
            run_policy-step forward p (take_action fl p₁ a) state states run ∙ run',
            subst (λ j. Sending side parent_qty n j p') (omega arith) s',
          )

  -- What the policy holds at the end of its `n` steps.
  abbrev pub SentAll : Side → ℕ → ℕ → RlPolicy fl → Type 0
  SentAll side parent_qty n p =
      (p.parent_side ≡ side)
      × (p.current_step ≡ n)
      × (sum_to p.child_qty n ≡ parent_qty)
      × (p.remaining 0 ≡ parent_qty)
      × Falls p.child_qty p.remaining n
      × (p.remaining n ≡ 0)

  init_policy-step :
      (parent_qty : ℕ) (side : Side) (n : ℕ)
      → 0 < n
      → Returns (init_policy fl parent_qty side n) (Sending side parent_qty n 0)
  unfolding init_policy
  init_policy-step parent_qty side n pos =
      let test : leb 1 n ≡ true = ground arith in
      (
        blank_policy fl parent_qty side n,
        rw test,
        record {
          same_side = refl;
          same_parent = refl;
          same_steps = refl;
          step = refl;
          whole = refl;
          falls = tt;
          closed = inl refl;
        },
      )

  -- A policy of at least one step whose actor never throws, and which is asked once for each step, ends
  -- normally whatever the actor answers and whatever `float` and `double` arithmetic compute: the children
  -- add up to the parent, what remains after each step is what remained before less the child, and nothing
  -- remains at the end.
  pub policy-SentAll :
      (forward : (ℕ → fl.Float) → Option (fl.Float × fl.Float))
      (answers : (x : ℕ → fl.Float) → (a : fl.Float × fl.Float) × (forward x ≡ some a))
      (parent_qty : ℕ) (side : Side) (states : List (ℕ → fl.Float))
      → parent_qty < u64_mod
      → 0 < length states
      → Returns
          (do p ← init_policy fl parent_qty side (length states); run_policy fl forward p states)
          (SentAll side parent_qty (length states))
  policy-SentAll forward answers parent_qty side states word pos =
      let n = length states in
      let (p, made, s) = init_policy-step parent_qty side n pos in
      let (p', run, s') = run_policy-Sending word forward answers states 0 p s (omega arith) in
      let t : Sending side parent_qty n n p' =
        subst (λ j. Sending side parent_qty n j p') (omega arith) s' in
      let none_left : p'.remaining n ≡ 0 = ground (arith, t.closed) in
      (
        p',
        rw (made, run),
        (
          t.same_side,
          t.step,
          omega (arith, sum_to-Falls p'.child_qty p'.remaining n t.falls, t.whole, none_left),
          t.whole,
          t.falls,
          none_left,
        ),
      )
