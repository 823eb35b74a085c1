-- ===== src/Core/Book/SweepStep.antt =====
-- The sweep from the best level with orders on.
use optimal_execution_platfo.Common.{
  ℕ, ◌<◌, ◌≡◌, refl, sym, ap, ◌∙◌, inl, inr, ◌⊎◌, true, false, ◌&&◌, List, [], ◌∷◌, ◌++◌, arith,
  ◌==◌,
}
use optimal_execution_platfo.Common.Int.{ℤ}
use optimal_execution_platfo.Core.Order.{Side, buy, sell}
use optimal_execution_platfo.Core.Level.Segment.{Queue}
use optimal_execution_platfo.Core.Ladder.{Band, width}
use optimal_execution_platfo.Core.Ladder.Price.{price_at}
use optimal_execution_platfo.Core.Ladder.Scan.{Better}
use optimal_execution_platfo.Core.Book.{opposite, is_past, same_side}
use optimal_execution_platfo.Core.Book.Place.{change, change_self, change_other}
use optimal_execution_platfo.Core.Book.Stock.{Orders}
use optimal_execution_platfo.Core.Book.Invariant.{is_nil}
use optimal_execution_platfo.Core.Book.Priority.{Taken, take_queue}
use optimal_execution_platfo.Core.Book.Sweep.{
  best_first, Swept, sweep, Idle, AllIdle, sweep-take, sweep-idle, sweep-Idle_one,
}
use optimal_execution_platfo.Core.Book.Around.{Each, around}

pub nil_of_is_nil : (xs : Queue) → is_nil xs ≡ true → xs ≡ []
nil_of_is_nil [] h = refl
nil_of_is_nil (x ∷ xs) h = cc h

Better-apart : (s : Side) (i j : ℕ) → Better s j i → (same_side s s && (i == j)) ≡ false
Better-apart buy i j h = ground arith
Better-apart sell i j h = ground arith

module _ (id : ℕ) (side : Side) (price : ℤ) (band : Band) (A : Orders) (n : ℕ)
    {P : ℕ → Type 0} where
  pub Each-Idle :
      (is : List ℕ)
      → ((j : ℕ) → P j → Idle id side price band A n j)
      → Each P is
      → AllIdle id side price band A n is
  Each-Idle [] f e = tt
  Each-Idle (i ∷ is) f (e, es) = (f i e, Each-Idle is f es)

module _ (id : ℕ) (side : Side) (price : ℤ) (band : Band) (A : Orders) (n i : ℕ) where
  -- The sweep starts at the best level with orders, and goes on from what it leaves there.
  pub sweep-step :
      (k : Taken)
      → i < width band
      → ((j : ℕ) → j < width band → Better (opposite side) j i → A (opposite side) j ≡ [])
      → is_past side (price_at band i) price ≡ false
      → take_queue id side (price_at band i) (A (opposite side) i) n ≡ k
      → (is_nil k.queue ≡ true) ⊎ (k.remaining ≡ 0)
      → let all = best_first (opposite side) (width band) in
        let rest = sweep id side price band all (change A (opposite side) i k.queue) k.remaining in
        sweep id side price band all A n
        ≡ record { fills = k.fills ++ rest.fills; orders = rest.orders; remaining = rest.remaining }
  sweep-step k hi empty crosses taken end =
      let s = opposite side in
      let A' = change A s i k.queue in
      let all = best_first s (width band) in
      let (is, js, e, before, _) = around s (width band) i hi in
      let idle : AllIdle id side price band A n is =
        Each-Idle id side price band A n is (λ j p. inl (empty j p.0 p.1)) before in
      let idle' : AllIdle id side price band A' k.remaining is =
        Each-Idle id side price band A' k.remaining is
          (λ j p. inl (change_other A s i k.queue s j (Better-apart s i j p.1) ∙ empty j p.0 p.1))
          before in
      let here : Idle id side price band A' k.remaining i = elim end [
        | inl nil ↦ inl (change_self A s i k.queue ∙ nil_of_is_nil k.queue nil)
        | inr filled ↦ inr (inl filled)
      ] in
      let rest : sweep id side price band all A' k.remaining
          ≡ sweep id side price band js A' k.remaining =
        ap (λ all. sweep id side price band all A' k.remaining) e
        ∙ sweep-idle id side price band A' k.remaining is (i ∷ js) idle'
        ∙ sweep-Idle_one id side price band A' k.remaining i js here in
      ap (λ all. sweep id side price band all A n) e
      ∙ sweep-idle id side price band A n is (i ∷ js) idle
      ∙ sweep-take id side price band A n i js k crosses taken
      ∙ ap
          (λ (r : Swept). record {
            fills = k.fills ++ r.fills;
            orders = r.orders;
            remaining = r.remaining;
          })
          (sym rest)
