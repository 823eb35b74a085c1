-- ===== src/Core/Book/Observe.antt =====
-- What the observers of the book read.
use optimal_execution_platfo.Common.{
  ℕ, ◌<◌, ◌≡◌, sym, ap, ◌∙◌, inl, inr, ◌⊎◌, Option, true, false, not, List, [], arith, ℕ_discrete,
}
use optimal_execution_platfo.Core.Order.{Side}
use optimal_execution_platfo.Core.Ladder.{width}
use optimal_execution_platfo.Core.Ladder.Price.{price_at}
use optimal_execution_platfo.Core.Book.{Book}
use optimal_execution_platfo.Core.Book.Stock.{Orders}
use optimal_execution_platfo.Common.Int.{pos}
use optimal_execution_platfo.Core.Ladder.Scan.{NoWorse}
use optimal_execution_platfo.Core.Book.{has_best, best_price}
use optimal_execution_platfo.Core.Book.Invariant.{IsBook, is_nil}
use optimal_execution_platfo.Core.Book.Match.{populated-is_nil}
use optimal_execution_platfo.Core.Book.Crossing.{dead-nil, not-false}

-- What the observers say of a side: it is empty, or they name the best of its levels with orders.
abbrev pub BestSeen : Book → Orders → Side → Type 0
BestSeen b A s =
    ((has_best b s ≡ false) × (best_price b s ≡ pos 0) × ((j : ℕ) → j < width b.band → A s j ≡ []))
    ⊎ ((has_best b s ≡ true)
        × ((i : ℕ) × (i < width b.band)
            × (best_price b s ≡ price_at b.band i)
            × (is_nil (A s i) ≡ false)
            × ((j : ℕ) → j < width b.band → is_nil (A s j) ≡ false → NoWorse s i j)))

module _ {b : Book} {A : Orders} {f : ℕ → Option ℕ} {free : List ℕ} (k : IsBook b A f free) where
  -- On a book that satisfies its invariant, `has_bid` and `has_ask` are false, and `best_bid` and
  -- `best_ask` 0, when no order rests on the side; otherwise they are true and the best of the prices at
  -- which orders rest.
  pub best_price-BestSeen : (s : Side) → BestSeen b A s
  unfolding has_best best_price
  best_price-BestSeen s = elim (ℕ_discrete (b.ladders s).live 0) [
    | yes dead ↦ inl (ground arith, ground arith, dead-nil k s dead)
    | no alive ↦
        let (i, (hi, at, full, first)) = (k.touch s).best (omega arith) in
        inr (
          ground arith,
          (
            i,
            hi,
            ground (arith, at),
            not-false (is_nil (A s i)) (sym (populated-is_nil k s i hi) ∙ full),
            λ j hj h. first j hj (populated-is_nil k s j hj ∙ ap not h),
          ),
        )
  ]
