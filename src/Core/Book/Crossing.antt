-- ===== src/Core/Book/Crossing.antt =====
-- When the matching loops stop, and what they have done by then.
use optimal_execution_platfo.Common.{
  ℕ, suc, ◌+◌, ◌<◌, ◌≡◌, refl, sym, ap, ◌∙◌, inl, inr, ◌⊎◌, Option, none, some, Bool, true, false,
  not, List, [], ◌++◌, arith, Bool-cases,
}
use optimal_execution_platfo.Common.Int.{ℤ}
use optimal_execution_platfo.Core.Order.{Side, buy, sell}
use optimal_execution_platfo.Core.Level.Segment.{Queue}
use optimal_execution_platfo.Core.Ladder.{width}
use optimal_execution_platfo.Core.Ladder.Scan.{populated}
use optimal_execution_platfo.Core.Book.{Book}
use optimal_execution_platfo.Core.Book.Place.{change, change_self, change_other, same_side_self}
use optimal_execution_platfo.Core.Book.Stock.{Orders}
use optimal_execution_platfo.Common.Tally.{tally, tally_rise, tally_pos}
use optimal_execution_platfo.Core.Ladder.Scan.{NoWorse, Better}
use optimal_execution_platfo.Core.Book.{
  Matching, opposite, is_past, crossing, match_level, match_side,
}
use optimal_execution_platfo.Core.Book.Invariant.{IsBook, is_nil}
use optimal_execution_platfo.Core.Book.Sweep.{Swept}
use optimal_execution_platfo.Core.Book.SweepStep.{nil_of_is_nil}
use optimal_execution_platfo.Core.Book.Match.{populated-is_nil}

module _ (id : ℕ) (side : Side) (price : ℤ) where
  pub match_side-stop :
      (fuel : ℕ) (w : Matching)
      → crossing side price w ≡ none
      → match_side (suc fuel) id side price w ≡ some w
  unfolding match_side
  match_side-stop fuel w e = rw (match_side, e)

  pub match_side-go :
      (fuel : ℕ) (w w' : Matching) (px : ℤ)
      → crossing side price w ≡ some px
      → match_level id side w px ≡ some w'
      → match_side (suc fuel) id side price w ≡ match_side fuel id side price w'
  unfolding match_side
  match_side-go fuel w w' px e e' = rw (match_side, e, e')

  pub crossing-stop :
      (w : Matching)
      → let l = w.book.ladders (opposite side) in
        (w.remaining ≡ 0) ⊎ ((l.live ≡ 0) ⊎ (is_past side l.best_px price ≡ true))
        → crossing side price w ≡ none
  unfolding crossing
  crossing-stop w (inl e) = ground arith
  crossing-stop w (inr (inl e)) = ground arith
  crossing-stop w (inr (inr e)) = ground arith

  pub crossing-go :
      (w : Matching)
      → let l = w.book.ladders (opposite side) in
        0 < w.remaining
        → 0 < l.live
        → is_past side l.best_px price ≡ false
        → crossing side price w ≡ some l.best_px
  unfolding crossing
  crossing-go w a b c = ground arith

-- What the loop leaves, against the sweep.
pub record Matches (f : ℕ → Option ℕ) (w : Matching) (r : Swept) (w' : Matching) : Type 0 where
  pub fills : w'.fills ≡ w.fills ++ r.fills
  pub remaining : w'.remaining ≡ r.remaining
  pub band : w'.book.band ≡ w.book.band
  pub map : ℕ → Option ℕ
  pub free : List ℕ
  pub book : IsBook w'.book r.orders map free
  pub no_new_id : (j : ℕ) → f j ≡ none → map j ≡ none

-- The number of levels of a side with orders.
abbrev pub level_count : Orders → Side → ℕ → ℕ
level_count A s n = tally (λ j. not (is_nil (A s j))) n

pub fewer_levels :
    (A : Orders) (s : Side) (i n : ℕ) (xs : Queue)
    → i < n
    → is_nil (A s i) ≡ false
    → is_nil xs ≡ true
    → level_count (change A s i xs) s n + 1 ≡ level_count A s n
fewer_levels A s i n xs hi was nil = sym (
    tally_rise (λ j. not (is_nil (change A s i xs s j))) (λ j. not (is_nil (A s j))) i n hi
      (ap (λ q. not (is_nil q)) (change_self A s i xs) ∙ ap not nil) (ap not was)
      (λ j ne.
        ap (λ q. not (is_nil q))
          (change_other A s i xs s j (rw (same_side_self s) (ground arith)))))

not-true : (b : Bool) → not b ≡ false → b ≡ true
not-true true h = refl
not-true false h = cc h

pub not-false : (b : Bool) → not b ≡ true → b ≡ false
not-false true h = cc h
not-false false h = refl

pub Better-NoWorse : (s : Side) (i j : ℕ) → Better s j i → NoWorse s i j → ⊥
Better-NoWorse buy i j h g = omega arith
Better-NoWorse sell i j h g = omega arith

module _ {b : Book} {A : Orders} {f : ℕ → Option ℕ} {free : List ℕ} (k : IsBook b A f free)
    (s : Side) where
  pub unpopulated-nil : (j : ℕ) → j < width b.band → populated (b.ladders s) j ≡ false → A s j ≡ []
  unpopulated-nil j hj e = nil_of_is_nil (A s j) (not-true _ (sym (populated-is_nil k s j hj) ∙ e))

  pub dead-nil : (b.ladders s).live ≡ 0 → (j : ℕ) → j < width b.band → A s j ≡ []
  dead-nil dead j hj = elim (Bool-cases (populated (b.ladders s) j)) [
    | inr e ↦ unpopulated-nil j hj e
    | inl e ↦
        let one = tally_pos (populated (b.ladders s)) j (width b.band) hj e in
        absurd (omega (arith, one, (k.touch s).count))
  ]
