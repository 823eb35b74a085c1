-- ===== src/Core/Book/AddLimit.antt =====
-- `AddLimit`: matching in price/time priority, and then rest.
use optimal_execution_platfo.Common.{
  ℕ, ◌+◌, ◌<◌, ◌≡◌, ◌≢◌, refl, sym, ◌∙◌, inl, Option, none, some, Bool, true, false, not, ◌==◌,
  if◌then◌else◌, u64_mod, List, [], arith, subst, Returns, ℕ_discrete,
}
use optimal_execution_platfo.Common.Int.{ℤ}
use optimal_execution_platfo.Core.Order.{Side, Fill, Resting}
use optimal_execution_platfo.Core.Ladder.{Band, width}
use optimal_execution_platfo.Core.Book.{Book, rest}
use optimal_execution_platfo.Core.Book.Stock.{Orders}
use optimal_execution_platfo.Common.Tally.{tally-le}
use optimal_execution_platfo.Core.Book.{Matching, opposite, match_side, rest_remainder, add_limit}
use optimal_execution_platfo.Core.Book.Invariant.{IsBook, is_nil}
use optimal_execution_platfo.Core.Book.Sweep.{best_first, Swept, sweep, sweep-le}
use optimal_execution_platfo.Core.Book.Rest.{RestOutcome, rest-IsBook}
use optimal_execution_platfo.Core.Book.Rounds.{match_side-Matches}

-- The order that the rest of a taker becomes.
abbrev pub remainder : ℕ → Side → ℤ → ℕ → Resting
remainder id side price qty = record { id = id; price = price; qty = qty; side = side }

-- What `AddLimit` answers and leaves, against the sweep `r` of the opposite side.
pub record Added (f : ℕ → Option ℕ) (band : Band) (id : ℕ) (side : Side) (price : ℤ) (r : Swept)
    (out : Bool × List Fill × Book) : Type 0 where
  pub fills : out.1 ≡ r.fills
  pub matched : Book
  pub band_kept : matched.band ≡ band
  pub map : ℕ → Option ℕ
  pub free : List ℕ
  pub book : IsBook matched r.orders map free
  pub no_new_id : (j : ℕ) → f j ≡ none → map j ≡ none
  pub outcome :
      if r.remaining == 0
      then (out.0 ≡ true) × (out.2 ≡ matched)
      else RestOutcome matched r.orders map
          (remainder id side price r.remaining)
          free
          (out.0, out.2)

rest_remainder-none :
    (id : ℕ) (side : Side) (price : ℤ) (w : Matching)
    → w.remaining ≡ 0
    → rest_remainder id side price w ≡ some (true, w.fills, w.book)
unfolding rest_remainder
rest_remainder-none id side price w e = rw e

rest_remainder-some :
    (id : ℕ) (side : Side) (price : ℤ) (w : Matching) (ok : Bool) (b : Book)
    → w.remaining ≢ 0
    → rest w.book (remainder id side price w.remaining) ≡ some (ok, b)
    → rest_remainder id side price w ≡ some (ok, w.fills, b)
unfolding rest_remainder
rest_remainder-some id side price w ok b ne e =
    let test : (w.remaining == 0) ≡ false = ground arith in rw (test, e)

add_limit-step :
    (b : Book) (id : ℕ) (side : Side) (price : ℤ) (qty : ℕ) (w : Matching)
    → 0 < qty
    → match_side (width b.band + 1) id side price (record { book = b; remaining = qty; fills = [] })
      ≡ some w
    → add_limit b id side price qty ≡ rest_remainder id side price w
unfolding add_limit
add_limit-step b id side price qty w pos e =
    let test : (qty == 0) ≡ false = ground arith in rw (test, e)

outcome_filled : {P : Type 0} (Q : Type 0) (n : ℕ) → n ≡ 0 → P → if n == 0 then P else Q
outcome_filled Q n e p = rw e p

outcome_left : {Q : Type 0} (P : Type 0) (n : ℕ) → n ≢ 0 → Q → if n == 0 then P else Q
outcome_left P n ne q = let test : (n == 0) ≡ false = ground arith in rw test q

module _ {b : Book} {A : Orders} {f : ℕ → Option ℕ} {free : List ℕ} (k : IsBook b A f free) where
  -- `AddLimit` of an order with a new id and a quantity that is not 0 ends normally on every book that
  -- satisfies the invariant. Its fills are exactly those of price/time priority over the opposite side,
  -- in their order, and the resting orders are left as that priority leaves them. It returns true when
  -- the order is filled; otherwise what is left comes to rest as `Rest` says. The invariant holds again.
  pub add_limit-Added :
      (id : ℕ) (side : Side) (price : ℤ) (qty : ℕ)
      → f id ≡ none
      → 0 < qty
      → qty < u64_mod
      → Returns (add_limit b id side price qty) (
          Added f b.band id side price
            (sweep id side price b.band (best_first (opposite side) (width b.band)) A qty))
  add_limit-Added id side price qty fresh pos word =
      let w₀ : Matching = record { book = b; remaining = qty; fills = [] } in
      let count = tally-le (λ j. not (is_nil (A (opposite side) j))) (width b.band) in
      let (w, run, m) =
        match_side-Matches id side price (width b.band + 1) w₀ k (inl (omega arith)) word in
      let r = sweep id side price b.band (best_first (opposite side) (width b.band)) A qty in
      let start = add_limit-step b id side price qty w pos run in
      elim (ℕ_discrete r.remaining 0) [
        | yes filled ↦ (
          (true, w.fills, w.book),
          start ∙ rest_remainder-none id side price w (m.remaining ∙ filled),
          record {
            fills = m.fills;
            matched = w.book;
            band_kept = m.band;
            map = m.map;
            free = m.free;
            book = m.book;
            no_new_id = m.no_new_id;
            outcome = outcome_filled _ r.remaining filled (refl, refl);
          },
        )
        | no left ↦
            let o = remainder id side price w.remaining in
            let ((ok, b'), ran, q) =
              rest-IsBook m.free o m.book (omega (arith, m.remaining))
                (omega (
                  arith,
                  m.remaining,
                  sweep-le id side price b.band (best_first (opposite side) (width b.band)) A qty,
                ))
                (m.no_new_id id fresh) in
            (
              (ok, w.fills, b'),
              start
                  ∙ rest_remainder-some id side price w ok b' (λ e. left (sym m.remaining ∙ e)) ran,
              record {
                fills = m.fills;
                matched = w.book;
                band_kept = m.band;
                map = m.map;
                free = m.free;
                book = m.book;
                no_new_id = m.no_new_id;
                outcome = outcome_left _ r.remaining left (
                    subst
                      (λ n.
                        RestOutcome w.book r.orders m.map (remainder id side price n) m.free
                          (ok, b'))
                      m.remaining q);
              },
            )
      ]
