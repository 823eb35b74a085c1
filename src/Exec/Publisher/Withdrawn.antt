-- ===== src/Exec/Publisher/Withdrawn.antt =====
-- What a cancel of the publisher puts into the ring.
use optimal_execution_platfo.Common.{
  ℕ, ◌+◌, ◌≡◌, refl, sym, ap, ◌∙◌, inl, inr, Option, none, some, Bool, true, false, add64, List,
  Returns, Option-cases, subst,
}
use optimal_execution_platfo.Core.Order.{Resting}
use optimal_execution_platfo.Core.Book.{Book, cancel}
use optimal_execution_platfo.Core.Book.Stock.{Orders}
use optimal_execution_platfo.Core.Book.Invariant.{IsBook}
use optimal_execution_platfo.Core.Book.Cancel.{Cancelled, cancel-IsBook}
use optimal_execution_platfo.Core.Ring.{try_push}
use optimal_execution_platfo.External.Event.{cancel_event}
use optimal_execution_platfo.Exec.Publisher.{Publisher, emit, told_cancel, publish_cancel}

module _ (clock : ℕ → ℕ) where
  publish_cancel-step :
      (p : Publisher) (id : ℕ) (told : Option Resting) (b : Book)
      → cancel p.book id ≡ some (told, b)
      → publish_cancel clock p id ≡ some (told_cancel clock (record p { book = b }) told)
  unfolding publish_cancel
  publish_cancel-step p id told b e = rw e

  -- The publisher that has tried to push the cancel of `r`.
  abbrev pub after_cancel : Publisher → Resting → Publisher
  after_cancel p r = record p {
    ring = (try_push p.ring (cancel_event p.seq (clock p.readings) r.id r.side r.price r.qty)).1;
    seq = add64 p.seq 1;
    readings = p.readings + 1;
  }

  -- What `TelemetryPublisher::Cancel` answers and leaves when the id index says this of the id.
  abbrev pub Withdrawn :
      Publisher → Orders → (ℕ → Option ℕ) → List ℕ → ℕ → Option ℕ → Bool × Publisher → Type 0
  Withdrawn p A f free id none (ok, p') = (ok ≡ false) × (p' ≡ p)
  Withdrawn p A f free id (some slot) (ok, p') =
      (r : Resting) × (ok ≡ true)
      × Cancelled p.book A f free id (some slot) (some r, p'.book)
      × (p' ≡ after_cancel (record p { book = p'.book }) r)

  -- `TelemetryPublisher::Cancel` ends normally on every book that satisfies its invariant. For an id
  -- that does not rest it answers false, and leaves the book, the ring and the sequence number as they
  -- are. For an id that rests it answers true, does to the book what `Cancel` does, and tries to push
  -- one event with the order's id, side and price, its remaining quantity and the next sequence number.
  pub publish_cancel-Withdrawn :
      (p : Publisher) {A : Orders} {f : ℕ → Option ℕ} {free : List ℕ} (id : ℕ)
      → IsBook p.book A f free
      → Returns (publish_cancel clock p id) (Withdrawn p A f free id (f id))
  unfolding emit
  publish_cancel-Withdrawn p {A} {f} {free} id k =
      let ((told, b), run, c) = cancel-IsBook k id in
      let ran = publish_cancel-step p id told b run in
      elim (Option-cases (f id)) [
        | inl e ↦
            let (none_told, kept) = subst (λ o. Cancelled p.book A f free id o (told, b)) e c in
            (
              (false, p),
              ran
                  ∙ ap (λ t. some (told_cancel clock (record p { book = b }) t)) none_told
                  ∙ ap (λ b'. some (false, record p { book = b' })) kept,
              subst (λ o. Withdrawn p A f free id o (false, p)) (sym e) (refl, refl),
            )
        | inr (slot, e) ↦
            let (i, r, ys, zs, hi, at, same, price, told_r, k', same_band) =
              subst (λ o. Cancelled p.book A f free id o (told, b)) e c in
            let q = after_cancel (record p { book = b }) r in
            (
              (true, q),
              ran ∙ ap (λ t. some (told_cancel clock (record p { book = b }) t)) told_r,
              subst (λ o. Withdrawn p A f free id o (true, q)) (sym e)
                  (r, refl, (i, r, ys, zs, hi, at, same, price, refl, k', same_band), refl),
            )
      ]
