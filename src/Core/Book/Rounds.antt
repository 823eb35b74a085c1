-- ===== src/Core/Book/Rounds.antt =====
-- The loops of `MatchBuy` and `MatchSell` as a whole.
use optimal_execution_platfo.Common.{
  append-nil, append_assoc, ℕ, zero, suc, ◌<◌, ◌≡◌, ◌≢◌, refl, sym, ap, ◌∙◌, inl, inr, ◌⊎◌, Option,
  none, some, true, false, not, u64_mod, List, ◌++◌, arith, subst, Returns, ℕ_discrete, Bool-cases,
}
use optimal_execution_platfo.Common.Int.{ℤ}
use optimal_execution_platfo.Core.Order.{Side}
use optimal_execution_platfo.Core.Ladder.{width}
use optimal_execution_platfo.Core.Ladder.Price.{price_at}
use optimal_execution_platfo.Core.Ladder.Scan.{populated}
use optimal_execution_platfo.Core.Book.Place.{change}
use optimal_execution_platfo.Core.Book.Stock.{Orders}
use optimal_execution_platfo.Common.Tally.{tally_pos}
use optimal_execution_platfo.Core.Book.{Matching, opposite, is_past, crossing, match_side}
use optimal_execution_platfo.Core.Book.Invariant.{IsBook, is_nil}
use optimal_execution_platfo.Core.Book.Priority.{Taken, take_queue}
use optimal_execution_platfo.Core.Book.Sweep.{
  best_first, sweep, Idle, sweep-idle_all, take_queue-le, take_queue_filled, is_past-worse,
}
use optimal_execution_platfo.Core.Book.Around.{best_first-Each}
use optimal_execution_platfo.Core.Book.SweepStep.{Each-Idle, sweep-step}
use optimal_execution_platfo.Core.Book.Match.{Matched, populated-is_nil, match_level-Matched}
use optimal_execution_platfo.Core.Book.Crossing.{
  match_side-stop, match_side-go, crossing-stop, crossing-go, Matches, level_count, fewer_levels,
  not-false, Better-NoWorse, unpopulated-nil, dead-nil,
}

module _ (id : ℕ) (side : Side) (price : ℤ) (w : Matching) {A : Orders} {f : ℕ → Option ℕ}
    {free : List ℕ} (k : IsBook w.book A f free) where
  abbrev all_levels : List ℕ
  all_levels = best_first (opposite side) (width w.book.band)

  -- When the loop stops, the sweep takes nothing more.
  stop-Matches :
      (fuel : ℕ)
      → crossing side price w ≡ none
      → ((j : ℕ) → j < width w.book.band → Idle id side price w.book.band A w.remaining j)
      → Returns
          (match_side (suc fuel) id side price w)
          (Matches f w (sweep id side price w.book.band all_levels A w.remaining))
  stop-Matches fuel stop idle =
      let e = sweep-idle_all id side price w.book.band A w.remaining all_levels (
        Each-Idle id side price w.book.band A w.remaining all_levels idle
          (best_first-Each (opposite side) (width w.book.band))) in
      (
        w,
        match_side-stop id side price fuel w stop,
        subst (λ r. Matches f w r w) (sym e)
            (record {
              fills = sym (append-nil w.fills);
              remaining = refl;
              band = refl;
              map = f;
              free = free;
              book = k;
              no_new_id = λ j h. h;
            }),
      )

  go-Matches :
      (i : ℕ) (t : Taken) (w' w'' : Matching)
      → (m : Matched A f (opposite side) i w t w')
      → Matches m.map w'
          (sweep id side price w'.book.band
            (best_first (opposite side) (width w'.book.band))
            (change A (opposite side) i t.queue)
            w'.remaining)
          w''
      → let rest =
          sweep id side price w.book.band all_levels
            (change A (opposite side) i t.queue)
            t.remaining in
        Matches f w
          (record {
            fills = t.fills ++ rest.fills;
            orders = rest.orders;
            remaining = rest.remaining;
          })
          w''
  go-Matches i t w' w'' m c =
      let B = change A (opposite side) i t.queue in
      let c' =
        subst
          (λ band.
            Matches m.map w'
              (sweep id side price band (best_first (opposite side) (width band)) B w'.remaining)
              w'')
          m.band c in
      let c'' =
        subst (λ n. Matches m.map w' (sweep id side price w.book.band all_levels B n) w'')
          m.remaining c' in
      let rest = sweep id side price w.book.band all_levels B t.remaining in
      record {
        fills =
            c''.fills
            ∙ ap (λ xs. xs ++ rest.fills) m.fills
            ∙ append_assoc w.fills t.fills rest.fills;
        remaining = c''.remaining;
        band = c''.band ∙ m.band;
        map = c''.map;
        free = c''.free;
        book = c''.book;
        no_new_id = λ j h. c''.no_new_id j (m.no_new_id j h);
      }

-- Enough rounds: one more than levels with orders, or one for a filled taker.
abbrev pub IsEnough : ℕ → Side → Matching → Orders → Type 0
IsEnough fuel side w A =
    (level_count A (opposite side) (width w.book.band) < fuel) ⊎ ((w.remaining ≡ 0) × (0 < fuel))

module _ (id : ℕ) (side : Side) (price : ℤ) where
  no_rounds : (w : Matching) (A : Orders) → IsEnough 0 side w A → ⊥
  no_rounds w A (inl h) = omega arith
  no_rounds w A (inr (e, h)) = omega arith

  next-IsEnough :
      (fuel i : ℕ) (w : Matching) {A : Orders} {f : ℕ → Option ℕ} (t : Taken) (w' : Matching)
      → Matched A f (opposite side) i w t w'
      → i < width w.book.band
      → is_nil (A (opposite side) i) ≡ false
      → w.remaining ≢ 0
      → IsEnough (suc fuel) side w A
      → (is_nil t.queue ≡ true) ⊎ (t.remaining ≡ 0)
      → IsEnough fuel side w' (change A (opposite side) i t.queue)
  next-IsEnough fuel i w t w' m hi was more (inr (e, h)) end = absurd (more e)
  next-IsEnough fuel i w {A} t w' m hi was more (inl h) (inl nil) =
      let s = opposite side in
      let fewer = fewer_levels A s i (width w.book.band) t.queue hi was nil in
      inl (
        subst (λ band. level_count (change A s i t.queue) s (width band) < fuel) (sym m.band)
          (omega arith))
  next-IsEnough fuel i w {A} t w' m hi was more (inl h) (inr filled) =
      let one =
        tally_pos (λ j. not (is_nil (A (opposite side) j))) i (width w.book.band) hi (ap not was) in
      inr (m.remaining ∙ filled, omega arith)

  -- The loop of the matching ends normally when it may make one round more than there are levels with
  -- orders on the opposite side. Its fills, in their order, the orders that stay and what is left of the
  -- taker are those of price/time priority, and the book satisfies its invariant.
  pub match_side-Matches :
      (fuel : ℕ) (w : Matching) {A : Orders} {f : ℕ → Option ℕ} {free : List ℕ}
      → IsBook w.book A f free
      → IsEnough fuel side w A
      → w.remaining < u64_mod
      → Returns (match_side fuel id side price w) (
          Matches f w (
            sweep id side price w.book.band
              (best_first (opposite side) (width w.book.band))
              A
              w.remaining))
  match_side-Matches zero w {A} k enough word = absurd (no_rounds w A enough)
  match_side-Matches (suc fuel) w {A} {f} k enough word =
      let s = opposite side in
      let band = w.book.band in
      let l = w.book.ladders s in
      elim (ℕ_discrete w.remaining 0) [
        | yes filled ↦
            stop-Matches id side price w k fuel (crossing-stop id side price w (inl filled))
              (λ j hj. inr (inl filled))
        | no more ↦ elim (ℕ_discrete l.live 0) [
          | yes dead ↦
              stop-Matches id side price w k fuel (crossing-stop id side price w (inr (inl dead)))
                (λ j hj. inl (dead-nil k s dead j hj))
          | no alive ↦
              let (i, (hi, at, full, first)) = (k.touch s).best (omega arith) in
              elim (Bool-cases (is_past side (price_at band i) price)) [
                | inl past ↦
                    stop-Matches id side price w k fuel
                      (crossing-stop id side price w
                        (inr (inr (ap (λ px. is_past side px price) at ∙ past))))
                      (λ j hj. elim (Bool-cases (populated l j)) [
                        | inl e ↦ inr (inr (is_past-worse band price side i j (first j hj e) past))
                        | inr e ↦ inl (unpopulated-nil k s j hj e)
                      ])
                | inr crosses ↦
                    let t = take_queue id side (price_at band i) (A s i) w.remaining in
                    let (w', run, m) = match_level-Matched id side w k i hi full word in
                    let was = not-false (is_nil (A s i)) (sym (populated-is_nil k s i hi) ∙ full) in
                    let end : (is_nil t.queue ≡ true) ⊎ (t.remaining ≡ 0) =
                      elim (Bool-cases (is_nil t.queue)) [
                        | inl e ↦ inl e
                        | inr e ↦
                            inr (take_queue_filled id side (price_at band i) (A s i) w.remaining e)
                      ] in
                    let less = take_queue-le id side (price_at band i) (A s i) w.remaining in
                    let (w'', run', c) =
                      match_side-Matches fuel w' m.book
                        (next-IsEnough fuel i w t w' m hi was more enough end)
                        (omega (arith, m.remaining)) in
                    let cross =
                      crossing-go id side price w (omega arith) (omega arith)
                        (ap (λ px. is_past side px price) at ∙ crosses) in
                    let step =
                      sweep-step id side price band A w.remaining i t hi
                        (λ j hj better. elim (Bool-cases (populated l j)) [
                          | inl e ↦ absurd (Better-NoWorse s i j better (first j hj e))
                          | inr e ↦ unpopulated-nil k s j hj e
                        ])
                        crosses refl end in
                    (
                      w'',
                      match_side-go id side price fuel w w' (price_at band i) (cross ∙ ap some at)
                            run
                          ∙ run',
                      subst (λ r. Matches f w r w'') (sym step)
                          (go-Matches id side price w k i t w' w'' m c),
                    )
              ]
        ]
      ]
