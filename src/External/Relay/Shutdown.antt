-- ===== src/External/Relay/Shutdown.antt =====
-- `Run` comes to its end once the stop flag is set.
use optimal_execution_platfo.Common.{
  append-nil, ℕ, zero, suc, ◌+◌, ◌≤◌, ◌≡◌, refl, sym, ap, ◌∙◌, arith, Option, none, some, true,
  false, if◌then◌else◌, List, [], ◌∷◌, ◌++◌, length, subst,
}
use optimal_execution_platfo.Core.Ring.{Ring, try_pop}
use optimal_execution_platfo.Core.Ring.Fifo.{IsRing, PopOutcome, try_pop-PopOutcome}
use optimal_execution_platfo.External.Event.{TelemetryEvent}
use optimal_execution_platfo.External.Relay.{
  runs, Phase, draining, checking, closing, returned, Relay, run, take_event, run_step, act,
  act_all,
}
use optimal_execution_platfo.External.Relay.Handed.{Closed, log_all, Tracks, accepted, Quiet}
use optimal_execution_platfo.External.Relay.Relayed.{act_all-Grows}

-- The steps that are left, with `n` events in the ring.
abbrev pub steps_left : Phase → ℕ → ℕ
steps_left (draining got_any) n = n + 3
steps_left (checking got_any) n = n + 2
steps_left closing n = n + 1
steps_left returned n = 0

no_steps_left : (c : Phase) (n : ℕ) → steps_left c n ≡ 0 → c ≡ returned
no_steps_left (draining got_any) n e = absurd (omega arith)
no_steps_left (checking got_any) n e = absurd (omega arith)
no_steps_left closing n e = absurd (omega arith)
no_steps_left returned n e = refl

module _ {L : Type 0} (log : L → TelemetryEvent → L) where
  -- The ring holds some events, the flag is set, and at most `most` steps are left.
  record Ends (most : ℕ) (s : Relay L) : Type 0 where
    at : ℕ
    events : List TelemetryEvent
    ring : IsRing s.ring at events
    stopped : s.stop_requested ≡ true
    left : steps_left s.phase (length events) ≤ most

  take-Ends :
      (xs : List TelemetryEvent) (at : ℕ) (s : Relay L) (more otherwise : Phase) (most : ℕ)
      (out : Option TelemetryEvent) (q : Ring TelemetryEvent)
      → IsRing s.ring at xs
      → s.stop_requested ≡ true
      → steps_left more (length xs) ≤ most + 1
      → ((n : ℕ) → steps_left more (suc n) ≡ suc (steps_left more n))
      → steps_left otherwise 0 ≤ most
      → PopOutcome s.ring at xs (out, q)
      → Ends most (take_event log s more otherwise (out, q))
  take-Ends [] at s more otherwise most out q r h le falls end (e, same) =
      let base : Ends most (take_event log s more otherwise (none, s.ring)) = record {
        at = at;
        events = [];
        ring = r;
        stopped = h;
        left = end;
      } in
      subst (λ o. Ends most (take_event log s more otherwise (o, q))) (sym e)
        (subst (λ q. Ends most (take_event log s more otherwise (none, q))) (sym same) base)
  take-Ends (x ∷ xs) at s more otherwise most out q r h le falls end (e, r', _) =
      let base : Ends most (take_event log s more otherwise (some x, q)) = record {
        at = suc at;
        events = xs;
        ring = r';
        stopped = h;
        left = omega (arith, falls (length xs));
      } in
      subst (λ o. Ends most (take_event log s more otherwise (o, q))) (sym e) base

  run_step-Ends :
      (c : Phase) (most : ℕ) (s : Relay L)
      → s.phase ≡ c
      → Ends (suc most) s
      → Ends most (run_step log c s)
  run_step-Ends (draining g) most s e k =
      let left : steps_left (draining g) (length k.events) ≤ suc most =
        subst (λ c. steps_left c (length k.events) ≤ suc most) e k.left in
      take-Ends k.events k.at s (draining true) (checking g) most (try_pop s.ring).0
        (try_pop s.ring).1 k.ring k.stopped (omega arith) (λ n. omega arith) (omega arith)
        (try_pop-PopOutcome s.ring k.at k.events k.ring)
  run_step-Ends (checking g) most s e k =
      let left : steps_left (checking g) (length k.events) ≤ suc most =
        subst (λ c. steps_left c (length k.events) ≤ suc most) e k.left in
      record {
        at = k.at;
        events = k.events;
        ring = k.ring;
        stopped = k.stopped;
        left =
            subst (λ b. steps_left (if b then closing else draining false) (length k.events) ≤ most)
              (sym k.stopped) (omega arith);
      }
  run_step-Ends closing most s e k =
      let left : steps_left closing (length k.events) ≤ suc most =
        subst (λ c. steps_left c (length k.events) ≤ suc most) e k.left in
      take-Ends k.events k.at s closing returned most (try_pop s.ring).0 (try_pop s.ring).1 k.ring
        k.stopped (omega arith) (λ n. omega arith) (omega arith)
        (try_pop-PopOutcome s.ring k.at k.events k.ring)
  run_step-Ends returned most s e k = record {
    at = k.at;
    events = k.events;
    ring = k.ring;
    stopped = k.stopped;
    left = subst (λ c. steps_left c (length k.events) ≤ most) (sym e) (omega arith);
  }

  act_all-returned : (n : ℕ) (s : Relay L) → Ends n s → (act_all log s (runs n)).phase ≡ returned
  unfolding act_all
  act_all-returned zero s k = no_steps_left s.phase (length k.events) (omega (arith, k.left))
  act_all-returned (suc n) s k =
      act_all-returned n (run_step log s.phase s) (run_step-Ends s.phase n s refl k)

  -- The relay's own steps accept nothing and push nothing.
  runs-Quiet : (n : ℕ) (s : Relay L) → Quiet log s (runs n)
  runs-Quiet zero s = tt
  runs-Quiet (suc n) s = (tt, runs-Quiet n (act log s run))

  runs-accepted : (n : ℕ) (s : Relay L) → accepted log s (runs n) ≡ []
  runs-accepted zero s = refl
  runs-accepted (suc n) s = runs-accepted n (act log s run)

  steps_left-le : (c : Phase) (n : ℕ) → steps_left c n ≤ n + 3
  steps_left-le (draining got_any) n = omega arith
  steps_left-le (checking got_any) n = omega arith
  steps_left-le closing n = omega arith
  steps_left-le returned n = omega arith

  -- With the flag set and enough steps the ring is empty and `Run` has returned.
  pub drained :
      {first : L} {at : ℕ} {done xs : List TelemetryEvent} (s : Relay L) (n : ℕ)
      → Tracks log first s at done xs
      → s.stop_requested ≡ true
      → length xs + 3 ≤ n
      → let s' = act_all log s (runs n) in
        (s'.phase ≡ returned) × ((at' : ℕ) × Tracks log first s' at' (done ++ xs) [])
  drained {first} {at} {done} {xs} s n k h le =
      let fewest = steps_left-le s.phase (length xs) in
      let over =
        act_all-returned n s record {
          at = at;
          events = xs;
          ring = k.ring;
          stopped = h;
          left = omega (arith, fewest);
        } in
      let (at', done', xs', k', e) = act_all-Grows log (runs n) s k (runs-Quiet n s) in
      let empty : xs' ≡ [] =
        (subst (λ c. Closed c (act_all log s (runs n)).stop_requested xs') over k'.closed).1 in
      let all : done' ≡ done ++ xs =
        sym (append-nil done')
        ∙ ap (λ ys. done' ++ ys) (sym empty)
        ∙ e
        ∙ ap (λ ys. (done ++ xs) ++ ys) (runs-accepted n s)
        ∙ append-nil (done ++ xs) in
      (
        over,
        (
          at',
          subst (λ ys. Tracks log first (act_all log s (runs n)) at' ys []) all
              (subst (Tracks log first (act_all log s (runs n)) at' done') empty k'),
        ),
      )

  -- Once `Stop` has set the flag and nothing more is pushed, `Run` returns after at most three steps more
  -- than the ring holds events, wherever it stands; then the relay has logged all that it had logged
  -- before and all that the ring held, in this order, so that the join of `Stop` ends.
  pub stop_drains :
      {first : L} {at : ℕ} {done xs : List TelemetryEvent} (s : Relay L)
      → Tracks log first s at done xs
      → s.stop_requested ≡ true
      → let s' = act_all log s (runs (length xs + 3)) in
        (s'.phase ≡ returned) × (s'.logger ≡ log_all log first (done ++ xs))
  stop_drains {first} {at} {done} {xs} s k h =
      let (over, (_, k')) = drained s (length xs + 3) k h (omega arith) in (over, k'.logged)
