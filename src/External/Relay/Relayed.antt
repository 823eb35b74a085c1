-- ===== src/External/Relay/Relayed.antt =====
-- The relay hands over every event that the ring accepted.
use optimal_execution_platfo.Common.{
  append-nil, append_assoc, ℕ, suc, ◌≡◌, refl, sym, ap, ◌∙◌, inl, inr, arith, Option, none, some,
  Bool, true, false, if◌then◌else◌, List, [], ◌∷◌, ◌++◌, length-append, subst,
}
use optimal_execution_platfo.Core.Ring.{Ring, try_pop}
use optimal_execution_platfo.Core.Ring.Fifo.{
  IsRing, PopOutcome, try_push-PushOutcome, try_pop-PopOutcome,
}
use optimal_execution_platfo.External.Event.{TelemetryEvent}
use optimal_execution_platfo.External.Relay.{
  Phase, draining, checking, closing, returned, Relay, Action, push, request_stop, run, started,
  take_event, run_step, act, act_all,
}
use optimal_execution_platfo.External.Relay.Handed.{
  drop_one-IsRing, Closed, Closed-stop, Closed-push, log_all-append, Tracks, accepted_one, accepted,
  QuietOne, Quiet, Grows,
}

module _ {L : Type 0} (log : L → TelemetryEvent → L) where
  module _ {first : L} {at : ℕ} {done xs : List TelemetryEvent} where
    pub push-Grows :
        (s : Relay L) (e : TelemetryEvent)
        → Tracks log first s at done xs
        → s.stop_requested ≡ false
        → Grows log first (act log s (push e)) (done ++ xs) (accepted_one log s (push e))
    push-Grows s e k unset = elim (try_push-PushOutcome s.ring at xs e k.ring) [
      | inl (full, refused, same) ↦ (
        at,
        done,
        xs,
        record {
          ring = subst (λ q. IsRing q at xs) (sym same) (drop_one-IsRing s.ring at xs k.ring);
          logged = k.logged;
          counted = k.counted;
          closed = k.closed;
        },
        rw refused (sym (append-nil (done ++ xs))),
      )
      | inr (room, taken, r, _) ↦ (
        at,
        done,
        xs ++ e ∷ [],
        record {
          ring = r;
          logged = k.logged;
          counted = k.counted;
          closed = Closed-push s.phase s.stop_requested xs (xs ++ e ∷ []) unset k.closed;
        },
        rw taken (sym (append_assoc done xs (e ∷ []))),
      )
    ]

  take-Grows :
      {first : L} {at : ℕ} {done : List TelemetryEvent} (xs : List TelemetryEvent) (s : Relay L)
      (more otherwise : Phase) (out : Option TelemetryEvent) (q : Ring TelemetryEvent)
      → Tracks log first s at done xs
      → ((ys : List TelemetryEvent) → Closed more s.stop_requested ys)
      → Closed otherwise s.stop_requested []
      → PopOutcome s.ring at xs (out, q)
      → Grows log first (take_event log s more otherwise (out, q)) (done ++ xs) []
  take-Grows {first} {at} {done} [] s more otherwise out q k c d (h, same) =
      let base : Grows log first (take_event log s more otherwise (none, s.ring)) (done ++ []) [] =
        (
          at,
          done,
          [],
          record { ring = k.ring; logged = k.logged; counted = k.counted; closed = d },
          sym (append-nil (done ++ [])),
        ) in
      subst (λ o. Grows log first (take_event log s more otherwise (o, q)) (done ++ []) []) (sym h)
        (subst (λ q. Grows log first (take_event log s more otherwise (none, q)) (done ++ []) [])
          (sym same) base)
  take-Grows {first} {at} {done} (x ∷ xs) s more otherwise out q k c d (h, r, _) =
      let base : Grows log first (take_event log s more otherwise (some x, q)) (done ++ x ∷ xs) [] =
        (
          suc at,
          done ++ x ∷ [],
          xs,
          record {
            ring = r;
            logged = ap (λ l. log l x) k.logged ∙ sym (log_all-append log first done x);
            counted = omega (arith, k.counted, length-append done (x ∷ []));
            closed = c xs;
          },
          append_assoc done (x ∷ []) xs ∙ sym (append-nil (done ++ x ∷ xs)),
        ) in
      subst (λ o. Grows log first (take_event log s more otherwise (o, q)) (done ++ x ∷ xs) [])
        (sym h) base

  check-Closed :
      (stop : Bool) (xs : List TelemetryEvent)
      → Closed (if stop then closing else draining false) stop xs
  check-Closed true xs = refl
  check-Closed false xs = tt

  module _ {first : L} {at : ℕ} {done xs : List TelemetryEvent} where
    pub run-Grows :
        (c : Phase) (s : Relay L)
        → Tracks log first s at done xs
        → Closed c s.stop_requested xs
        → Grows log first (run_step log c s) (done ++ xs) []
    run-Grows (draining g) s k h =
        take-Grows xs s (draining true) (checking g) (try_pop s.ring).0 (try_pop s.ring).1 k
          (λ ys. tt) tt (try_pop-PopOutcome s.ring at xs k.ring)
    run-Grows (checking g) s k h = (
      at,
      done,
      xs,
      record {
        ring = k.ring;
        logged = k.logged;
        counted = k.counted;
        closed = check-Closed s.stop_requested xs;
      },
      sym (append-nil (done ++ xs)),
    )
    run-Grows closing s k h =
        take-Grows xs s closing returned (try_pop s.ring).0 (try_pop s.ring).1 k (λ ys. h) (h, refl)
          (try_pop-PopOutcome s.ring at xs k.ring)
    run-Grows returned s k h = (at, done, xs, k, sym (append-nil (done ++ xs)))

    act-Grows :
        (s : Relay L) (a : Action)
        → Tracks log first s at done xs
        → QuietOne log s a
        → Grows log first (act log s a) (done ++ xs) (accepted_one log s a)
    act-Grows s (push e) k h = push-Grows s e k h
    act-Grows s request_stop k h = (
      at,
      done,
      xs,
      record {
        ring = k.ring;
        logged = k.logged;
        counted = k.counted;
        closed = Closed-stop s.phase s.stop_requested xs k.closed;
      },
      sym (append-nil (done ++ xs)),
    )
    act-Grows s run k h = run-Grows s.phase s k k.closed

  pub act_all-Grows :
      {first : L} (acts : List Action) (s : Relay L) {at : ℕ} {done xs : List TelemetryEvent}
      → Tracks log first s at done xs
      → Quiet log s acts
      → Grows log first (act_all log s acts) (done ++ xs) (accepted log s acts)
  unfolding act_all
  act_all-Grows [] s {done = done} {xs = xs} k h = (_, done, xs, k, sym (append-nil (done ++ xs)))
  act_all-Grows (a ∷ rest) s {done = done} {xs = xs} k (h, hs) =
      let (at', done', xs', k', e) = act-Grows s a k h in
      let (at₁, done₁, xs₁, k₁, e₁) = act_all-Grows rest (act log s a) k' hs in
      (
        at₁,
        done₁,
        xs₁,
        k₁,
        e₁
            ∙ ap (λ l. l ++ accepted log (act log s a) rest) e
            ∙ append_assoc (done ++ xs) (accepted_one log s a) (accepted log (act log s a) rest),
      )

  -- However the steps of `Run` interleave with pushes and with `Stop`, if nothing is pushed once the flag
  -- is set: what the relay has logged, followed by what the ring holds, is the events that the ring
  -- accepted log, each once and in their order; `processed_` counts the logged ones (mod 2^64); and once
  -- `Run` has returned the ring is empty, so all of them are logged.
  pub started-Grows :
      (q : Ring TelemetryEvent) (at : ℕ) (first : L) (acts : List Action)
      → IsRing q at []
      → Quiet log (started log q first) acts
      → Grows log first
          (act_all log (started log q first) acts)
          []
          (accepted log (started log q first) acts)
  started-Grows q at first acts r quiet =
      act_all-Grows acts (started log q first) {at = at} {done = []} {xs = []}
        record { ring = r; logged = refl; counted = omega arith; closed = tt } quiet
