-- ===== src/External/Relay/Handed.antt =====
-- What the relay has handed over, and which runs push nothing after the stop flag is set.
use optimal_execution_platfo.Common.{
  ℕ, ◌%◌, ◌≡◌, refl, Bool, true, false, if◌then◌else◌, u64_mod, List, [], ◌∷◌, ◌++◌, length,
}
use optimal_execution_platfo.Core.Ring.{Ring, drop_one, try_push}
use optimal_execution_platfo.Core.Ring.Fifo.{IsRing}
use optimal_execution_platfo.External.Event.{TelemetryEvent}
use optimal_execution_platfo.External.Relay.{
  Phase, draining, checking, closing, returned, Relay, Action, push, request_stop, run, act,
}

pub drop_one-IsRing :
    (q : Ring TelemetryEvent) (at : ℕ) (xs : List TelemetryEvent)
    → IsRing q at xs
    → IsRing (drop_one q) at xs
drop_one-IsRing q at xs r = record {
  wide = r.wide;
  write = r.write;
  read = r.read;
  room = r.room;
  stored = r.stored;
}

-- What the phase says of the flag and of the events in the ring, while nothing is pushed once it is set.
abbrev pub Closed : Phase → Bool → List TelemetryEvent → Type 0
Closed (draining g) stop xs = Unit
Closed (checking g) stop xs = Unit
Closed closing stop xs = stop ≡ true
Closed returned stop xs = (stop ≡ true) × (xs ≡ [])

pub Closed-stop :
    (c : Phase) (stop : Bool) (xs : List TelemetryEvent) → Closed c stop xs → Closed c true xs
Closed-stop (draining g) stop xs k = tt
Closed-stop (checking g) stop xs k = tt
Closed-stop closing stop xs k = refl
Closed-stop returned stop xs (e, h) = (refl, h)

pub Closed-push :
    (c : Phase) (stop : Bool) (xs ys : List TelemetryEvent)
    → stop ≡ false
    → Closed c stop xs
    → Closed c stop ys
Closed-push (draining g) stop xs ys f k = tt
Closed-push (checking g) stop xs ys f k = tt
Closed-push closing stop xs ys f k = k
Closed-push returned stop xs ys f (e, h) = absurd (cc (e, f))

module _ {L : Type 0} (log : L → TelemetryEvent → L) where
  abbrev pub log_all : L → List TelemetryEvent → L
  log_all l [] = l
  log_all l (e ∷ es) = log_all (log l e) es

  pub log_all-append :
      (l : L) (es : List TelemetryEvent) (e : TelemetryEvent)
      → log_all l (es ++ e ∷ []) ≡ log (log_all l es) e
  log_all-append l [] e = refl
  log_all-append l (x ∷ es) e = log_all-append (log l x) es e

  -- The relay has logged `done`, in this order, and the ring holds `xs`.
  pub record Tracks (first : L) (s : Relay L) (at : ℕ) (done xs : List TelemetryEvent)
      : Type 0 where
    pub ring : IsRing s.ring at xs
    pub logged : s.logger ≡ log_all first done
    pub counted : s.processed ≡ length done % u64_mod
    pub closed : Closed s.phase s.stop_requested xs

  -- The events that the ring accepted in this run.
  abbrev pub accepted_one : Relay L → Action → List TelemetryEvent
  accepted_one s (push e) = if (try_push s.ring e).0 then e ∷ [] else []
  accepted_one s request_stop = []
  accepted_one s run = []

  abbrev pub accepted : Relay L → List Action → List TelemetryEvent
  accepted s [] = []
  accepted s (a ∷ rest) = accepted_one s a ++ accepted (act log s a) rest

  -- Nothing is pushed once `Stop` has set the flag.
  abbrev pub QuietOne : Relay L → Action → Type 0
  QuietOne s (push e) = s.stop_requested ≡ false
  QuietOne s request_stop = Unit
  QuietOne s run = Unit

  abbrev pub Quiet : Relay L → List Action → Type 0
  Quiet s [] = Unit
  Quiet s (a ∷ rest) = QuietOne s a × Quiet (act log s a) rest

  -- What one action adds to the events that were logged or are in the ring.
  abbrev pub Grows : L → Relay L → (old new : List TelemetryEvent) → Type 0
  Grows first s old new =
      (at : ℕ) × (done : List TelemetryEvent) × (xs : List TelemetryEvent) × Tracks first s at done
        xs
      × (done ++ xs ≡ old ++ new)
