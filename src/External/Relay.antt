-- ===== src/External/Relay.antt =====
-- cpp/external/event_relay.hpp: `Start`, `Stop`, and the loop of `EventRelay::Run`, one call of the ring or one read of the
-- stop flag at a time, interleaved with the producer's pushes and with `Stop`. The logger, of which the
-- relay only calls `Log`, is an argument.
pub mod Handed
pub mod Relayed
pub mod Shutdown
pub mod Calls
mod Tests
use optimal_execution_platfo.Common.{
  ℕ, zero, suc, ◌+◌, ◌>>=◌, Option, none, some, Bool, true, false, if◌then◌else◌, add64, List, ◌++◌,
  [], ◌∷◌,
}
use optimal_execution_platfo.Core.Ring.{Ring, capacity, try_push, try_pop}
use optimal_execution_platfo.External.Event.{TelemetryEvent}

-- Where `Run` is: in the drain loop, before the read of the flag, in the final pass, or back.
pub data Phase : Type 0 where
  draining checking : (got_any : Bool) → Phase
  closing returned : Phase

pub record Relay (L : Type 0) : Type 0 where
  pub ring : Ring TelemetryEvent
  pub logger : L
  pub stop_requested : Bool
  pub processed : ℕ
  pub phase : Phase

-- The producer pushes, `Stop` sets the flag, or the relay's thread makes a step.
pub data Action : Type 0 where
  push : TelemetryEvent → Action
  request_stop run : Action

-- This many steps of the relay's thread.
abbrev pub runs : ℕ → List Action
runs zero = []
runs (suc n) = run ∷ runs n

abbrev pub is_returned : Phase → Bool
is_returned (draining got_any) = false
is_returned (checking got_any) = false
is_returned closing = false
is_returned returned = true

-- The relay as its owner sees it. `running_` is set exactly while there is a thread to join: only `Start`
-- assigns one and only `Stop` joins it.
pub record EventRelay (L : Type 0) : Type 0 where
  pub running : Bool
  pub relay : Relay L

-- What the owner does, and a step of the relay's thread.
pub data Call : Type 0 where
  call_start call_stop thread_step : Call
  produce : TelemetryEvent → Call

-- `Start`: the thread begins `Run`.
abbrev pub spawn : {L : Type 0} → Relay L → Relay L
spawn s = record s { stop_requested = false; phase = draining false }

abbrev pub new_relay : {L : Type 0} → Ring TelemetryEvent → L → EventRelay L
new_relay ring logger = record {
  running = false;
  relay = record {
    ring = ring;
    logger = logger;
    stop_requested = false;
    processed = 0;
    phase = returned;
  };
}

abbrev pub start : {L : Type 0} → EventRelay L → EventRelay L
start r = if r.running then r else record { running = true; relay = spawn r.relay }

-- The owner keeps the events that the ring accepted.
abbrev pub send :
    {L : Type 0}
    → EventRelay L
    → List TelemetryEvent
    → TelemetryEvent
    → EventRelay L × List TelemetryEvent
send r sent e =
    let (ok, q) = try_push r.relay.ring e in
    (record r { relay = record r.relay { ring = q } }, if ok then sent ++ e ∷ [] else sent)

module _ {L : Type 0} (log : L → TelemetryEvent → L) where
  -- The thread that `Start` spawns, on a new relay.
  abbrev pub started : Ring TelemetryEvent → L → Relay L
  started ring logger = record {
    ring = ring;
    logger = logger;
    stop_requested = false;
    processed = 0;
    phase = draining false;
  }

  -- The body of both loops: `logger_.Log(event)` and the count, or `otherwise`, on the answer of `TryPop`.
  abbrev pub take_event :
      Relay L → (more otherwise : Phase) → Option TelemetryEvent × Ring TelemetryEvent → Relay L
  take_event s more otherwise (none, q) = record s { ring = q; phase = otherwise }
  take_event s more otherwise (some e, q) = record s {
    ring = q;
    logger = log s.logger e;
    processed = add64 s.processed 1;
    phase = more;
  }

  -- The next step of `Run`
  abbrev pub run_step : Phase → Relay L → Relay L
  run_step (draining got_any) s = take_event s (draining true) (checking got_any) (try_pop s.ring)
  run_step (checking got_any) s = record s {
    phase = if s.stop_requested then closing else draining false;
  }
  run_step closing s = take_event s closing returned (try_pop s.ring)
  run_step returned s = s

  abbrev pub act : Relay L → Action → Relay L
  act s (push e) = record s { ring = (try_push s.ring e).1 }
  act s request_stop = record s { stop_requested = true }
  act s run = run_step s.phase s

  unfoldable pub act_all : Relay L → List Action → Relay L
  act_all s [] = s
  act_all s (a ∷ rest) = act_all (act s a) rest

  -- `thread_.join()`: the thread makes the steps that are left to it, and `none` if `Run` has not returned
  -- by then.
  abbrev pub join : Relay L → Option (Relay L)
  join s =
      let s' = act_all s (runs (capacity s.ring + 3)) in
      if is_returned s'.phase then some s' else none

  abbrev pub stop_running : EventRelay L → Option (EventRelay L)
  stop_running r = do
    s ← join (record r.relay { stop_requested = true })
    some (record { running = false; relay = s })

  unfoldable pub stop : EventRelay L → Option (EventRelay L)
  stop r = if r.running then stop_running r else some r

  abbrev pub serve :
      EventRelay L → List TelemetryEvent → Call → Option (EventRelay L × List TelemetryEvent)
  serve r sent call_start = some (start r, sent)
  serve r sent call_stop = do r' ← stop r; some (r', sent)
  serve r sent thread_step = some (record r { relay = run_step r.relay.phase r.relay }, sent)
  serve r sent (produce e) = some (send r sent e)

  unfoldable pub serve_all :
      EventRelay L → List TelemetryEvent → List Call → Option (EventRelay L × List TelemetryEvent)
  serve_all r sent [] = some (r, sent)
  serve_all r sent (c ∷ rest) = do (r', sent') ← serve r sent c; serve_all r' sent' rest
