-- ===== src/External/Relay/Tests.antt =====
-- A relay that logs the sequence numbers into a list.
use optimal_execution_platfo.Common.{ℕ, ◌≡◌, refl, arith, List, [], ◌∷◌, ◌++◌}
use optimal_execution_platfo.Common.Int.{pos}
use optimal_execution_platfo.Core.Order.{buy}
use optimal_execution_platfo.Core.Ring.{Ring, new_ring, try_push, try_pop}
use optimal_execution_platfo.Core.Ring.Fifo.{IsRing}
use optimal_execution_platfo.External.Event.{TelemetryEvent, ack_event}
use optimal_execution_platfo.External.Relay.{
  Action, push, request_stop, run, returned, started, act_all, runs,
}
use optimal_execution_platfo.External.Relay.Shutdown.{stop_drains}
use optimal_execution_platfo.Common.{true, ◌+◌}
use optimal_execution_platfo.External.Relay.{
  Relay, checking, Call, call_start, call_stop, thread_step, produce, new_relay, stop, serve_all,
}
use optimal_execution_platfo.External.Relay.Calls.{Logs, Stopped, serve_all-Stopped}
use optimal_execution_platfo.Common.{Returns, length}
use optimal_execution_platfo.External.Relay.Handed.{Tracks}
use optimal_execution_platfo.External.Relay.Handed.{Grows, accepted}
use optimal_execution_platfo.External.Relay.Relayed.{started-Grows}

abbrev event : ℕ → TelemetryEvent
event n = ack_event n 0 41 buy (pos 100) 5

abbrev ring : Ring TelemetryEvent
ring = new_ring (event 0) 1

ring-IsRing : IsRing ring 0 []
unfolding new_ring
ring-IsRing = record {
  wide = omega arith;
  write = refl;
  read = refl;
  room = omega arith;
  stored = tt;
}

abbrev log : List ℕ → TelemetryEvent → List ℕ
log l e = l ++ e.sequence ∷ []

-- The third push finds the ring full; the second is drained after the flag was set.
abbrev schedule : List Action
schedule =
    push (event 0)
    ∷ push (event 1)
    ∷ push (event 2)
    ∷ run
    ∷ request_stop
    ∷ run
    ∷ run
    ∷ run
    ∷ run
    ∷ []

relay_test :
    ((act_all log (started log ring []) schedule).phase ≡ returned)
    × ((act_all log (started log ring []) schedule).logger ≡ 0 ∷ 1 ∷ [])
unfolding act_all new_ring try_push try_pop
relay_test = (refl, refl)

started-Grows_example :
    Grows log []
      (act_all log (started log ring []) schedule)
      []
      (accepted log (started log ring []) schedule)
started-Grows_example =
    started-Grows log ring 0 [] schedule ring-IsRing
      (refl, (refl, (refl, (tt, (tt, (tt, (tt, (tt, (tt, tt)))))))))

-- The flag is set while the relay is about to read it, and two events came meanwhile.
abbrev late : Relay (List ℕ)
late = record {
  ring = record ring { write_idx = 2; storage = λ i. event (7 + i) };
  logger = 3 ∷ [];
  stop_requested = true;
  processed = 1;
  phase = checking true;
}

late-Tracks : Tracks log [] late 0 (event 3 ∷ []) (event 7 ∷ event 8 ∷ [])
unfolding new_ring
late-Tracks = record {
  ring = record {
    wide = omega arith;
    write = refl;
    read = refl;
    room = omega arith;
    stored = (refl, (refl, tt));
  };
  logged = refl;
  counted = refl;
  closed = tt;
}

stop_drains_test :
    let s = act_all log late (runs 5) in ((s.phase ≡ returned) × (s.logger ≡ 3 ∷ 7 ∷ 8 ∷ []))
stop_drains_test = stop_drains log late late-Tracks refl

-- The relay is started twice; a push between two calls of `Stop` waits for the second thread.
abbrev calls : List Call
calls =
    produce (event 0)
    ∷ call_start
    ∷ thread_step
    ∷ produce (event 1)
    ∷ call_stop
    ∷ produce (event 2)
    ∷ call_start
    ∷ call_start
    ∷ produce (event 3)
    ∷ []

calls_test :
    Returns
      (serve_all log (new_relay ring []) [] calls)
      λ o. (length o.1 ≡ 4) × (o.0.running ≡ true) × (o.0.relay.logger ≡ 0 ∷ 1 ∷ [])
unfolding serve_all stop act_all new_ring try_push try_pop
calls_test = (_, refl, (refl, refl, refl))

serve_all-Stopped_example :
    Returns
      (serve_all log (new_relay ring []) [] calls)
      λ o. Logs log [] o.1 o.0 × Returns (stop log o.0) (Stopped log [] o.1 o.0)
serve_all-Stopped_example = serve_all-Stopped log ring 0 [] calls ring-IsRing
