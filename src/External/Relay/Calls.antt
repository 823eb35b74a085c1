-- ===== src/External/Relay/Calls.antt =====
-- Any sequence of the owner's calls and steps of the thread, and then a `Stop`.
use optimal_execution_platfo.Common.{
  append-nil, ℕ, ◌+◌, ◌≡◌, refl, sym, ap, ◌∙◌, inl, inr, arith, Option, none, some, Bool, true,
  false, if◌then◌else◌, ◌>>=◌, List, [], ◌∷◌, ◌++◌, subst, Returns, Bool-cases,
}
use optimal_execution_platfo.Core.Ring.{Ring, capacity, try_push, try_pop}
use optimal_execution_platfo.Core.Ring.Fifo.{IsRing}
use optimal_execution_platfo.External.Event.{TelemetryEvent}
use optimal_execution_platfo.External.Relay.{
  runs, Phase, draining, checking, closing, returned, Relay, push, take_event, run_step, act_all,
  is_returned, EventRelay, Call, call_start, call_stop, thread_step, produce, spawn, new_relay,
  start, join, stop_running, stop, send, serve, serve_all,
}
use optimal_execution_platfo.External.Relay.Handed.{Closed, log_all, Tracks, accepted_one}
use optimal_execution_platfo.External.Relay.Relayed.{push-Grows, run-Grows}
use optimal_execution_platfo.External.Relay.Shutdown.{drained}

-- A running thread is in the drain loop or before the read of the flag; otherwise there is none.
abbrev pub Loops : Phase → Type 0
Loops (draining got_any) = Unit
Loops (checking got_any) = Unit
Loops closing = ⊥
Loops returned = ⊥

abbrev pub IsLive : Bool → Bool → Phase → Type 0
IsLive true flag c = (flag ≡ false) × Loops c
IsLive false flag c = c ≡ returned

Loops-Closed : (c : Phase) (flag : Bool) (xs : List TelemetryEvent) → Loops c → Closed c flag xs
Loops-Closed (draining g) flag xs l = tt
Loops-Closed (checking g) flag xs l = tt
Loops-Closed closing flag xs l = absurd l
Loops-Closed returned flag xs l = absurd l

module _ {L : Type 0} (log : L → TelemetryEvent → L) where
  -- The relay has logged the first of the events `sent`, and its ring holds the rest.
  pub record Logs (first : L) (sent : List TelemetryEvent) (r : EventRelay L) : Type 0 where
    pub at : ℕ
    pub done : List TelemetryEvent
    pub waiting : List TelemetryEvent
    pub tracks : Tracks log first (spawn r.relay) at done waiting
    pub all : done ++ waiting ≡ sent
    pub live : IsLive r.running r.relay.stop_requested r.relay.phase

  -- The same of a relay whose thread is at any place.
  spawn-Tracks :
      {first : L} {at : ℕ} {done xs : List TelemetryEvent} (s : Relay L)
      → Tracks log first s at done xs
      → Tracks log first (spawn s) at done xs
  spawn-Tracks s k = record { ring = k.ring; logged = k.logged; counted = k.counted; closed = tt }

  at-Tracks :
      {first : L} {at : ℕ} {done xs : List TelemetryEvent} (s : Relay L)
      → Tracks log first (spawn s) at done xs
      → Closed s.phase s.stop_requested xs
      → Tracks log first s at done xs
  at-Tracks s k c = record { ring = k.ring; logged = k.logged; counted = k.counted; closed = c }

  start-Logs :
      (first : L) (sent : List TelemetryEvent) (r : EventRelay L) (b : Bool)
      → r.running ≡ b
      → Logs first sent r
      → Logs first sent (if b then r else record { running = true; relay = spawn r.relay })
  start-Logs first sent r true e k = k
  start-Logs first sent r false e k = record {
    at = k.at;
    done = k.done;
    waiting = k.waiting;
    tracks = k.tracks;
    all = k.all;
    live = (refl, tt);
  }

  -- A step of the loop keeps the flag, and without the flag it stays in the loop.
  take-IsLive :
      (s : Relay L) (more otherwise : Phase) (out : Option TelemetryEvent) (q : Ring TelemetryEvent)
      → s.stop_requested ≡ false
      → Loops more
      → Loops otherwise
      → let s' = take_event log s more otherwise (out, q) in IsLive true s'.stop_requested s'.phase
  take-IsLive s more otherwise none q e m o = (e, o)
  take-IsLive s more otherwise (some x) q e m o = (e, m)

  step-IsLive :
      (c : Phase) (s : Relay L)
      → s.stop_requested ≡ false
      → Loops c
      → let s' = run_step log c s in IsLive true s'.stop_requested s'.phase
  step-IsLive (draining g) s e l =
      take-IsLive s (draining true) (checking g) (try_pop s.ring).0 (try_pop s.ring).1 e tt tt
  step-IsLive (checking g) s e l =
      (e, subst (λ b. Loops (if b then closing else draining false)) (sym e) tt)
  step-IsLive closing s e l = absurd l
  step-IsLive returned s e l = absurd l

  step-Logs :
      (first : L) (sent : List TelemetryEvent) (running : Bool) (s : Relay L)
      → Logs first sent (record { running = running; relay = s })
      → Logs first sent (record { running = running; relay = run_step log s.phase s })
  step-Logs first sent true s k =
      let closed = Loops-Closed s.phase s.stop_requested k.waiting k.live.1 in
      let (at', done', xs', k', e) = run-Grows log s.phase s (at-Tracks s k.tracks closed) closed in
      record {
        at = at';
        done = done';
        waiting = xs';
        tracks = spawn-Tracks (run_step log s.phase s) k';
        all = e ∙ append-nil (k.done ++ k.waiting) ∙ k.all;
        live = step-IsLive s.phase s k.live.0 k.live.1;
      }
  step-Logs first sent false s k =
      subst (λ c. Logs first sent (record { running = false; relay = run_step log c s }))
        (sym k.live) k

  sent-append :
      (sent : List TelemetryEvent) (e : TelemetryEvent) (ok : Bool)
      → sent ++ (if ok then e ∷ [] else []) ≡ (if ok then sent ++ e ∷ [] else sent)
  sent-append sent e true = refl
  sent-append sent e false = append-nil sent

  send-Logs :
      (first : L) (sent : List TelemetryEvent) (r : EventRelay L) (e : TelemetryEvent)
      → Logs first sent r
      → Logs first (send r sent e).1 (send r sent e).0
  send-Logs first sent r e k =
      let (at', done', xs', k', g) = push-Grows log (spawn r.relay) e k.tracks refl in
      record {
        at = at';
        done = done';
        waiting = xs';
        tracks = k';
        all =
            g
            ∙ ap (λ ys. ys ++ accepted_one log (spawn r.relay) (push e)) k.all
            ∙ sent-append sent e (try_push r.relay.ring e).0;
        live = k.live;
      }

  -- After `Stop` of a running relay everything is logged; `Stop` of another one does nothing.
  abbrev pub Stopped : L → List TelemetryEvent → EventRelay L → EventRelay L → Type 0
  Stopped first sent r r' =
      Logs first sent r'
      × (r'.running ≡ false)
      × (if r.running then r'.relay.logger ≡ log_all log first sent else r' ≡ r)

  stop_running-Stopped :
      (first : L) (sent : List TelemetryEvent) (r : EventRelay L)
      → r.running ≡ true
      → Logs first sent r
      → Returns (stop_running log r) λ r'.
        Logs first sent r' × (r'.running ≡ false) × (r'.relay.logger ≡ log_all log first sent)
  stop_running-Stopped first sent r e k =
      let live = subst (λ b. IsLive b r.relay.stop_requested r.relay.phase) e k.live in
      let s : Relay L = record r.relay { stop_requested = true } in
      let n = capacity s.ring + 3 in
      let tracks = at-Tracks s k.tracks (Loops-Closed s.phase true k.waiting live.1) in
      let (over, (at', k')) = drained log s n tracks refl (omega (arith, tracks.ring.room)) in
      let s' = act_all log s (runs n) in
      let joined : join log s ≡ some s' = ap (λ c. if is_returned c then some s' else none) over in
      (
        record { running = false; relay = s' },
        ap (λ (o : Option (Relay L)). o >>= λ s. some (record { running = false; relay = s }))
            joined,
        (
          record {
            at = at';
            done = k.done ++ k.waiting;
            waiting = [];
            tracks = spawn-Tracks s' k';
            all = append-nil (k.done ++ k.waiting) ∙ k.all;
            live = over;
          },
          refl,
          k'.logged ∙ ap (log_all log first) k.all,
        ),
      )

  stop-Stopped :
      (first : L) (sent : List TelemetryEvent) (r : EventRelay L)
      → Logs first sent r
      → Returns (stop log r) (Stopped first sent r)
  unfolding stop
  stop-Stopped first sent r k = elim (Bool-cases r.running) [
    | inl e ↦
        let (r', ran, (k', off, all)) = stop_running-Stopped first sent r e k in
        (r', rw (e, ran) refl, (k', off, rw e all))
    | inr e ↦ (r, rw e refl, (k, e, rw e refl))
  ]

  serve-Logs :
      (first : L) (r : EventRelay L) (sent : List TelemetryEvent) (c : Call)
      → Logs first sent r
      → Returns (serve log r sent c) λ o. Logs first o.1 o.0
  serve-Logs first r sent call_start k =
      ((start r, sent), refl, start-Logs first sent r r.running refl k)
  serve-Logs first r sent call_stop k =
      let (r', ran, (k', _, _)) = stop-Stopped first sent r k in ((r', sent), rw ran refl, k')
  serve-Logs first r sent thread_step k = (
    (record r { relay = run_step log r.relay.phase r.relay }, sent),
    refl,
    step-Logs first sent r.running r.relay k,
  )
  serve-Logs first r sent (produce e) k = (send r sent e, refl, send-Logs first sent r e k)

  serve_all-Logs :
      (first : L) (calls : List Call) (r : EventRelay L) (sent : List TelemetryEvent)
      → Logs first sent r
      → Returns (serve_all log r sent calls) λ o. Logs first o.1 o.0
  unfolding serve_all
  serve_all-Logs first [] r sent k = ((r, sent), refl, k)
  serve_all-Logs first (c ∷ rest) r sent k =
      let ((r₁, sent₁), ran, k₁) = serve-Logs first r sent c k in
      let (o, ran', k') = serve_all-Logs first rest r₁ sent₁ k₁ in (o, rw ran ran', k')

  -- From a new relay on, any sequence of `Start`, `Stop`, pushes and steps of the thread ends: no join
  -- waits for ever, as nothing is pushed while `Stop` waits. What is logged, followed by what is in the
  -- ring, is what the ring accepted, in order. One more `Stop` ends too, with the relay not running; if it
  -- was running, all accepted events are logged, and otherwise nothing has changed.
  pub serve_all-Stopped :
      (q : Ring TelemetryEvent) (at : ℕ) (first : L) (calls : List Call)
      → IsRing q at []
      → Returns
          (serve_all log (new_relay q first) [] calls)
          λ o. Logs first o.1 o.0 × Returns (stop log o.0) (Stopped first o.1 o.0)
  serve_all-Stopped q at first calls r =
      let start : Logs first [] (new_relay q first) = record {
        at = at;
        done = [];
        waiting = [];
        tracks = record { ring = r; logged = refl; counted = omega arith; closed = tt };
        all = refl;
        live = refl;
      } in
      let ((r', sent), ran, k) = serve_all-Logs first calls (new_relay q first) [] start in
      ((r', sent), ran, (k, stop-Stopped first sent r' k))
