-- ===== src/External/Ipc/Tape.antt =====
-- Nothing that is logged is lost or sent twice.
use mathlib.Core.List.{map-append}
use optimal_execution_platfo.Common.{
  append-nil, append_assoc, ℕ, suc, ◌+◌, ◌%◌, ◌<◌, ◌≡◌, refl, sym, ap, ◌∙◌, inl, inr, arith, Option,
  some, Bool, true, false, ◌==◌, u64_mod, List, [], ◌∷◌, ◌++◌, map, length, length-append, Returns,
  Bool-cases,
}
use optimal_execution_platfo.Common.Int.{ℤ}
use optimal_execution_platfo.External.Event.{TelemetryEvent}
use optimal_execution_platfo.External.Logger.{telemetry_event_type_name, side_name}
use optimal_execution_platfo.External.Ipc.{
  signed, Columns, IpcKdbLogger, new_ipc, is_connected, connect, disconnect, log_event, copy_column,
  build_frame, is_sent, settle_flush, flush, Call, log, flush_call, connect_call, disconnect_call,
  serve, serve_all,
}

-- The columns of these events.
abbrev pub columns_of : List TelemetryEvent → Columns
columns_of es = record {
  type_batch = map (λ (e : TelemetryEvent). telemetry_event_type_name e.type) es;
  seq_batch = map (λ (e : TelemetryEvent). signed e.sequence) es;
  ts_ns_batch = map (λ (e : TelemetryEvent). signed e.timestamp_ns) es;
  order_id_batch = map (λ (e : TelemetryEvent). signed e.order_id) es;
  counter_id_batch = map (λ (e : TelemetryEvent). signed e.counter_id) es;
  price_batch = map (λ (e : TelemetryEvent). e.price) es;
  qty_batch = map (λ (e : TelemetryEvent). signed e.qty) es;
  side_batch = map (λ (e : TelemetryEvent). side_name e.side) es;
}

length-map {ℓ κ} :
    {A : Type ℓ} {B : Type κ} (f : A → B) (xs : List A) → length (map f xs) ≡ length xs
length-map f [] = refl
length-map f (x ∷ xs) = ap suc (length-map f xs)

copy_column-map {ℓ κ} :
    {A : Type ℓ} {B : Type κ} (f : A → B) (xs : List A)
    → copy_column (length xs) (map f xs) ≡ some (map f xs)
unfolding copy_column
copy_column-map f [] = refl
copy_column-map f (x ∷ xs) = rw (copy_column-map f xs)

pub build_frame-columns_of :
    (es : List TelemetryEvent) → build_frame (columns_of es) ≡ some (columns_of es)
unfolding build_frame
build_frame-columns_of es = simp (length-map, copy_column-map)

pub size-columns_of : (es : List TelemetryEvent) → length (columns_of es).seq_batch ≡ length es
size-columns_of es = length-map (λ (e : TelemetryEvent). signed e.sequence) es

columns_of-append :
    (l : IpcKdbLogger) (es : List TelemetryEvent) (e : TelemetryEvent)
    → l.batch ≡ columns_of es
    → (log_event l e).batch ≡ columns_of (es ++ e ∷ [])
unfolding log_event
columns_of-append l es e h = rw h (simp (map-append))

abbrev pub flatten : List (List TelemetryEvent) → List TelemetryEvent
flatten [] = []
flatten (g ∷ gs) = g ++ flatten gs

abbrev pub NoneEmpty : List (List TelemetryEvent) → Type 0
NoneEmpty [] = Unit
NoneEmpty (g ∷ gs) = (0 < length g) × NoneEmpty gs

-- `es` was pending, `new` was logged, and `n` frames were sent before: each of the frames that were sent
-- holds the columns of a group of events, and the groups and what is pending now are all of the events.
abbrev pub Taped : (n : ℕ) (es new : List TelemetryEvent) → IpcKdbLogger × List Columns → Type 0
Taped n es new (l, sent) =
    (groups : List (List TelemetryEvent)) × (rest : List TelemetryEvent) × (sent
      ≡ map columns_of groups)
    × (l.batch ≡ columns_of rest)
    × (flatten groups ++ rest ≡ es ++ new)
    × NoneEmpty groups
    × (l.sent_frames ≡ (n + length groups) % u64_mod)

flatten-append :
    (gs hs : List (List TelemetryEvent)) → flatten (gs ++ hs) ≡ flatten gs ++ flatten hs
flatten-append [] hs = refl
flatten-append (g ∷ gs) hs =
    ap (λ t. g ++ t) (flatten-append gs hs) ∙ sym (append_assoc g (flatten gs) (flatten hs))

NoneEmpty-append :
    (gs hs : List (List TelemetryEvent)) → NoneEmpty gs → NoneEmpty hs → NoneEmpty (gs ++ hs)
NoneEmpty-append [] hs a b = b
NoneEmpty-append (g ∷ gs) hs (full, a) b = (full, NoneEmpty-append gs hs a b)

module _ (l : IpcKdbLogger) (n : ℕ) (es : List TelemetryEvent) (pending : l.batch ≡ columns_of es)
    (counted : l.sent_frames ≡ n % u64_mod) where
  -- A call that sends nothing and keeps the batch.
  kept-Taped :
      (l' : IpcKdbLogger)
      → l'.batch ≡ l.batch
      → l'.sent_frames ≡ l.sent_frames
      → Taped n es [] (l', [])
  kept-Taped l' same count = (
    [],
    es,
    refl,
    same ∙ pending,
    sym (append-nil es),
    tt,
    count ∙ counted ∙ ap (λ m. m % u64_mod) (omega arith),
  )

  settle_flush-Taped :
      0 < length es → (sent : Bool) → Taped n es [] (settle_flush l (columns_of es) sent)
  settle_flush-Taped some_ true =
      (es ∷ [], [], refl, refl, append-nil (es ++ []), (some_, tt), omega arith)
  settle_flush-Taped some_ false = kept-Taped (settle_flush l (columns_of es) false).0 refl refl

  flush-Taped : (reply : Option ℤ) → Returns (flush l reply) (Taped n es [])
  unfolding flush
  flush-Taped reply =
      let size : length l.batch.seq_batch ≡ length es =
        ap (λ (c : Columns). length c.seq_batch) pending ∙ size-columns_of es in
      let build : build_frame l.batch ≡ some (columns_of es) =
        ap build_frame pending ∙ build_frame-columns_of es in
      elim (Bool-cases (length l.batch.seq_batch == 0)) [
        | inl e ↦ ((l, []), rw e, kept-Taped l refl refl)
        | inr e ↦ elim (Bool-cases (is_connected l)) [
          | inl c ↦ (
            settle_flush l (columns_of es) (is_sent reply),
            rw (e, c, build),
            settle_flush-Taped (ground (arith, size)) (is_sent reply),
          )
          | inr c ↦ ((l, []), rw (e, c), kept-Taped l refl refl)
        ]
      ]

  connect_keeps :
      (h : ℤ) → ((connect l h).1.batch ≡ l.batch) × ((connect l h).1.sent_frames ≡ l.sent_frames)
  unfolding connect
  connect_keeps h = ground arith

  disconnect_keeps : ((disconnect l).batch ≡ l.batch) × ((disconnect l).sent_frames ≡ l.sent_frames)
  unfolding disconnect
  disconnect_keeps = ground arith

-- The events of a call, and of a sequence of calls.
abbrev pub logged_one : Call → List TelemetryEvent
logged_one (log e) = e ∷ []
logged_one (flush_call reply) = []
logged_one (connect_call h) = []
logged_one disconnect_call = []

abbrev pub logged : List Call → List TelemetryEvent
logged [] = []
logged (c ∷ cs) = logged_one c ++ logged cs

serve-Taped :
    (l : IpcKdbLogger) (n : ℕ) (es : List TelemetryEvent) (c : Call)
    → l.batch ≡ columns_of es
    → l.sent_frames ≡ n % u64_mod
    → Returns (serve l c) (Taped n es (logged_one c))
serve-Taped l n es (log e) pending counted = (
  (log_event l e, []),
  refl,
  (
    [],
    es ++ e ∷ [],
    refl,
    columns_of-append l es e pending,
    refl,
    tt,
    unfold log_event in (counted ∙ ap (λ m. m % u64_mod) (omega arith)),
  ),
)
serve-Taped l n es (flush_call reply) pending counted = flush-Taped l n es pending counted reply
serve-Taped l n es (connect_call h) pending counted =
    let (same, count) = connect_keeps l n es pending counted h in
    (_, refl, kept-Taped l n es pending counted (connect l h).1 same count)
serve-Taped l n es disconnect_call pending counted =
    let (same, count) = disconnect_keeps l n es pending counted in
    (_, refl, kept-Taped l n es pending counted (disconnect l) same count)

serve_all-step :
    (l l' l'' : IpcKdbLogger) (c : Call) (cs : List Call) (sent later : List Columns)
    → serve l c ≡ some (l', sent)
    → serve_all l' cs ≡ some (l'', later)
    → serve_all l (c ∷ cs) ≡ some (l'', sent ++ later)
unfolding serve_all
serve_all-step l l' l'' c cs sent later e₀ e₁ = rw (e₀, e₁)

serve_all-Taped :
    (cs : List Call) (l : IpcKdbLogger) (n : ℕ) (es : List TelemetryEvent)
    → l.batch ≡ columns_of es
    → l.sent_frames ≡ n % u64_mod
    → Returns (serve_all l cs) (Taped n es (logged cs))
unfolding serve_all
serve_all-Taped [] l n es pending counted =
    ((l, []), refl, kept-Taped l n es pending counted l refl refl)
serve_all-Taped (c ∷ cs) l n es pending counted =
    let ((l', sent), run, (gs, rest, e₀, pending', kept, full, counted')) =
      serve-Taped l n es c pending counted in
    let ((l'', later), run', (gs', rest', e₀', pending'', kept', full', counted'')) =
      serve_all-Taped cs l' (n + length gs) rest pending' counted' in
    (
      (l'', sent ++ later),
      serve_all-step l l' l'' c cs sent later run run',
      (
        gs ++ gs',
        rest',
        rw (e₀, e₀') (simp (map-append)),
        pending'',
        ap (λ t. t ++ rest') (flatten-append gs gs')
            ∙ append_assoc (flatten gs) (flatten gs') rest'
            ∙ ap (λ t. flatten gs ++ t) kept'
            ∙ sym (append_assoc (flatten gs) rest (logged cs))
            ∙ ap (λ t. t ++ logged cs) kept
            ∙ append_assoc es (logged_one c) (logged cs),
        NoneEmpty-append gs gs' full full',
        counted'' ∙ ap (λ m. m % u64_mod) (omega (arith, length-append gs gs')),
      ),
    )

-- However `Log`, `Flush`, `Connect` and `Disconnect` follow one another on a new logger, and whatever the
-- kdb+ client answers, no batch is read beyond its end; each frame that was sent holds the eight columns of
-- one or more events; the events of the frames, followed by those still pending, are the logged events,
-- each once and in their order; and `sent_frames_` counts the frames modulo 2^64.
pub new_ipc-Taped : (cs : List Call) → Returns (serve_all new_ipc cs) (Taped 0 [] (logged cs))
new_ipc-Taped cs = serve_all-Taped cs new_ipc 0 [] refl refl
