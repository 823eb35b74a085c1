-- ===== src/External/Ipc/Retry.antt =====
-- A frame that could not be sent is not lost.
use optimal_execution_platfo.Common.{
  append-nil, ◌<◌, ◌≡◌, ap, ◌∙◌, arith, Option, some, true, false, ◌==◌, add64, List, [], ◌∷◌,
  length, refl,
}
use optimal_execution_platfo.Common.Int.{ℤ, pos, ltb_ℤ}
use optimal_execution_platfo.External.Event.{TelemetryEvent}
use optimal_execution_platfo.External.Ipc.{
  Columns, IpcKdbLogger, empty_columns, is_connected, connect, build_frame, is_sent, settle_flush,
  flush, flush_call, connect_call, serve_all,
}
use optimal_execution_platfo.External.Ipc.Tape.{columns_of, build_frame-columns_of, size-columns_of}

-- A pending batch on an open socket goes to the client as one frame.
flush_open :
    (l : IpcKdbLogger) (es : List TelemetryEvent) (reply : Option ℤ)
    → l.batch ≡ columns_of es
    → 0 < length es
    → is_connected l ≡ true
    → flush l reply ≡ some (settle_flush l (columns_of es) (is_sent reply))
unfolding flush
flush_open l es reply pending full open_ =
    let size : length l.batch.seq_batch ≡ length es =
      ap (λ (c : Columns). length c.seq_batch) pending ∙ size-columns_of es in
    let build : build_frame l.batch ≡ some (columns_of es) =
      ap build_frame pending ∙ build_frame-columns_of es in
    let test : (length l.batch.seq_batch == 0) ≡ false = ground (arith, size) in
    rw (test, open_, build)

flush_closed :
    (l : IpcKdbLogger) (reply : Option ℤ) → is_connected l ≡ false → flush l reply ≡ some (l, [])
unfolding flush
flush_closed l reply shut = rw shut (ground arith)

connect_closed :
    (l : IpcKdbLogger) (h : ℤ)
    → is_connected l ≡ false
    → ltb_ℤ (pos 0) h ≡ true
    → connect l h ≡ (true, record l { handle = h })
unfolding connect
connect_closed l h shut up = rw (shut, up)

serve_four :
    (l a b c d : IpcKdbLogger) (r₀ r₁ r₂ : Option ℤ) (h : ℤ) (sent : List Columns)
    → flush l r₀ ≡ some (a, [])
    → flush a r₁ ≡ some (b, [])
    → connect b h ≡ (true, c)
    → flush c r₂ ≡ some (d, sent)
    → serve_all l (flush_call r₀ ∷ flush_call r₁ ∷ connect_call h ∷ flush_call r₂ ∷ [])
      ≡ some (d, sent)
unfolding serve_all
serve_four l a b c d r₀ r₁ r₂ h sent e₀ e₁ e₂ e₃ =
    rw (e₀, e₁, e₂, e₃) (ap (λ t. some (d, t)) (append-nil sent))

-- While a batch is pending and the socket is open: a flush that the client reports as failed closes the
-- socket, counts a failure and keeps the batch; a flush on the closed socket changes nothing; and after a
-- `Connect` that opens a socket, the next successful flush sends the whole batch as one frame, leaves the
-- batch empty and counts the frame.
pub flush_retried :
    (l : IpcKdbLogger) (es : List TelemetryEvent) (failed between sent : Option ℤ) (h : ℤ)
    → l.batch ≡ columns_of es
    → 0 < length es
    → is_connected l ≡ true
    → is_sent failed ≡ false
    → ltb_ℤ (pos 0) h ≡ true
    → is_sent sent ≡ true
    → serve_all l (flush_call failed ∷ flush_call between ∷ connect_call h ∷ flush_call sent ∷ [])
      ≡ some (
        record {
          handle = h;
          batch = empty_columns;
          sent_frames = add64 l.sent_frames 1;
          send_failures = add64 l.send_failures 1;
        },
        columns_of es ∷ [],
      )
flush_retried l es failed between sent h pending full up refused again accepted =
    let a = record l { handle = pos 0; send_failures = add64 l.send_failures 1 } in
    let c = record a { handle = h } in
    serve_four l a a c _ failed between sent h (columns_of es ∷ [])
      (flush_open l es failed pending full up ∙ rw refused refl) (flush_closed a between refl)
      (connect_closed a h refl again) (flush_open c es sent pending full again ∙ rw accepted refl)
