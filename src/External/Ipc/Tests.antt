-- ===== src/External/Ipc/Tests.antt =====
-- A logger that loses its socket once.
use optimal_execution_platfo.Common.{◌≡◌, refl, arith, none, some, List, [], ◌∷◌, Returns}
use optimal_execution_platfo.Common.Int.{pos, negsuc}
use optimal_execution_platfo.Core.Order.{buy}
use optimal_execution_platfo.External.Event.{TelemetryEvent, ack_event, cancel_event}
use optimal_execution_platfo.External.Ipc.{
  IpcKdbLogger, empty_columns, new_ipc, log_event, connect, disconnect, copy_column, build_frame,
  flush, shut_down, Call, log, flush_call, connect_call, disconnect_call, serve_all,
}
use optimal_execution_platfo.External.Ipc.Tape.{columns_of, Taped, logged, new_ipc-Taped}
use optimal_execution_platfo.External.Ipc.Retry.{flush_retried}

abbrev first : TelemetryEvent
first = ack_event 0 1000 41 buy (pos 100) 5

abbrev second : TelemetryEvent
second = cancel_event 18446744073709551615 2000 41 buy (pos 100) 2

-- A flush without a socket waits; the first flush after the connection fails and closes it.
abbrev calls : List Call
calls =
    log first
    ∷ flush_call none
    ∷ connect_call (pos 6)
    ∷ flush_call (some (negsuc 127))
    ∷ log second
    ∷ connect_call (negsuc 0)
    ∷ connect_call (pos 7)
    ∷ flush_call none
    ∷ disconnect_call
    ∷ []

calls_test :
    serve_all new_ipc calls
    ≡ some (
      record { handle = pos 0; batch = empty_columns; sent_frames = 1; send_failures = 1 },
      columns_of (first ∷ second ∷ []) ∷ [],
    )
unfolding serve_all log_event flush connect disconnect build_frame copy_column
calls_test = refl

new_ipc-Taped_example : Returns (serve_all new_ipc calls) (Taped 0 [] (logged calls))
new_ipc-Taped_example = new_ipc-Taped calls

abbrev busy : IpcKdbLogger
busy = record {
  handle = pos 6;
  batch = columns_of (first ∷ second ∷ []);
  sent_frames = 18446744073709551615;
  send_failures = 0;
}

flush_retried_example :
    serve_all busy (
      flush_call (some (negsuc 127))
      ∷ flush_call none
      ∷ connect_call (pos 7)
      ∷ flush_call (some (pos 0))
      ∷ [])
    ≡ some (
      record { handle = pos 7; batch = empty_columns; sent_frames = 0; send_failures = 1 },
      columns_of (first ∷ second ∷ []) ∷ [],
    )
flush_retried_example =
    flush_retried busy (first ∷ second ∷ []) (some (negsuc 127)) none (some (pos 0)) (pos 7) refl
      (omega arith) refl refl refl refl

-- The destructor sends what is pending.
shut_down_test :
    shut_down busy none
    ≡ some (
      record { handle = pos 0; batch = empty_columns; sent_frames = 0; send_failures = 0 },
      columns_of (first ∷ second ∷ []) ∷ [],
    )
unfolding flush disconnect build_frame copy_column
shut_down_test = refl
