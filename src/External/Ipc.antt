-- ===== src/External/Ipc.antt =====
-- cpp/external/ipc_kdb_logger.cpp: `IpcKdbLogger`, which batches the telemetry by columns and sends a batch
-- as one frame. The kdb+ client is not part of the program: what `khpu` and `k` answer is an argument of
-- the call. A read of a batch beyond its end is `none`. The mutex makes each call one step.
pub mod Tape
pub mod Retry
mod Tests
use optimal_execution_platfo.Common.{
  ℕ, zero, suc, ◌+◌, ◌-◌, ◌^◌, Option, none, some, Bool, true, false, ltb, ◌==◌, if◌then◌else◌,
  ◌>>=◌, add64, u64_mod, List, [], ◌∷◌, ◌++◌, length,
}
use optimal_execution_platfo.Common.Int.{ℤ, pos, negsuc, ltb_ℤ, eqb_ℤ}
use optimal_execution_platfo.External.Event.{TelemetryEvent}
use optimal_execution_platfo.External.Logger.{Bytes, telemetry_event_type_name, side_name}

-- `static_cast<std::int64_t>` of a 64-bit word.
abbrev pub signed : ℕ → ℤ
signed n = if ltb n (2 ^ 63) then pos n else negsuc (u64_mod - 1 - n)

-- One value for each column: the columns of a batch, or of a frame.
pub record Columns : Type 0 where
  pub type_batch : List Bytes
  pub seq_batch : List ℤ
  pub ts_ns_batch : List ℤ
  pub order_id_batch : List ℤ
  pub counter_id_batch : List ℤ
  pub price_batch : List ℤ
  pub qty_batch : List ℤ
  pub side_batch : List Bytes

-- The members of `IpcKdbLogger` that change; a handle above 0 is an open socket.
pub record IpcKdbLogger : Type 0 where
  pub handle : ℤ
  pub batch : Columns
  pub sent_frames : ℕ
  pub send_failures : ℕ

abbrev pub empty_columns : Columns
empty_columns = record {
  type_batch = [];
  seq_batch = [];
  ts_ns_batch = [];
  order_id_batch = [];
  counter_id_batch = [];
  price_batch = [];
  qty_batch = [];
  side_batch = [];
}

abbrev pub new_ipc : IpcKdbLogger
new_ipc = record { handle = pos 0; batch = empty_columns; sent_frames = 0; send_failures = 0 }

-- `connected`
abbrev pub is_connected : IpcKdbLogger → Bool
is_connected l = ltb_ℤ (pos 0) l.handle

-- `Connect`, where `khpu` would answer `h`.
unfoldable pub connect : IpcKdbLogger → (h : ℤ) → Bool × IpcKdbLogger
connect l h =
    if is_connected l
    then (true, l)
    else if ltb_ℤ (pos 0) h
    then (true, record l { handle = h })
    else (false, record l { handle = pos 0 })

-- `Disconnect`
unfoldable pub disconnect : IpcKdbLogger → IpcKdbLogger
disconnect l = if is_connected l then record l { handle = pos 0 } else l

-- `Log`
unfoldable pub log_event : IpcKdbLogger → TelemetryEvent → IpcKdbLogger
log_event l e =
    let c = l.batch in
    record l {
      batch = record {
        type_batch = c.type_batch ++ telemetry_event_type_name e.type ∷ [];
        seq_batch = c.seq_batch ++ signed e.sequence ∷ [];
        ts_ns_batch = c.ts_ns_batch ++ signed e.timestamp_ns ∷ [];
        order_id_batch = c.order_id_batch ++ signed e.order_id ∷ [];
        counter_id_batch = c.counter_id_batch ++ signed e.counter_id ∷ [];
        price_batch = c.price_batch ++ e.price ∷ [];
        qty_batch = c.qty_batch ++ signed e.qty ∷ [];
        side_batch = c.side_batch ++ side_name e.side ∷ [];
      };
    }

-- The first `n` elements of a batch, as the loop of `SendBatchLocked` copies them.
unfoldable pub copy_column {ℓ} : {A : Type ℓ} → ℕ → List A → Option (List A)
copy_column zero xs = some []
copy_column (suc n) [] = none
copy_column (suc n) (x ∷ xs) = do rest ← copy_column n xs; some (x ∷ rest)

-- The columns that `SendBatchLocked` fills, each with as many values as `seq_batch_` has.
unfoldable pub build_frame : Columns → Option Columns
build_frame c = do
  let n = length c.seq_batch
  types ← copy_column n c.type_batch
  seqs ← copy_column n c.seq_batch
  stamps ← copy_column n c.ts_ns_batch
  orders ← copy_column n c.order_id_batch
  counters ← copy_column n c.counter_id_batch
  prices ← copy_column n c.price_batch
  qtys ← copy_column n c.qty_batch
  sides ← copy_column n c.side_batch
  some (record {
    type_batch = types;
    seq_batch = seqs;
    ts_ns_batch = stamps;
    order_id_batch = orders;
    counter_id_batch = counters;
    price_batch = prices;
    qty_batch = qtys;
    side_batch = sides;
  })

-- Whether `SendBatchLocked` returns true, when `k` answers null or an object of this type.
abbrev pub is_sent : Option ℤ → Bool
is_sent none = true
is_sent (some t) = if eqb_ℤ t (negsuc 127) then false else true

-- The end of `Flush`, with the frame if it was sent.
abbrev pub settle_flush : IpcKdbLogger → Columns → (sent : Bool) → IpcKdbLogger × List Columns
settle_flush l frame true =
    (record l { batch = empty_columns; sent_frames = add64 l.sent_frames 1 }, frame ∷ [])
settle_flush l frame false =
    (record l { handle = pos 0; send_failures = add64 l.send_failures 1 }, [])

-- `Flush`, where `k` would answer `reply`: the logger after it, and the frames that were sent.
unfoldable pub flush : IpcKdbLogger → (reply : Option ℤ) → Option (IpcKdbLogger × List Columns)
flush l reply =
    if length l.batch.seq_batch == 0
    then some (l, [])
    else if is_connected l
    then (do frame ← build_frame l.batch; some (settle_flush l frame (is_sent reply)))
    else some (l, [])

-- The destructor
abbrev pub shut_down : IpcKdbLogger → (reply : Option ℤ) → Option (IpcKdbLogger × List Columns)
shut_down l reply = do (l', sent) ← flush l reply; some (disconnect l', sent)

pub data Call : Type 0 where
  log : TelemetryEvent → Call
  flush_call : (reply : Option ℤ) → Call
  connect_call : (h : ℤ) → Call
  disconnect_call : Call

abbrev pub serve : IpcKdbLogger → Call → Option (IpcKdbLogger × List Columns)
serve l (log e) = some (log_event l e, [])
serve l (flush_call reply) = flush l reply
serve l (connect_call h) = some ((connect l h).1, [])
serve l disconnect_call = some (disconnect l, [])

-- Any sequence of calls, with the frames that were sent.
unfoldable pub serve_all : IpcKdbLogger → List Call → Option (IpcKdbLogger × List Columns)
serve_all l [] = some (l, [])
serve_all l (c ∷ cs) = do
  (l', sent) ← serve l c
  (l'', later) ← serve_all l' cs
  some (l'', sent ++ later)
