-- ===== src/External/Logger.antt =====
-- cpp/external/kdb_logger.hpp: the tape of the telemetry, one CSV row for each event, and
-- `InMemoryKdbLogger`. A text is the list of its bytes. The mutex makes each call one step.
pub mod RoundTrip
mod Tests
use Prim.Native.Char.{code}
use Prim.Native.String.{String}
use optimal_execution_platfo.Common.{
  ℕ, zero, suc, ◌+◌, ◌/◌, ◌%◌, ltb, if◌then◌else◌, List, [], ◌∷◌, ◌++◌, length,
}
use optimal_execution_platfo.Common.Int.{ℤ, pos, negsuc}
use optimal_execution_platfo.Core.Order.{Side, buy, sell}
use optimal_execution_platfo.External.Event.{TelemetryEventType, fill, cancel, ack, TelemetryEvent}

abbrev pub Bytes : Type 0
Bytes = List ℕ

abbrev pub codes : String → Bytes
codes String.[] = []
codes (String.◌∷◌ c s) = code c ∷ codes s

-- `TelemetryEventTypeName`
abbrev pub telemetry_event_type_name : TelemetryEventType → Bytes
telemetry_event_type_name fill = codes "FILL"
telemetry_event_type_name cancel = codes "CANCEL"
telemetry_event_type_name ack = codes "ACK"

-- `SideName`
abbrev pub side_name : Side → Bytes
side_name buy = codes "BUY"
side_name sell = codes "SELL"

-- `oss << n`: the digits of `n` before `out`; a number has at most as many digits as its value plus one.
unfoldable pub digits_from : (fuel n : ℕ) → Bytes → Bytes
digits_from zero n out = out
digits_from (suc f) n out =
    let more = digits_from f (n / 10) ((b'0' + n % 10) ∷ out) in
    if ltb n 10 then (b'0' + n) ∷ out else more

abbrev pub put_number : ℕ → Bytes → Bytes
put_number n out = digits_from (suc n) n out

abbrev pub put_price : ℤ → Bytes → Bytes
put_price (pos n) out = put_number n out
put_price (negsuc n) out = b'-' ∷ put_number (suc n) out

-- `FormatCsvRow`, written from its last field back to its first.
unfoldable pub format_csv_row : TelemetryEvent → Bytes
format_csv_row e =
    telemetry_event_type_name e.type
    ++ b','
      ∷ put_number e.sequence (
          b','
          ∷ put_number e.timestamp_ns (
              b','
              ∷ put_number e.order_id (
                  b','
                  ∷ put_number e.counter_id (
                      b','
                      ∷ put_price e.price (b',' ∷ put_number e.qty (b',' ∷ side_name e.side))))))

pub record InMemoryKdbLogger : Type 0 where
  pub rows : List Bytes
  pub flush_count : ℕ

abbrev pub new_in_memory : InMemoryKdbLogger
new_in_memory = record { rows = []; flush_count = 0 }

-- `InMemoryKdbLogger::Log`
unfoldable pub log_row : InMemoryKdbLogger → TelemetryEvent → InMemoryKdbLogger
log_row l e = record l { rows = l.rows ++ format_csv_row e ∷ [] }

-- `InMemoryKdbLogger::Flush`
abbrev pub flush_rows : InMemoryKdbLogger → InMemoryKdbLogger
flush_rows l = record l { flush_count = l.flush_count + 1 }

-- `InMemoryKdbLogger::size`
abbrev pub row_count : InMemoryKdbLogger → ℕ
row_count l = length l.rows
