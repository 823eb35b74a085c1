-- ===== src/External/Logger/Tests.antt =====
-- A row of the tape.
use optimal_execution_platfo.Common.{◌≡◌, refl, some}
use optimal_execution_platfo.Common.Int.{negsuc}
use optimal_execution_platfo.Core.Order.{sell}
use optimal_execution_platfo.External.Event.{cancel, TelemetryEvent}
use optimal_execution_platfo.External.Logger.{
  codes, digits_from, format_csv_row, new_in_memory, log_row, flush_rows, row_count,
}
use optimal_execution_platfo.External.Logger.RoundTrip.{parse_csv_row, parse_csv_row-format_csv_row}

abbrev event : TelemetryEvent
event = record {
  type = cancel;
  side = sell;
  sequence = 0;
  timestamp_ns = 18446744073709551615;
  order_id = 41;
  counter_id = 0;
  price = negsuc 6;
  qty = 250;
}

row_test : format_csv_row event ≡ codes "CANCEL,0,18446744073709551615,41,0,-7,250,SELL"
unfolding format_csv_row digits_from
row_test = refl

logger_test : row_count (flush_rows (log_row (log_row new_in_memory event) event)) ≡ 2
unfolding log_row
logger_test = refl

parse_csv_row-format_csv_row_example : parse_csv_row (format_csv_row event) ≡ some event
parse_csv_row-format_csv_row_example = parse_csv_row-format_csv_row event
