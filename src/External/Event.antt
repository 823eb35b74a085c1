-- ===== src/External/Event.antt =====
-- cpp/external/kdb_logger.hpp: the event that the internal clock puts into the ring.
use optimal_execution_platfo.Common.{ℕ}
use optimal_execution_platfo.Common.Int.{ℤ}
use optimal_execution_platfo.Core.Order.{Side, Fill}

pub data TelemetryEventType : Type 0 where
  fill cancel ack : TelemetryEventType

pub record TelemetryEvent : Type 0 where
  pub type : TelemetryEventType
  pub side : Side
  pub sequence : ℕ
  pub timestamp_ns : ℕ
  pub order_id : ℕ
  pub counter_id : ℕ
  pub price : ℤ
  pub qty : ℕ

-- `TelemetryEvent::Fill`
abbrev pub fill_event : ℕ → ℕ → Fill → TelemetryEvent
fill_event sequence timestamp_ns f = record {
  type = fill;
  side = f.taker_side;
  sequence = sequence;
  timestamp_ns = timestamp_ns;
  order_id = f.taker_id;
  counter_id = f.maker_id;
  price = f.price;
  qty = f.qty;
}

-- `TelemetryEvent::Cancel`
abbrev pub cancel_event : ℕ → ℕ → ℕ → Side → ℤ → ℕ → TelemetryEvent
cancel_event sequence timestamp_ns id side price residual = record {
  type = cancel;
  side = side;
  sequence = sequence;
  timestamp_ns = timestamp_ns;
  order_id = id;
  counter_id = 0;
  price = price;
  qty = residual;
}

-- `TelemetryEvent::Ack`
abbrev pub ack_event : ℕ → ℕ → ℕ → Side → ℤ → ℕ → TelemetryEvent
ack_event sequence timestamp_ns id side price qty = record {
  type = ack;
  side = side;
  sequence = sequence;
  timestamp_ns = timestamp_ns;
  order_id = id;
  counter_id = 0;
  price = price;
  qty = qty;
}
