-- ===== src/Core/Order.antt =====
-- cpp/core/order_book.hpp: the plain types of the book, and the memory that its orders lie in.
use optimal_execution_platfo.Common.{ℕ, Option, none, some, update}
use optimal_execution_platfo.Common.Int.{ℤ}
use optimal_execution_platfo.Core.Slab.{Slot, link, live}

pub data Side : Type 0 where
  buy sell : Side

pub record Fill : Type 0 where
  pub maker_id : ℕ
  pub taker_id : ℕ
  pub price : ℤ
  pub qty : ℕ
  pub taker_side : Side

-- `prev` and `next` are `Order*`, the index of a slab slot.
pub record Order : Type 0 where
  pub id : ℕ
  pub price : ℤ
  pub qty : ℕ
  pub side : Side
  pub prev : Option ℕ
  pub next : Option ℕ

-- What an order says, apart from its links; `OnCancel` is called on these four fields.
pub record Resting : Type 0 where
  pub id : ℕ
  pub price : ℤ
  pub qty : ℕ
  pub side : Side

abbrev pub order_of : Resting → Option ℕ → Option ℕ → Order
order_of r prev next = record {
  id = r.id;
  price = r.price;
  qty = r.qty;
  side = r.side;
  prev = prev;
  next = next;
}

-- The storage of the slab.
abbrev pub Memory : Type 0
Memory = ℕ → Slot Order

-- `*o`; reading a slot that holds no order is a fault.
abbrev pub as_order : Slot Order → Option Order
as_order (link next) = none
as_order (live o) = some o

abbrev pub load : Memory → ℕ → Option Order
load mem p = as_order (mem p)

abbrev pub store : Memory → ℕ → Order → Memory
store mem p o = update mem p (live o)
