-- ===== src/Core/Level.antt =====
-- cpp/core/order_book.hpp: `LevelFIFO`, the intrusive doubly linked queue at one price.
pub mod Segment
pub mod Queue
mod Tests
use optimal_execution_platfo.Common.{
  ℕ, ◌+◌, ◌-◌, ◌%◌, ◌^◌, Option, none, some, Bool, true, false, add64, sub64, ◌>>=◌,
}
use optimal_execution_platfo.Core.Order.{Order, Memory, load, store}

pub record LevelFifo : Type 0 where
  pub head : Option ℕ
  pub tail : Option ℕ
  pub total_qty : ℕ
  pub order_count : ℕ

abbrev pub no_level : LevelFifo
no_level = record { head = none; tail = none; total_qty = 0; order_count = 0 }

-- `LevelFIFO::empty`
abbrev pub is_empty : LevelFifo → Bool
is_empty lvl = elim lvl.head [ none ↦ true | some o ↦ false ]

-- `++order_count` and `--order_count` on a 32-bit word
abbrev pub inc32 : ℕ → ℕ
inc32 n = (n + 1) % 2 ^ 32

abbrev pub dec32 : ℕ → ℕ
dec32 n = (n + 2 ^ 32 - 1) % 2 ^ 32

-- `p->next = v` and `p->prev = v`
unfoldable pub set_next : Memory → ℕ → Option ℕ → Option Memory
set_next mem p v = do o ← load mem p; some (store mem p (record o { next = v }))

unfoldable pub set_prev : Memory → ℕ → Option ℕ → Option Memory
set_prev mem p v = do o ← load mem p; some (store mem p (record o { prev = v }))

-- The first test of `UnlinkFromLevel`: what stood before the order leads past it.
unfoldable pub bypass_before :
    Memory → LevelFifo → (prev next : Option ℕ) → Option (Memory × LevelFifo)
bypass_before mem lvl none next = some (mem, record lvl { head = next })
bypass_before mem lvl (some before) next = do mem ← set_next mem before next; some (mem, lvl)

-- Its second test, for what stood after the order.
unfoldable pub bypass_after :
    Memory → LevelFifo → (prev next : Option ℕ) → Option (Memory × LevelFifo)
bypass_after mem lvl prev none = some (mem, record lvl { tail = prev })
bypass_after mem lvl prev (some after) = do mem ← set_prev mem after prev; some (mem, lvl)

-- `UnlinkFromLevel`
unfoldable pub unlink_from_level : Memory → LevelFifo → ℕ → Option (Memory × LevelFifo)
unlink_from_level mem lvl p = do
  o ← load mem p
  (mem, lvl) ← bypass_before mem lvl o.prev o.next
  (mem, lvl) ← bypass_after mem lvl o.prev o.next
  some (
    mem,
    record lvl { total_qty = sub64 lvl.total_qty o.qty; order_count = dec32 lvl.order_count },
  )

-- The test of `PushBackToLevel`: the order follows the last one, or is the first.
unfoldable pub link_last : Memory → LevelFifo → (tail : Option ℕ) → ℕ → Option (Memory × LevelFifo)
link_last mem lvl none p = some (mem, record lvl { head = some p })
link_last mem lvl (some last) p = do mem ← set_next mem last (some p); some (mem, lvl)

-- `PushBackToLevel`
unfoldable pub push_back_to_level : Memory → LevelFifo → ℕ → Option (Memory × LevelFifo)
push_back_to_level mem lvl p = do
  o ← load mem p
  (mem, lvl) ← link_last (store mem p (record o { prev = lvl.tail; next = none })) lvl lvl.tail p
  some (
    mem,
    record lvl {
      tail = some p;
      total_qty = add64 lvl.total_qty o.qty;
      order_count = inc32 lvl.order_count;
    },
  )
