-- ===== src/Main/Sim/Start.antt =====
-- The book that the simulation and the environment start from.
use optimal_execution_platfo.Common.{refl, ◌^◌, ◌<◌, ◌≡◌, arith, none, some, []}
use optimal_execution_platfo.Common.Int.{◌+ℤ◌, ◌-ℤ◌}
use optimal_execution_platfo.Core.Slab.{threaded}
use optimal_execution_platfo.Core.Slab.FreeList.{countdown}
use optimal_execution_platfo.Core.Order.{Memory}
use optimal_execution_platfo.Core.Ladder.{width}
use optimal_execution_platfo.Core.Book.{Book, blank_book, new_book}
use optimal_execution_platfo.Core.Book.Invariant.{IsBook}
use optimal_execution_platfo.Core.Book.Session.{blank_book-IsBook, new_book-blank_book}
use optimal_execution_platfo.Exec.Publisher.Held.{IsSmall}
use optimal_execution_platfo.Main.Sim.{book_capacity, default_band}

narrow : (0 < width default_band) × (width default_band < 2 ^ 63)
unfolding width ◌+ℤ◌ ◌-ℤ◌
narrow = omega arith

abbrev pub default_book : Memory → Book
default_book raw = blank_book (threaded raw book_capacity) book_capacity default_band

-- The constructor with the default band ends normally.
pub new_book-default_book :
    (raw : Memory) → new_book raw book_capacity default_band ≡ some (default_book raw)
new_book-default_book raw =
    new_book-blank_book raw book_capacity default_band (omega arith) narrow.0 narrow.1

pub default_book-IsBook :
    (raw : Memory) → IsBook (default_book raw) (λ side i. []) (λ id. none) (countdown book_capacity)
default_book-IsBook raw =
    blank_book-IsBook raw book_capacity default_band (omega arith) (omega (arith, narrow.1))

pub default_book-IsSmall : (raw : Memory) → IsSmall (default_book raw).band
unfolding width ◌+ℤ◌ ◌-ℤ◌
default_book-IsSmall raw = (refl, omega arith)
