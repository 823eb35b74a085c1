-- ===== src/Lib.antt =====
-- Optimal-execution platform: a model of its C++ core, with the theorems that make it correct.
--
-- The program is split by latency. The internal clock (cpp/core) matches orders without allocation or
-- locks, the execution algorithms (cpp/exec) size child orders and publish telemetry, and the external
-- clock (cpp/external, cpp/main) drains that telemetry and logs it. The modules follow the source:
--
--   Common          numbers, machine words, arrays, lists of distinct indices, signed prices
--   Core/Slab       cpp/core/slab_allocator.hpp: `SlabAllocator`, the pool with an intrusive free list.
--                   A `T*` is the index of its slot. `new`, `allocate`, `deallocate`, `new_object`,
--                   `delete_object`, `owns` and `available` are the methods of those names.
--   Core/IdIndex    the hash table from ids to orders in cpp/core/order_book.hpp (`MixId`,
--                   `RoundUpPow2`, `InsertId`, `LookupAndEraseId` with its back-shift deletion).
--                   A table stands for a finite map (`Table.Models`).
--   Core/Order,     the plain types of the book and `LevelFIFO`, the doubly linked queue at one price,
--   Core/Level      with `UnlinkFromLevel` and `PushBackToLevel`. A level stands for a list of orders
--                   (`Queue.IsQueue`).
--   Core/Ladder     the direct-indexed price ladder of one side: `LevelAt`, `MarkLevelLive`,
--                   `MarkLevelEmptied` with its scan. The touch is right when it is that of a scan of
--                   all levels (`Touch.IsTouch`).
--   Core/Book       `OrderBook`: the constructor, `AddLimit` (`MatchBuy`, `MatchSell`, `ConsumeLevel`,
--                   `Rest`), `Cancel` and the observers. The bids and the asks, which the source writes
--                   out twice, are one definition with the side as an argument. A book stands for a
--                   queue of orders at each price of each side (`Invariant.IsBook`); matching is
--                   specified on those queues alone (`Priority.take_queue`, `Sweep.sweep`). `Uncrossed`
--                   follows the best bid and the best ask through any sequence of calls.
--
--   Core/Ring       cpp/core/spsc_ring.hpp: `SpscRing`. `try_push` and `try_pop` are whole calls; `turns`
--                   runs any interleaving of the two threads, one atomic access at a time.
--   Exec/Schedule   cpp/exec/vwap.cpp and cpp/exec/almgren_chriss.cpp: the schedules that the
--                   constructors compute, over any `double` arithmetic (`Double.Doubles`).
--   Exec/Publisher  cpp/exec/telemetry_publisher.hpp: `TelemetryPublisher` over the book and the ring, and
--                   `SubmitStep` of cpp/exec/strategy.hpp. `OrderBook::AddLimit` only calls `on_fill`
--                   and never reads what it changes, so the fills are published after the call.
--   Exec/RlPolicy   cpp/exec/rl_policy.cpp: `RlPolicy`. The forward pass of its TorchScript actor, and the
--                   `float` arithmetic, are arguments.
--   Exec/Publisher/Tracked: what holds of a client that keeps the ids of its orders in a vector.
--   External/Event  cpp/external/kdb_logger.hpp: `TelemetryEvent`.
--   External/Logger cpp/external/kdb_logger.hpp: `FormatCsvRow`, over bytes, and `InMemoryKdbLogger`.
--   External/Ipc    cpp/external/ipc_kdb_logger.cpp: `IpcKdbLogger`. What the kdb+ client answers is an
--                   argument of each call; `Tape` relates the frames to the events, by groups.
--   External/Relay  cpp/external/event_relay.hpp: `EventRelay`: `Run`, interleaved with pushes and `Stop`,
--                   and `Start` and `Stop` as its owner calls them. Its logger is an argument.
--
--   Main/Config     cpp/main/sim_runner.cpp: `ParseArgs`, with the conversions of the C library it calls.
--   Main/Random,    cpp/main/sim_runner.cpp: `Xorshift64` and the loop of `main`. The vector `resting` is a
--   Main/Sim        function from its indices and a size.
--   Bindings/SimEnv cpp/bindings/py_module.cpp: `SimEnv`, the environment that the Python side trains on. `Flow`
--                   has the synthetic orders, their expiry and the cancels of a reset; `Sound`, `Cash`, `Child`,
--                   `Reset`, `Episode` and `Life` the proofs about a step, an episode and any sequence of calls.
--
-- A call of the book uses all the components: `AddLimit` walks the levels of the other side from the
-- best price on, pops filled makers from the level, the id index and the slab, repairs the best price of
-- the ladder when a level empties, and queues what is left in a slot of the slab under its id.
--
-- Undefined behaviour of the source (a failed assertion, a read of a slot that holds no object, a signed
-- overflow, a write behind a buffer) is `none`, and so is a loop that would run past its fuel. Machine
-- words keep their wrap-around. The loops over the id table run on fuel `id_capacity_`, which the theorems show to be enough while one slot is
-- empty; the matching loops run on one round more than the band has prices, `ConsumeLevel` on one more than
-- the slab has slots, and the scan for the best price on the width of the band, all shown to be enough;
-- `RoundUpPow2` runs on 63 rounds, which reach every power of two of a 64-bit word.
--
-- The expiry of the synthetic orders runs on as many rounds as there are ids after its head, the digits of a
-- number on one more than its value, and the join of the relay's `Stop` on three steps more than the ring has
-- slots; all are shown to be enough.
--
-- Not modelled: input and output, the kdb+ client library (cpp/external/kdb), the time-stamp counter
-- (cpp/core/tsc_clock.hpp), the choice of the logger, the pybind11 declarations, tests, benchmarks and
-- scripts in other languages; memory that the system refuses (std::bad_alloc, std::length_error).
pub mod Common
pub mod Core
pub mod Exec
pub mod External
pub mod Main
pub mod Bindings
