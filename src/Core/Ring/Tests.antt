-- ===== src/Core/Ring/Tests.antt =====
-- A ring of two slots.
use optimal_execution_platfo.Common.{some, ℕ, ◌-◌, ◌≡◌, refl, arith, List, [], ◌∷◌}
use optimal_execution_platfo.Core.Ring.{
  Threads, Ring, new_ring, try_push, try_pop, size_approx, Turn, call_push, produce, call_pop,
  consume, produce_step, consume_step, turn, turns, idle_threads,
}
use optimal_execution_platfo.Core.Ring.Fifo.{
  IsRing, PushOutcome, PopOutcome, try_push-PushOutcome, try_pop-PopOutcome,
}
use optimal_execution_platfo.Core.Ring.Schedule.{Delivered, turns-Delivered}
use optimal_execution_platfo.Core.Ring.Races.{next_write, next_read, Apart, turns-Apart}

program : Unit {0}
unfolding new_ring try_push try_pop size_approx produce_step consume_step turn turns idle_threads
program = tt

-- The write index has wrapped: the values 7 and 8 are at the positions 2^64 - 1 and 2^64.
abbrev wrapped : Ring ℕ
wrapped = record {
  bits = 1;
  write_idx = 1;
  read_idx = 18446744073709551615;
  dropped_messages = 0;
  storage = λ i. 8 - i;
}

wrapped-IsRing : IsRing wrapped 18446744073709551615 (7 ∷ 8 ∷ [])
wrapped-IsRing = record {
  wide = omega arith;
  write = refl;
  read = refl;
  room = omega arith;
  stored = (refl, (refl, tt));
}

try_push-PushOutcome_example :
    PushOutcome wrapped 18446744073709551615 (7 ∷ 8 ∷ []) 9 (try_push wrapped 9)
try_push-PushOutcome_example =
    try_push-PushOutcome wrapped 18446744073709551615 (7 ∷ 8 ∷ []) 9 wrapped-IsRing

try_pop-PopOutcome_example : PopOutcome wrapped 18446744073709551615 (7 ∷ 8 ∷ []) (try_pop wrapped)
try_pop-PopOutcome_example =
    try_pop-PopOutcome wrapped 18446744073709551615 (7 ∷ 8 ∷ []) wrapped-IsRing

-- The consumer reads the write index before the producer stores, and sees nothing; then it sees the value.
abbrev schedule : List (Turn ℕ)
schedule =
    call_push 5
    ∷ produce
    ∷ call_pop
    ∷ produce
    ∷ consume
    ∷ consume
    ∷ produce
    ∷ consume
    ∷ produce
    ∷ call_pop
    ∷ consume
    ∷ consume
    ∷ call_push 6
    ∷ consume
    ∷ produce
    ∷ consume
    ∷ []

schedule_test : (turns (idle_threads 0 1) schedule).popped ≡ 5 ∷ []
unfolding program
schedule_test = refl

turns-Delivered_example : Delivered 1 (turns (idle_threads 0 1) schedule)
turns-Delivered_example = turns-Delivered 0 1 schedule (omega arith)

-- The producer is about to write the second value while the consumer is about to read the first.
abbrev both_at_work : List (Turn ℕ)
both_at_work =
    call_push 5
    ∷ produce
    ∷ produce
    ∷ produce
    ∷ produce
    ∷ call_push 6
    ∷ produce
    ∷ produce
    ∷ call_pop
    ∷ consume
    ∷ consume
    ∷ []

abbrev met : Threads ℕ
met = turns (idle_threads 0 1) both_at_work

met_test : (next_write met.ring met.producer ≡ some 1) × (next_read met.ring met.consumer ≡ some 0)
unfolding program
met_test = (refl, refl)

turns-Apart_example : Apart (next_write met.ring met.producer) (next_read met.ring met.consumer)
turns-Apart_example = turns-Apart 0 1 both_at_work (omega arith)
