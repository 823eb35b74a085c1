-- ===== src/Core/Level/Tests.antt =====
-- A level with two resting orders.
use optimal_execution_platfo.Common.{
  ℕ, ◌≡◌, ◌≢◌, refl, none, some, [], ◌∷◌, ◌++◌, Returns, arith, update,
}
use optimal_execution_platfo.Common.Int.{pos}
use optimal_execution_platfo.Core.Slab.{link, live}
use optimal_execution_platfo.Core.Order.{buy, Memory, Resting, order_of}
use optimal_execution_platfo.Core.Level.{
  LevelFifo, set_next, set_prev, bypass_before, bypass_after, link_last, unlink_from_level,
  push_back_to_level,
}
use optimal_execution_platfo.Core.Level.Segment.{Queue, ◌∉◌}
use optimal_execution_platfo.Core.Level.Queue.{
  IsQueue, unlink_from_level-IsQueue, push_back_to_level-IsQueue,
}

program : Unit {0}
unfolding set_next set_prev bypass_before bypass_after link_last unlink_from_level
    push_back_to_level
program = tt

abbrev first : Resting
first = record { id = 41; price = pos 99; qty = 5; side = buy }

abbrev second : Resting
second = record { id = 42; price = pos 99; qty = 7; side = buy }

abbrev third : Resting
third = record { id = 43; price = pos 99; qty = 2; side = buy }

-- Slots 0 and 1 are linked, and slot 2 holds an order that is in no queue yet.
abbrev memory : Memory
memory =
    update
      (update (update (λ p. link none) 0 (live (order_of first none (some 1)))) 1
        (live (order_of second (some 0) none)))
      2 (live (order_of third none none))

abbrev level : LevelFifo
level = record { head = some 0; tail = some 1; total_qty = 12; order_count = 2 }

abbrev queue : Queue
queue = (0, first) ∷ (1, second) ∷ []

level-IsQueue : IsQueue memory level queue
level-IsQueue = record {
  linked = (some 1, refl, refl, (none, refl, refl, (refl, refl)));
  apart = (refl, (refl, tt));
  words = omega arith;
  quantity = refl;
  count = refl;
}

unlink_head :
    (r : Memory × LevelFifo) × (unlink_from_level memory level 0 ≡ some r) × (r.1.head ≡ some 1)
unfolding program
unlink_head = (_, refl, refl)

unlink_from_level-IsQueue_example :
    Returns (unlink_from_level memory level 1) λ (mem', lvl').
      IsQueue mem' lvl' ((0, first) ∷ []) × ((q : ℕ) → q ∉ queue → mem' q ≡ memory q)
unlink_from_level-IsQueue_example =
    unlink_from_level-IsQueue memory level 1 second ((0, first) ∷ []) [] level-IsQueue

push_back_to_level-IsQueue_example : Returns (push_back_to_level memory level 2) λ (mem', lvl').
    IsQueue mem' lvl' (queue ++ (2, third) ∷ []) × ((q : ℕ) → q ∉ queue → q ≢ 2 → mem' q ≡ memory q)
push_back_to_level-IsQueue_example =
    push_back_to_level-IsQueue memory level 2 third none none queue level-IsQueue refl refl
      (omega arith)
