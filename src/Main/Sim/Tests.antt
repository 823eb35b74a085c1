-- ===== src/Main/Sim/Tests.antt =====
-- The first steps of the simulation.
use optimal_execution_platfo.Common.{true, false, ◌+◌, ◌≡◌, refl, arith, none, Returns}
use optimal_execution_platfo.Common.Int.{pos, ◌+ℤ◌, ◌-ℤ◌}
use optimal_execution_platfo.Core.Slab.{link}
use optimal_execution_platfo.Core.Order.{buy, Memory}
use optimal_execution_platfo.External.Event.{TelemetryEvent, cancel_event}
use optimal_execution_platfo.Main.Random.{next_random}
use optimal_execution_platfo.Main.Sim.{swap, draw_quantity, draw_price, run_main}
use optimal_execution_platfo.Main.Sim.Sound.{Driven, simulation-Driven}

-- The generator at the default seed, and at 0, where it stays.
random_test : (next_random 0xC0FFEEBABE ≡ 6782010728824834123) × (next_random 0 ≡ 0)
unfolding next_random
random_test = (refl, refl)

draw_test : (draw_price true 3 ≡ pos 97) × (draw_price false 10 ≡ pos 106) × (draw_quantity 7 ≡ 4)
unfolding draw_price draw_quantity ◌+ℤ◌ ◌-ℤ◌
draw_test = (refl, refl, refl)

swap_test : (swap (λ i. 10 + i) 0 2 0 ≡ 12) × (swap (λ i. 10 + i) 0 2 2 ≡ 10)
unfolding swap
swap_test = (refl, refl)

abbrev raw : Memory
raw = λ p. link none

abbrev zeroed : TelemetryEvent
zeroed = cancel_event 0 0 0 buy (pos 0) 0

simulation-Driven_example :
    Returns (run_main (λ n. 1000 + n) raw zeroed 0xC0FFEEBABE 100000) (Driven 100000)
simulation-Driven_example =
    simulation-Driven (λ n. 1000 + n) raw zeroed 0xC0FFEEBABE 100000 (omega arith)
