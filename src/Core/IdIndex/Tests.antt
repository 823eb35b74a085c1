-- ===== src/Core/IdIndex/Tests.antt =====
-- The id index at small tables.
use optimal_execution_platfo.Common.{
  ℕ, ◌*◌, ◌^◌, ◌<◌, ◌≤◌, ◌≡◌, refl, Option, none, some, List, [], ◌∷◌, update, Returns, subst, sym,
  ◌<◌, arith, ◌>>=◌,
}
use optimal_execution_platfo.Core.IdIndex.{
  IdIndex, double_until, round_up_pow2, mix_id, new, home, free_slot, insert_id, shift_entry,
  shift_back, find_slot, lookup_and_erase_id,
}
use optimal_execution_platfo.Core.IdIndex.Table.{Models}
use optimal_execution_platfo.Core.IdIndex.Probe.{insert_id-Models}
use optimal_execution_platfo.Core.IdIndex.Erase.{Erased, lookup_and_erase_id-Erased}
use optimal_execution_platfo.Core.IdIndex.Churn.{
  Call, insert, erase, run, round_up_pow2_lem, new-Models,
}

program : Unit {0}
unfolding double_until round_up_pow2 mix_id new home free_slot insert_id shift_entry shift_back
    find_slot lookup_and_erase_id
program = tt

abbrev table : IdIndex
table = new 4

abbrev calls : List Call
calls = insert 1 10 ∷ insert 2 11 ∷ insert 3 12 ∷ erase 2 ∷ insert 9 11 ∷ erase 1 ∷ []

-- What the table answers afterwards at each id.
abbrev answer : ℕ → Option (Option ℕ)
answer id = do t ← run table calls; (p, t') ← lookup_and_erase_id t id; some p

answers :
    (answer 1 ≡ some none)
    × (answer 2 ≡ some none)
    × (answer 3 ≡ some (some 12))
    × (answer 9 ≡ some (some 11))
unfolding program
answers = (refl, refl, refl, refl)

mix_id_one : mix_id 0 ≡ 0xE220A8397B1DCDAF
unfolding program
mix_id_one = refl

empty-Models : Models table (λ _. none) 0
empty-Models = (new-Models 4 (omega arith)).0

round_up_pow2_lem_example :
    (k : ℕ) × (round_up_pow2 10 ≡ 2 ^ k) × (k ≤ 63) × (10 ≤ 2 ^ k) × (2 ^ k < 2 * 10)
round_up_pow2_lem_example = round_up_pow2_lem 10 (omega arith) (omega arith)

new-Models_example :
    Models (new 4) (λ _. none) 0 × (2 * 4 ≤ (new 4).capacity) × (2 ≤ (new 4).capacity)
new-Models_example = new-Models 4 (omega arith)

insert_id-Models_example :
    Returns
      (insert_id table 5 1)
      λ t'. Models t' (update (λ _. none) 5 (some 1)) 1 × (t'.capacity ≡ table.capacity)
unfolding program
insert_id-Models_example = insert_id-Models empty-Models 5 1 refl (omega arith)

abbrev one : IdIndex
one = insert_id-Models_example.0

lookup_and_erase_id-Erased_example :
    Returns (lookup_and_erase_id one 5) (Erased insert_id-Models_example.2.0 5)
unfolding program
lookup_and_erase_id-Erased_example =
    lookup_and_erase_id-Erased insert_id-Models_example.2.0 5
      (subst (λ c. 1 < c) (sym insert_id-Models_example.2.1) (omega arith))
