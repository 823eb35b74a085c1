-- ===== src/Core/IdIndex/Shift.antt =====
-- The loop of back-shift deletion in `LookupAndEraseId`: it ends, and closes the hole.
use optimal_execution_platfo.Common.{
  ℕ, zero, suc, ◌+◌, ◌<◌, ◌≡◌, inl, inr, refl, sym, ◌∙◌, ap, arith, true, false, Option, some, leb,
  update, Returns, Option-cases, subst, dec_lt,
}
use optimal_execution_platfo.Core.IdIndex.{
  IdIndex, vacant, home, next_slot, distance, shift_entry, shift_back,
}
use optimal_execution_platfo.Core.IdIndex.Cycle.{
  dist, succ, home-lt, next_slot-succ, two-le, dist-step, distance-dist,
}
use optimal_execution_platfo.Core.IdIndex.Table.{full, bit, used, used-update, full_of_some, Models}
use optimal_execution_platfo.Core.IdIndex.Hole.{Shifting, shift-done}
use optimal_execution_platfo.Core.IdIndex.Move.{next-gap, stay-Shifting, move-Shifting}

shift_back-step :
    (fuel : ℕ) (t : IdIndex) (hole next o : ℕ)
    → (t.entries next).ptr ≡ some o
    → shift_back (suc fuel) t hole next
      ≡ shift_back fuel (shift_entry t hole next).0 (shift_entry t hole next).1 (next_slot t next)
unfolding shift_back
shift_back-step fuel t hole next o e = rw (e, shift_back)

module _ {f : ℕ → Option ℕ} {gap : ℕ} where
  -- One round of the loop at an occupied slot: the invariant holds for the next slot.
  shift_entry-Shifting :
      (t : IdIndex) (hole next : ℕ)
      → Shifting t f hole next gap
      → full (t.entries next) ≡ true
      → let (t', hole') = shift_entry t hole next in
        Shifting t' f hole' (succ t.capacity next) gap
        × (t'.capacity ≡ t.capacity)
        × (used t'.entries t.capacity ≡ used t.entries t.capacity)
  unfolding shift_entry
  shift_entry-Shifting t hole next s a =
      let n = t.capacity in
      let k = home t (t.entries next).id in
      let hk = home-lt s.sized (t.entries next).id in
      let e = distance-dist s.sized hole next s.hole_in s.next_in in
      let e' = distance-dist s.sized k next hk s.next_in in
      elim (dec_lt (dist n k next) (dist n hole next)) [
        | yes after ↦
            let test : leb (distance t hole next) (distance t k next) ≡ false =
              rw (e, e') (ground arith) in
            rw test (stay-Shifting s a after, refl, refl)
        | no before ↦
            let test : leb (distance t hole next) (distance t k next) ≡ true =
              rw (e, e') (ground arith) in
            rw test (
              move-Shifting s a (omega arith),
              refl,
              omega (
                arith,
                used-update t.entries hole (t.entries next) n s.hole_in,
                ap bit a,
                ap bit s.stale,
              ),
            )
      ]

  -- With a round for each slot up to an empty one the loop ends, and has closed the hole.
  pub shift_back-Models :
      (fuel : ℕ) (t : IdIndex) (hole next size : ℕ)
      → Shifting t f hole next gap
      → dist t.capacity next gap < fuel
      → used t.entries t.capacity ≡ size + 1
      → Returns (shift_back fuel t hole next) λ t'. Models t' f size × (t'.capacity ≡ t.capacity)
  unfolding shift_back
  shift_back-Models zero t hole next size s h load = absurd (omega arith)
  shift_back-Models (suc fuel) t hole next size s h load =
      elim (Option-cases (t.entries next).ptr) [
        | inl e ↦
            let end : full (t.entries next) ≡ false = rw e refl in
            (
              record t { entries = update t.entries hole vacant },
              rw (e, shift_back),
              (shift-done s size end load, refl),
            )
        | inr (o, e) ↦
            let a = full_of_some (t.entries next) o e in
            let (s', cap, same) = shift_entry-Shifting t hole next s a in
            let ahead =
              dist-step t.capacity next gap s.next_in s.gap_in (next-gap s a) (two-le s.sized) in
            let slot = next_slot-succ s.sized next s.next_in in
            let (t', hole') = shift_entry t hole next in
            let (r, run, (m, cap')) =
              shift_back-Models fuel t' hole' (succ t.capacity next) size s'
                (subst (λ c. dist c (succ t.capacity next) gap < fuel) (sym cap) (omega arith))
                (subst (λ c. used t'.entries c ≡ size + 1) (sym cap) (same ∙ load)) in
            (
              r,
              shift_back-step fuel t hole next o e ∙ ap (shift_back fuel t' hole') slot ∙ run,
              (m, cap' ∙ cap),
            )
      ]
