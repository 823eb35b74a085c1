-- ===== src/Core/IdIndex/Erase.antt =====
-- `LookupAndEraseId` as a whole, against the map that the table holds.
use optimal_execution_platfo.Common.{
  ℕ, ◌-◌, ◌<◌, ◌≡◌, inl, inr, refl, sym, ◌∙◌, ap, arith, true, false, Option, none, some, update,
  Returns, Option-cases, subst,
}
use mathlib.Core.Path.{fun_ext}
use native.Mathlib.Nat.{sub-zero}
use optimal_execution_platfo.Core.IdIndex.{
  IdIndex, home, next_slot, shift_back, find_slot, lookup_and_erase_id,
}
use optimal_execution_platfo.Core.IdIndex.Cycle.{
  dist, succ, dist_self, succ-lt, dist-lt, eq_of_dist, dist-succ, home-lt, next_slot-succ, two-le,
}
use optimal_execution_platfo.Core.IdIndex.Table.{
  full, used-pos, vacancy, full_apart, full_of_some, Models,
}
use optimal_execution_platfo.Core.IdIndex.Probe.{find_slot-present, find_slot-absent}
use optimal_execution_platfo.Core.IdIndex.Hole.{Shifting}
use optimal_execution_platfo.Core.IdIndex.Shift.{shift_back-Models}

erase-step :
    (t : IdIndex) (id slot o : ℕ) (t' : IdIndex)
    → find_slot t id t.capacity (home t id) ≡ some (slot, o)
    → shift_back t.capacity t slot (next_slot t slot) ≡ some t'
    → lookup_and_erase_id t id ≡ some (some o, t')
unfolding lookup_and_erase_id
erase-step t id slot o t' found run = rw (found, lookup_and_erase_id, run)

-- The number of entries that an answer of the map accounts for.
abbrev pub held : Option ℕ → ℕ
held none = 0
held (some o) = 1

-- What the map is without an id.
abbrev pub forget : (ℕ → Option ℕ) → ℕ → ℕ → Option ℕ
forget f id = update f id none

module _ {t : IdIndex} {f : ℕ → Option ℕ} {size : ℕ} (m : Models t f size) where
  -- The shift starts with the slot of the erased entry as its hole.
  start-Shifting :
      (slot gap : ℕ)
      → slot < t.capacity
      → gap < t.capacity
      → full (t.entries slot) ≡ true
      → full (t.entries gap) ≡ false
      → Shifting t (forget f (t.entries slot).id) slot (succ t.capacity slot) gap
  start-Shifting slot gap hs hg a empty =
      let n = t.capacity in
      let two = two-le m.sized in
      let step = dist-succ n slot slot hs hs in
      let zero_way = dist_self n slot in
      let apart = full_apart t.entries slot gap a empty in
      record {
        sized = m.sized;
        hole_in = hs;
        next_in = succ-lt n slot hs;
        gap_in = hg;
        stale = a;
        empty = empty;
        ahead = omega arith;
        short = omega (arith, λ (e : dist n slot gap ≡ 0). apart (eq_of_dist n slot gap hs hg e));
        reaches = λ i j hi hj ne b lt. m.reaches i j hi hj b lt;
        clear = λ i hi ne b near. absurd (
            omega (arith, near, λ (e : dist n slot i ≡ 0). ne (sym (eq_of_dist n slot i hs hi e))));
        sound = λ i o hi ne h.
            ground
              (arith, m.sound i o hi, m.unique slot i hs hi a (full_of_some (t.entries i) o h));
        placed = λ id o h.
            let (i, hi, at, ptr) = m.placed id o (ground arith) in (i, hi, ground arith, at, ptr);
        unique = λ i j hi hj ni nj b c e. m.unique i j hi hj b c e;
      }

  forget-absent : (id : ℕ) → f id ≡ none → forget f id ≡ f
  forget-absent id e = fun_ext λ j. ground arith

  -- What `LookupAndEraseId` returns and leaves.
  abbrev pub Erased : ℕ → Option ℕ × IdIndex → Type 0
  Erased id (p, t') =
      (p ≡ f id) × Models t' (forget f id) (size - held (f id)) × (t'.capacity ≡ t.capacity)

  pub lookup_and_erase_id_absent :
      (id : ℕ) → f id ≡ none → lookup_and_erase_id t id ≡ some (none, t)
  unfolding lookup_and_erase_id
  lookup_and_erase_id_absent id e =
      rw (find_slot-absent m id t.capacity (home t id) (home-lt m.sized id) e, lookup_and_erase_id)

  erase_slot-Erased :
      (slot o : ℕ)
      → slot < t.capacity
      → (t.entries slot).ptr ≡ some o
      → size < t.capacity
      → Returns (lookup_and_erase_id t (t.entries slot).id) (Erased (t.entries slot).id)
  unfolding lookup_and_erase_id
  erase_slot-Erased slot o hs ptr room =
      let n = t.capacity in
      let id = (t.entries slot).id in
      let start = home-lt m.sized id in
      let a = full_of_some (t.entries slot) o ptr in
      let found =
        find_slot-present m slot o n (home t id) hs start ptr (dist-lt n (home t id) slot start hs)
          (λ j hj lt. m.reaches slot j hs hj a lt) in
      let known = m.sound slot o hs ptr in
      let (gap, hg, empty) = vacancy t.entries n (omega (arith, m.load)) in
      let counted = used-pos t.entries slot n hs a in
      let (t', run, (m', cap)) =
        shift_back-Models n t slot (succ n slot) (size - 1) (start-Shifting slot gap hs hg a empty)
          (dist-lt n (succ n slot) gap (succ-lt n slot hs) hg) (omega (arith, m.load)) in
      let slot_after = next_slot-succ m.sized slot hs in
      (
        (some o, t'),
        erase-step t id slot o t' found (ap (shift_back n t slot) slot_after ∙ run),
        (sym known, subst (λ q. Models t' (forget f id) (size - held q)) (sym known) m', cap),
      )

  -- `LookupAndEraseId` ends on every table with an empty slot. It returns the pointer that the map
  -- holds at the id, or `nullptr`, and leaves the table holding the map without the id, with every
  -- other entry still reachable.
  pub lookup_and_erase_id-Erased :
      (id : ℕ) → size < t.capacity → Returns (lookup_and_erase_id t id) (Erased id)
  unfolding lookup_and_erase_id
  lookup_and_erase_id-Erased id room = elim (Option-cases (f id)) [
    | inl e ↦
        let absent = find_slot-absent m id t.capacity (home t id) (home-lt m.sized id) e in
        (
          (none, t),
          rw (absent, lookup_and_erase_id),
          (sym e, rw (forget-absent id e, e) (rw sub-zero m), refl),
        )
    | inr (o, e) ↦
        let (slot, hs, at, ptr) = m.placed id o e in
        subst (λ k. Returns (lookup_and_erase_id t k) (Erased k)) at
          (erase_slot-Erased slot o hs ptr room)
  ]
