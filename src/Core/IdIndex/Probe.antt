-- ===== src/Core/IdIndex/Probe.antt =====
-- The probe loops of `InsertId` and `LookupAndEraseId`.
use optimal_execution_platfo.Common.{
  ℕ, zero, suc, ◌+◌, ◌<◌, ◌≡◌, ◌≢◌, inl, inr, refl, sym, ap, arith, true, false, Option, none, some,
  update, Returns, Option-cases, subst, ℕ_discrete,
}
use optimal_execution_platfo.Core.IdIndex.{IdEntry, IdIndex, home, free_slot, insert_id, find_slot}
use optimal_execution_platfo.Core.IdIndex.Cycle.{
  dist, succ, dist_self, succ-lt, dist-lt, eq_of_dist, IsSized, home-lt, next_slot-succ, two-le,
  dist-step,
}
use optimal_execution_platfo.Core.IdIndex.Table.{
  full, bit, used-update, vacancy, full_apart, full_of_some, Models,
}

module _ {t : IdIndex} (z : IsSized t) where
  -- The search ends at the first empty slot: all before it are occupied.
  pub free_slot-first :
      (fuel s v : ℕ)
      → s < t.capacity
      → v < t.capacity
      → full (t.entries v) ≡ false
      → dist t.capacity s v < fuel
      → Returns (free_slot t fuel s) λ p.
        (p < t.capacity)
        × (full (t.entries p) ≡ false)
        × ((j : ℕ)
            → j < t.capacity
            → dist t.capacity s j < dist t.capacity s p
            → full (t.entries j) ≡ true)
  unfolding free_slot
  free_slot-first zero s v hs hv empty h = absurd (omega arith)
  free_slot-first (suc fuel) s v hs hv empty h = elim (Option-cases (t.entries s).ptr) [
    | inl e ↦ (
      s,
      rw (e, free_slot),
      (hs, ground arith, λ j hj lt. absurd (omega (arith, dist_self t.capacity s))),
    )
    | inr (o, e) ↦
        let n = t.capacity in
        let two = two-le z in
        let away = λ (j : ℕ) (hj : j < n) (ne : s ≢ j). dist-step n s j hs hj ne two in
        let here = full_of_some (t.entries s) o e in
        let ne = λ (j : ℕ). full_apart t.entries s j here in
        let (p, run, (hp, gap, before)) =
          free_slot-first fuel (succ n s) v (succ-lt n s hs) hv empty
            (omega (arith, away v hv (ne v empty))) in
        (
          p,
          rw (e, free_slot, next_slot-succ z s hs) run,
          (
            hp,
            gap,
            λ j hj lt. elim (ℕ_discrete s j) [
              | yes same ↦ subst (λ k. full (t.entries k) ≡ true) same here
              | no other ↦ before j hj (omega (arith, away j hj other, away p hp (ne p gap)))
            ],
          ),
        )
  ]

module _ {t : IdIndex} {f : ℕ → Option ℕ} {size : ℕ} (m : Models t f size) where
  -- An id that the map does not hold is not found, however many slots are probed.
  pub find_slot-absent :
      (id fuel s : ℕ) → s < t.capacity → f id ≡ none → find_slot t id fuel s ≡ none
  unfolding find_slot
  find_slot-absent id zero s hs h = refl
  find_slot-absent id (suc fuel) s hs h = elim (Option-cases (t.entries s).ptr) [
    | inl e ↦ rw (e, find_slot)
    | inr (o, e) ↦
        let next = next_slot-succ m.sized s hs in
        let ih = find_slot-absent id fuel (succ t.capacity s) (succ-lt t.capacity s hs) h in
        rw (e, find_slot, next, ih) (ground (arith, m.sound s o hs e))
  ]

  -- An id is found in its slot `i` from any slot `s` with no gap up to there.
  pub find_slot-present :
      (i o fuel s : ℕ)
      → i < t.capacity
      → s < t.capacity
      → (t.entries i).ptr ≡ some o
      → dist t.capacity s i < fuel
      → ((j : ℕ)
          → j < t.capacity
          → dist t.capacity s j < dist t.capacity s i
          → full (t.entries j) ≡ true)
      → find_slot t (t.entries i).id fuel s ≡ some (i, o)
  unfolding find_slot
  find_slot-present i o zero s hi hs e h before = absurd (omega arith)
  find_slot-present i o (suc fuel) s hi hs e h before = elim (ℕ_discrete s i) [
    | yes same ↦
        subst (λ k. find_slot t (t.entries i).id (suc fuel) k ≡ some (i, o)) (sym same)
          (rw (e, find_slot) (ground arith))
    | no other ↦
        let n = t.capacity in
        let two = two-le m.sized in
        let away = λ (j : ℕ) (hj : j < n) (ne : s ≢ j). dist-step n s j hs hj ne two in
        let far : dist n s s < dist n s i =
          omega (arith, dist_self n s, λ (z : dist n s i ≡ 0). other (eq_of_dist n s i hs hi z)) in
        let here = before s hs far in
        let ih =
          find_slot-present i o fuel (succ n s) hi (succ-lt n s hs) e
            (omega (arith, away i hi other))
            (λ j hj lt. elim (ℕ_discrete s j) [
              | yes same ↦ subst (λ k. full (t.entries k) ≡ true) same here
              | no ne ↦ before j hj (omega (arith, away j hj ne, away i hi other))
            ]) in
        let next = next_slot-succ m.sized s hs in
        elim (Option-cases (t.entries s).ptr) [
          | inl gap ↦ absurd (full_apart t.entries s s here (rw gap) refl)
          | inr (o', e') ↦
              rw (e', find_slot, next, ih)
                (ground (arith, m.unique s i hs hi here (full_of_some (t.entries i) o e)))
        ]
  ]

module _ {t : IdIndex} {f : ℕ → Option ℕ} {size : ℕ} (m : Models t f size) where
  pub absent-ne :
      (id j : ℕ) → f id ≡ none → j < t.capacity → full (t.entries j) ≡ true → (t.entries j).id ≢ id
  absent-ne id j fresh hj h same = elim (Option-cases (t.entries j).ptr) [
    | inl e ↦ full_apart t.entries j j h (rw e) refl
    | inr (o, e) ↦ cc (m.sound j o hj e, ap f same)
  ]

  -- An entry in the first empty slot from its home on is a new entry of the map.
  add_entry-Models :
      (id o p : ℕ)
      → f id ≡ none
      → p < t.capacity
      → full (t.entries p) ≡ false
      → ((j : ℕ)
          → j < t.capacity
          → dist t.capacity (home t id) j < dist t.capacity (home t id) p
          → full (t.entries j) ≡ true)
      → Models
          (record t { entries = update t.entries p (record { id = id; ptr = some o }) })
          (update f id (some o))
          (size + 1)
  unfolding home
  add_entry-Models id o p fresh hp gap before =
      let n = t.capacity in
      let es = t.entries in
      let e : IdEntry = record { id = id; ptr = some o } in
      record {
        sized = record {
          bits = m.sized.bits;
          wide = m.sized.wide;
          two = m.sized.two;
          size = m.sized.size;
          masks = m.sized.masks;
        };
        reaches = λ i j hi hj a lt. elim (ℕ_discrete p i) [
          | yes here ↦ ground (arith, before j hj)
          | no other ↦ ground (arith, m.reaches i j hi hj)
        ];
        sound = λ i o' hi h. ground (arith, m.sound i o' hi, absent-ne id i fresh hi);
        placed = λ id' o' h. elim (ℕ_discrete id id') [
          | yes same ↦ (p, hp, ground arith, ground arith)
          | no other ↦
              let (i, hi, at, ptr) = m.placed id' o' (ground arith) in
              let apart = full_apart es i p (full_of_some (es i) o' ptr) gap in
              (i, hi, ground arith, ground arith)
        ];
        unique = λ i j hi hj a b h.
            ground (arith, m.unique i j hi hj, absent-ne id i fresh hi, absent-ne id j fresh hj);
        load = omega (arith, used-update es p e n hp, ap bit gap, m.load);
      }

  -- `InsertId` of an id that the table does not hold, while a slot is empty, ends and adds just that
  -- entry to the map.
  pub insert_id-Models :
      (id o : ℕ)
      → f id ≡ none
      → size < t.capacity
      → Returns
          (insert_id t id o)
          λ t'. Models t' (update f id (some o)) (size + 1) × (t'.capacity ≡ t.capacity)
  unfolding insert_id
  insert_id-Models id o fresh room =
      let n = t.capacity in
      let start = home-lt m.sized id in
      let (v, hv, empty) = vacancy t.entries n (omega (arith, m.load)) in
      let (p, run, (hp, gap, before)) =
        free_slot-first m.sized n (home t id) v start hv empty (dist-lt n (home t id) v start hv) in
      (
        record t { entries = update t.entries p (record { id = id; ptr = some o }) },
        rw run,
        (add_entry-Models id o p fresh hp gap before, refl),
      )
