-- ===== src/Core/IdIndex/Move.antt =====
-- The two ways the shift passes an occupied slot: the entry stays, or it moves into the hole.
use optimal_execution_platfo.Common.{
  ℕ, ◌<◌, ◌≤◌, ◌≡◌, ◌≢◌, sym, arith, true, Option, some, update, subst, ℕ_discrete,
}
use optimal_execution_platfo.Core.IdIndex.{IdIndex, home}
use optimal_execution_platfo.Core.IdIndex.Cycle.{
  dist, succ, dist_self, succ-lt, dist-lt, eq_of_dist, dist-succ, dist-triangle, dist_injective,
  home-lt, two-le,
}
use optimal_execution_platfo.Core.IdIndex.Table.{full, full_apart, full-update}
use optimal_execution_platfo.Core.IdIndex.Hole.{entry_home, Shifting, resized, next-ne}

module _ {t : IdIndex} {f : ℕ → Option ℕ} {hole next gap : ℕ} (s : Shifting t f hole next gap)
    (a : full (t.entries next) ≡ true) where
  pub next-gap : next ≢ gap
  next-gap = full_apart t.entries next gap a s.empty

  abbrev moved : IdIndex
  moved = record t { entries = update t.entries hole (t.entries next) }

  -- An entry whose home lies after the hole stays, and the shift goes on with the same hole.
  pub stay-Shifting :
      dist t.capacity (entry_home t next) next < dist t.capacity hole next
      → Shifting t f hole (succ t.capacity next) gap
  stay-Shifting home_after =
      let n = t.capacity in
      let k = entry_home t next in
      let hk = home-lt s.sized (t.entries next).id in
      let inside : dist n hole next < dist n hole gap = omega (
        arith,
        s.short,
        λ (e : dist n hole next ≡ dist n hole gap).
            next-gap (dist_injective n hole s.hole_in next gap s.next_in s.gap_in e),
      ) in
      let step = dist-succ n hole next s.hole_in s.next_in in
      let bound = dist-lt n hole gap s.hole_in s.gap_in in
      let self : dist n k next ≤ dist n k hole = omega (
        arith,
        dist-triangle n k hole hk s.hole_in next s.next_in,
        dist-lt n k hole hk s.hole_in,
        dist-lt n hole next s.hole_in s.next_in,
      ) in
      record {
        sized = s.sized;
        hole_in = s.hole_in;
        next_in = succ-lt n next s.next_in;
        gap_in = s.gap_in;
        stale = s.stale;
        empty = s.empty;
        ahead = omega arith;
        short = omega arith;
        reaches = s.reaches;
        clear = λ i hi ne b near. elim (ℕ_discrete next i) [
          | yes same ↦
              subst (λ i. dist n (entry_home t i) i ≤ dist n (entry_home t i) hole) same self
          | no other ↦ s.clear i hi ne b (
              omega (
                arith,
                near,
                λ (e : dist n hole next ≡ dist n hole i).
                    other (dist_injective n hole s.hole_in next i s.next_in hi e),
              ))
        ];
        sound = s.sound;
        placed = s.placed;
        unique = s.unique;
      }

  -- An entry whose home lies at or before the hole moves into it, and its slot is the new hole.
  pub move-Shifting :
      dist t.capacity hole next ≤ dist t.capacity (entry_home t next) next
      → Shifting moved f next (succ t.capacity next) gap
  unfolding home
  move-Shifting home_before =
      let n = t.capacity in
      let k = entry_home t next in
      let hk = home-lt s.sized (t.entries next).id in
      let ne = next-ne s in
      let step = dist-succ n next next s.next_in s.next_in in
      let zero_way = dist_self n next in
      let two = two-le s.sized in
      let closer : dist n k hole ≤ dist n k next = omega (
        arith,
        dist-triangle n k hole hk s.hole_in next s.next_in,
        dist-lt n k hole hk s.hole_in,
      ) in
      record {
        sized = resized t _ s.sized;
        hole_in = s.next_in;
        next_in = succ-lt n next s.next_in;
        gap_in = s.gap_in;
        stale = full-update t.entries hole next (t.entries next) a a;
        empty = ground (arith, full_apart t.entries hole gap s.stale s.empty);
        ahead = omega arith;
        short = omega (
          arith,
          λ (e : dist n next gap ≡ 0). next-gap (eq_of_dist n next gap s.next_in s.gap_in e),
        );
        reaches = λ i j hi hj apart b lt. elim (ℕ_discrete hole i) [
          | yes same ↦
              full-update t.entries hole j (t.entries next) a
                (s.reaches next j s.next_in hj ne a (ground arith))
          | no other ↦ ground (arith, s.reaches i j hi hj)
        ];
        clear = λ i hi apart b near. absurd (
            omega (
              arith,
              near,
              λ (e : dist n next i ≡ 0). apart (sym (eq_of_dist n next i s.next_in hi e)),
            ));
        sound = λ i o hi apart h. ground (arith, s.sound i o hi, s.sound next o s.next_in ne);
        placed = λ id o h.
            let (i, hi, apart, at, ptr) = s.placed id o h in
            elim (ℕ_discrete next i) [
              | yes same ↦
                  let at' = subst (λ q. (t.entries q).id ≡ id) (sym same) at in
                  let ptr' = subst (λ q. (t.entries q).ptr ≡ some o) (sym same) ptr in
                  (hole, s.hole_in, λ e. ne (sym e), ground arith, ground arith)
              | no other ↦ (i, hi, ground arith, ground arith, ground arith)
            ];
        unique = λ i j hi hj ni nj b c h. ground (
          arith,
          s.unique i j hi hj,
          s.unique next j s.next_in hj ne,
          s.unique i next hi s.next_in,
        );
      }
