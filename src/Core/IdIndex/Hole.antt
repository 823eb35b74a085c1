-- ===== src/Core/IdIndex/Hole.antt =====
-- The table while `LookupAndEraseId` shifts entries back over a hole.
use optimal_execution_platfo.Common.{
  ℕ, ◌+◌, ◌<◌, ◌≤◌, ◌≡◌, ◌≢◌, refl, ap, arith, true, false, Option, some, update, dec_lt,
}
use optimal_execution_platfo.Core.IdIndex.{IdEntry, IdIndex, vacant, home}
use optimal_execution_platfo.Core.IdIndex.Cycle.{
  dist, dist_self, dist-lt, dist-triangle, dist_injective, IsSized, home-lt,
}
use optimal_execution_platfo.Core.IdIndex.Table.{full, bit, used, used-update, full_apart, Models}

abbrev pub entry_home : IdIndex → ℕ → ℕ
entry_home t i = home t (t.entries i).id

-- The table during the shift: `hole` still holds a stale copy, and `next` is the slot to look at. The
-- other entries are those of `f`. Each is reached from its home when the hole counts as occupied, and
-- those between the hole and `next` do not rely on the hole. The empty slot `gap` is not yet passed.
pub record Shifting (t : IdIndex) (f : ℕ → Option ℕ) (hole next gap : ℕ) : Type 0 where
  pub sized : IsSized t
  pub hole_in : hole < t.capacity
  pub next_in : next < t.capacity
  pub gap_in : gap < t.capacity
  pub stale : full (t.entries hole) ≡ true
  pub empty : full (t.entries gap) ≡ false
  pub ahead : 1 ≤ dist t.capacity hole next
  pub short : dist t.capacity hole next ≤ dist t.capacity hole gap
  pub reaches :
      (i j : ℕ)
      → i < t.capacity
      → j < t.capacity
      → i ≢ hole
      → full (t.entries i) ≡ true
      → dist t.capacity (entry_home t i) j < dist t.capacity (entry_home t i) i
      → full (t.entries j) ≡ true
  pub clear :
      (i : ℕ)
      → i < t.capacity
      → i ≢ hole
      → full (t.entries i) ≡ true
      → dist t.capacity hole i < dist t.capacity hole next
      → dist t.capacity (entry_home t i) i ≤ dist t.capacity (entry_home t i) hole
  pub sound :
      (i o : ℕ)
      → i < t.capacity
      → i ≢ hole
      → (t.entries i).ptr ≡ some o
      → f (t.entries i).id ≡ some o
  pub placed :
      (id o : ℕ)
      → f id ≡ some o
      → (i : ℕ) × (i < t.capacity)
        × (i ≢ hole)
        × ((t.entries i).id ≡ id)
        × ((t.entries i).ptr ≡ some o)
  pub unique :
      (i j : ℕ)
      → i < t.capacity
      → j < t.capacity
      → i ≢ hole
      → j ≢ hole
      → full (t.entries i) ≡ true
      → full (t.entries j) ≡ true
      → (t.entries i).id ≡ (t.entries j).id
      → i ≡ j

pub resized : (t : IdIndex) (es : ℕ → IdEntry) → IsSized t → IsSized (record t { entries = es })
resized t es z = record {
  bits = z.bits;
  wide = z.wide;
  two = z.two;
  size = z.size;
  masks = z.masks;
}

module _ {t : IdIndex} {f : ℕ → Option ℕ} {hole next gap : ℕ} (s : Shifting t f hole next gap) where
  pub next-ne : next ≢ hole
  next-ne e = omega (arith, s.ahead, dist_self t.capacity hole, ap (dist t.capacity hole) e)

  -- A full slot at or beyond an empty `next` is clear of the hole too: a way over the hole would lead
  -- over `next`.
  clear_end :
      (i : ℕ)
      → full (t.entries next) ≡ false
      → i < t.capacity
      → i ≢ hole
      → full (t.entries i) ≡ true
      → dist t.capacity (entry_home t i) i ≤ dist t.capacity (entry_home t i) hole
  clear_end i end hi ne a =
      let n = t.capacity in
      let k = entry_home t i in
      let hk = home-lt s.sized (t.entries i).id in
      elim (dec_lt (dist n hole i) (dist n hole next)) [
        | yes near ↦ s.clear i hi ne a near
        | no far ↦ elim (dec_lt (dist n k hole) (dist n k i)) [
          | no short ↦ omega arith
          | yes over ↦
              let apart = full_apart t.entries i next a end in
              let lt : dist n k next < dist n k i = omega (
                arith,
                dist-triangle n k hole hk s.hole_in i hi,
                dist-triangle n k hole hk s.hole_in next s.next_in,
                dist-lt n hole i s.hole_in hi,
                dist-lt n k next hk s.next_in,
                dist-lt n k i hk hi,
                λ (e : dist n hole i ≡ dist n hole next).
                    apart (dist_injective n hole s.hole_in i next hi s.next_in e),
              ) in
              absurd
                (full_apart t.entries next next (s.reaches i next hi s.next_in ne a lt) end refl)
        ]
      ]

  -- At the first empty slot every entry is clear of the hole, and the hole can be emptied.
  pub shift-done :
      (size : ℕ)
      → full (t.entries next) ≡ false
      → used t.entries t.capacity ≡ size + 1
      → Models (record t { entries = update t.entries hole vacant }) f size
  unfolding home
  shift-done size end load = record {
    sized = resized t _ s.sized;
    reaches = λ i j hi hj a lt. ground (arith, s.reaches i j hi hj, clear_end i end hi);
    sound = λ i o hi h. ground (arith, s.sound i o hi);
    placed =
        λ id o h. let (i, hi, ne, at, ptr) = s.placed id o h in (i, hi, ground arith, ground arith);
    unique = λ i j hi hj a b h. ground (arith, s.unique i j hi hj);
    load = omega (arith, used-update t.entries hole vacant t.capacity s.hole_in, ap bit s.stale);
  }
