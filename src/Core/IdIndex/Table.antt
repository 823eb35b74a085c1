-- ===== src/Core/IdIndex/Table.antt =====
-- What an id table stands for: a finite map from ids to slots.
use optimal_execution_platfo.Common.{
  ℕ, zero, suc, ◌+◌, ◌<◌, ◌≤◌, ◌≡◌, ◌≢◌, inl, inr, refl, ap, arith, Bool, true, false, Option, none,
  some, update, Bool-cases, subst, ℕ_discrete,
}
use optimal_execution_platfo.Core.IdIndex.{IdEntry, IdIndex, home}
use optimal_execution_platfo.Core.IdIndex.Cycle.{dist, IsSized}

abbrev pub full : IdEntry → Bool
full e = elim e.ptr [ none ↦ false | some o ↦ true ]

abbrev pub bit : Bool → ℕ
bit true = 1
bit false = 0

pub full_of_some : (e : IdEntry) (o : ℕ) → e.ptr ≡ some o → full e ≡ true
full_of_some e o h = ground arith

pub full_apart : (es : ℕ → IdEntry) (i j : ℕ) → full (es i) ≡ true → full (es j) ≡ false → i ≢ j
full_apart es i j h g e = cc (ap (λ k. full (es k)) e)

-- The number of occupied slots below `n`.
unfoldable pub used : (ℕ → IdEntry) → ℕ → ℕ
used es zero = 0
used es (suc n) = used es n + bit (full (es n))

pub used-update_beyond :
    (es : ℕ → IdEntry) (i : ℕ) (e : IdEntry) (n : ℕ) → n ≤ i → used (update es i e) n ≡ used es n
unfolding used
used-update_beyond es i e zero h = refl
used-update_beyond es i e (suc n) h = ground (arith, used-update_beyond es i e n)

pub used-update :
    (es : ℕ → IdEntry) (i : ℕ) (e : IdEntry) (n : ℕ)
    → i < n
    → used (update es i e) n + bit (full (es i)) ≡ used es n + bit (full e)
unfolding used
used-update es i e zero h = absurd (omega arith)
used-update es i e (suc n) h = ground (arith, used-update es i e n, used-update_beyond es i e n)

pub used-pos : (es : ℕ → IdEntry) (i n : ℕ) → i < n → full (es i) ≡ true → 1 ≤ used es n
unfolding used
used-pos es i zero h a = absurd (omega arith)
used-pos es i (suc n) h a = elim (ℕ_discrete i n) [
  | yes same ↦ let e = subst (λ k. full (es k) ≡ true) same a in omega (arith, ap bit e)
  | no ne ↦ omega (arith, used-pos es i n (omega arith) a)
]

pub vacancy : (es : ℕ → IdEntry) (n : ℕ) → used es n < n → (z : ℕ) × (z < n) × (full (es z) ≡ false)
unfolding used
vacancy es zero h = absurd (omega arith)
vacancy es (suc n) h = elim (Bool-cases (full (es n))) [
  | inl e ↦ let (z, lt, empty) = vacancy es n (omega (arith, ap bit e)) in (z, omega arith, empty)
  | inr e ↦ (n, omega arith, e)
]

-- Every slot from the home of an entry up to the entry is occupied.
abbrev pub Reaches : IdIndex → Type 0
Reaches t =
    (i j : ℕ)
    → i < t.capacity
    → j < t.capacity
    → full (t.entries i) ≡ true
    → let h = home t (t.entries i).id in
      dist t.capacity h j < dist t.capacity h i → full (t.entries j) ≡ true

-- The table holds the finite map `f`, with `size` entries.
pub record Models (t : IdIndex) (f : ℕ → Option ℕ) (size : ℕ) : Type 0 where
  pub sized : IsSized t
  pub reaches : Reaches t
  pub sound : (i o : ℕ) → i < t.capacity → (t.entries i).ptr ≡ some o → f (t.entries i).id ≡ some o
  pub placed :
      (id o : ℕ)
      → f id ≡ some o
      → (i : ℕ) × (i < t.capacity) × ((t.entries i).id ≡ id) × ((t.entries i).ptr ≡ some o)
  pub unique :
      (i j : ℕ)
      → i < t.capacity
      → j < t.capacity
      → full (t.entries i) ≡ true
      → full (t.entries j) ≡ true
      → (t.entries i).id ≡ (t.entries j).id
      → i ≡ j
  pub load : used t.entries t.capacity ≡ size

pub full-update :
    (es : ℕ → IdEntry) (p j : ℕ) (e : IdEntry)
    → full e ≡ true
    → full (es j) ≡ true
    → full (update es p e j) ≡ true
full-update es p j e h g = ground arith
