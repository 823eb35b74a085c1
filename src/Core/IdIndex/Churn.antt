-- ===== src/Core/IdIndex/Churn.antt =====
-- A table over its whole life: the constructor, then any sequence of insertions and erasures.
use optimal_execution_platfo.Common.{
  ℕ, zero, suc, ◌+◌, ◌-◌, ◌*◌, ◌^◌, ◌<◌, ◌≤◌, ◌≡◌, refl, arith, Option, none, some, List, [], ◌∷◌,
  if◌then◌else◌, ◌==◌, ltb, update, ◌>>=◌, Bool-cases, inl, inr, ◌⊎◌, subst,
}
use optimal_execution_platfo.Core.IdIndex.{
  IdIndex, vacant, double_until, round_up_pow2, new, insert_id, lookup_and_erase_id,
}
use optimal_execution_platfo.Core.IdIndex.Table.{used, Models}
use optimal_execution_platfo.Core.IdIndex.Erase.{held, forget}
use native.Mathlib.Nat.{pow-suc}

tight_step :
    (i n k : ℕ) → 2 ^ suc i ≡ 2 ^ i * 2 → 2 ^ i < n → (k ≡ suc i) ⊎ (2 ^ k < 2 * n) → 2 ^ k < 2 * n
tight_step i n k twice small (inl e) = rw (e, twice) (omega arith)
tight_step i n k twice small (inr lt) = lt

tight_end : (n k : ℕ) → 0 < n → (k ≡ 0) ⊎ (2 ^ k < 2 * n) → 2 ^ k < 2 * n
tight_end n k pos (inl e) = rw e (omega arith)
tight_end n k pos (inr lt) = lt

double_until-pow2 :
    (fuel i m n : ℕ)
    → i + fuel ≡ m
    → 0 < n
    → n ≤ 2 ^ m
    → (k : ℕ) × (double_until fuel (2 ^ i) n ≡ 2 ^ k)
      × (i ≤ k)
      × (k ≤ m)
      × (n ≤ 2 ^ k)
      × ((k ≡ i) ⊎ (2 ^ k < 2 * n))
unfolding double_until
double_until-pow2 zero i m n e pos h =
    let same : m ≡ i = omega arith in
    (i, refl, omega arith, omega arith, subst (λ j. n ≤ 2 ^ j) same h, inl refl)
double_until-pow2 (suc fuel) i m n e pos h = elim (Bool-cases (ltb (2 ^ i) n)) [
  | inr enough ↦ (i, rw enough, omega arith, omega arith, ground arith, inl refl)
  | inl small ↦
      let (k, run, lo, hi, up, tight) = double_until-pow2 fuel (suc i) m n (omega arith) pos h in
      let twice = pow-suc 2 i in
      (
        k,
        rw (small, ← twice) run,
        omega arith,
        hi,
        up,
        inr (tight_step i n k twice (ground arith) tight),
      )
]

-- `RoundUpPow2` of a number up to `2 ^ 63` is the least power of two that is not below it.
pub round_up_pow2_lem :
    (n : ℕ)
    → 0 < n
    → n ≤ 2 ^ 63
    → (k : ℕ) × (round_up_pow2 n ≡ 2 ^ k) × (k ≤ 63) × (n ≤ 2 ^ k) × (2 ^ k < 2 * n)
unfolding round_up_pow2
round_up_pow2_lem n pos h =
    let (k, run, lo, hi, up, tight) = double_until-pow2 63 0 63 n refl pos h in
    (k, run, hi, up, tight_end n k pos tight)

bits_pos : (k : ℕ) → 2 ≤ 2 ^ k → 1 ≤ k
bits_pos zero h = absurd (omega arith)
bits_pos (suc k) h = omega arith

no_entry : (n : ℕ) → used (λ _. vacant) n ≡ 0
unfolding used
no_entry zero = refl
no_entry (suc n) = omega (arith, no_entry n)

-- The constructor's table is empty, and has at least twice as many slots as there can be orders.
pub new-Models :
    (order_capacity : ℕ)
    → order_capacity ≤ 2 ^ 62
    → Models (new order_capacity) (λ _. none) 0
      × (2 * order_capacity ≤ (new order_capacity).capacity)
      × (2 ≤ (new order_capacity).capacity)
unfolding new
new-Models order_capacity h =
    let orders = if order_capacity == 0 then 1 else order_capacity in
    let pos : 0 < orders = ground arith in
    let few : orders * 2 ≤ 2 ^ 63 = ground arith in
    let (k, size, wide, up, _) = round_up_pow2_lem (orders * 2) (omega arith) few in
    let some_bits : 1 ≤ k = bits_pos k (omega arith) in
    (
      record {
        sized = record { bits = k; wide = wide; two = some_bits; size = size; masks = refl };
        reaches = λ i j hi hj a lt. cc a;
        sound = λ i o hi e. cc e;
        placed = λ id o e. absurd (cc e);
        unique = λ i j hi hj a b e. cc a;
        load = no_entry _;
      },
      rw size (ground arith),
      rw size (omega arith),
    )

-- What the book does with the table.
pub data Call : Type 0 where
  insert : (id o : ℕ) → Call
  erase : (id : ℕ) → Call

abbrev pub run : IdIndex → List Call → Option IdIndex
run t [] = some t
run t (insert id o ∷ cs) = do t' ← insert_id t id o; run t' cs
run t (erase id ∷ cs) = do (p, t') ← lookup_and_erase_id t id; run t' cs

-- The same calls on a finite map.
abbrev pub run_map : (ℕ → Option ℕ) → List Call → ℕ → Option ℕ
run_map f [] = f
run_map f (insert id o ∷ cs) = run_map (update f id (some o)) cs
run_map f (erase id ∷ cs) = run_map (forget f id) cs

-- Ids are inserted while absent, and with fewer than `limit` entries in the table.
abbrev pub IsOrderly : ℕ → (ℕ → Option ℕ) → ℕ → List Call → Type 0
IsOrderly limit f size [] = Unit
IsOrderly limit f size (insert id o ∷ cs) =
    (f id ≡ none) × (size < limit) × IsOrderly limit (update f id (some o)) (size + 1) cs
IsOrderly limit f size (erase id ∷ cs) = IsOrderly limit (forget f id) (size - held (f id)) cs
