-- ===== src/Core/IdIndex/Cycle.antt =====
-- Distances round a table of `n` slots, and the masked word arithmetic that computes them.
use optimal_execution_platfo.Common.{
  ℕ, ◌+◌, ◌-◌, ◌^◌, ◌<◌, ◌≤◌, ◌≡◌, ◌≢◌, ◌⊎◌, ◌∙◌, ap, arith, leb, ◌==◌, if◌then◌else◌,
}
use optimal_execution_platfo.Common.Words.{bit_and-mask, succ-mask, diff-mask, pow-pos}
use native.Mathlib.Nat.{mod-lt, pow-le-pow_right}
use optimal_execution_platfo.Core.IdIndex.{IdIndex, mix_id, home, next_slot, distance}

module _ (n : ℕ) where
  -- the number of steps forward from slot `a` to slot `b`
  unfoldable pub dist : ℕ → ℕ → ℕ
  dist a b = if leb a b then b - a else b + n - a

  unfoldable pub succ : ℕ → ℕ
  succ a = if a + 1 == n then 0 else a + 1

  pub dist_self : (a : ℕ) → dist a a ≡ 0
  unfolding dist
  dist_self a = ground arith

  pub succ-lt : (a : ℕ) → a < n → succ a < n
  unfolding succ
  succ-lt a h = ground arith

  module _ (a b : ℕ) (ha : a < n) (hb : b < n) where
    pub dist-lt : dist a b < n
    unfolding dist
    dist-lt = ground arith

    pub eq_of_dist : dist a b ≡ 0 → a ≡ b
    unfolding dist
    eq_of_dist h = ground arith

    -- One step further is one more, or comes back to the start.
    pub dist-succ :
        ((dist a (succ b) ≡ dist a b + 1) × (dist a b + 1 < n))
        ⊎ ((dist a (succ b) ≡ 0) × (dist a b + 1 ≡ n))
    unfolding dist succ
    dist-succ = ground arith

    -- A way over a third slot is direct, or one turn longer.
    pub dist-triangle :
        (c : ℕ) → c < n → (dist a b + dist b c ≡ dist a c) ⊎ (dist a b + dist b c ≡ dist a c + n)
    unfolding dist
    dist-triangle c hc = ground arith

    -- A step towards another slot is one less to go.
    pub dist-step : a ≢ b → 2 ≤ n → dist (succ a) b + 1 ≡ dist a b
    unfolding dist succ
    dist-step ne two = ground arith

  pub dist_injective : (a : ℕ) → a < n → (b c : ℕ) → b < n → c < n → dist a b ≡ dist a c → b ≡ c
  unfolding dist
  dist_injective a ha b c hb hc e = ground arith

-- The table has a power of two of slots, and the mask that belongs to it.
pub record IsSized (t : IdIndex) : Type 0 where
  pub bits : ℕ
  pub wide : bits ≤ 63
  pub two : 1 ≤ bits
  pub size : t.capacity ≡ 2 ^ bits
  pub masks : t.mask ≡ t.capacity - 1

module _ {t : IdIndex} (z : IsSized t) where
  mask-eq : t.mask ≡ 2 ^ z.bits - 1
  mask-eq = z.masks ∙ ap (λ c. c - 1) z.size

  pub home-lt : (id : ℕ) → home t id < t.capacity
  unfolding home
  home-lt id =
      rw (mask-eq, z.size, bit_and-mask z.bits (mix_id id)) (mod-lt (mix_id id) (pow-pos z.bits))

  pub next_slot-succ : (a : ℕ) → a < t.capacity → next_slot t a ≡ succ t.capacity a
  unfolding succ
  next_slot-succ a h = rw (mask-eq, z.size) (succ-mask z.bits a a z.wide (rw z.size at h))

  pub distance-dist :
      (a b : ℕ) → a < t.capacity → b < t.capacity → distance t a b ≡ dist t.capacity a b
  unfolding dist
  distance-dist a b ha hb =
      rw (mask-eq, z.size) (diff-mask z.bits a b z.wide (rw z.size at ha) (rw z.size at hb))

  pub two-le : 2 ≤ t.capacity
  two-le = rw z.size (pow-le-pow_right {n = 2} (omega arith) {i = 1} z.two)
