-- ===== src/Common/Words.antt =====
-- Machine words: `std::size_t` and `std::uint64_t` arithmetic, and masks by a power of two.
use Prim.Native.Nat.{
  ℕ, zero, suc, ◌+◌, ◌-◌, ◌*◌, ◌/◌, ◌%◌, ◌^◌, ◌≤◌, ◌<◌, min, bit_and, digits, bit_and-bitwise,
}
use mathlib.Core.Path.{◌≡◌, ap, ◌∙◌}
use native.Mathlib.Nat.{
  pow-suc, mod-eq_of_lt, mod-lt, mod-add-div, add-mul-mod_self_left, add_comm, pow-le-pow_right,
  add-zero, add-suc, pow-zero, mod_self,
}
use native.Mathlib.Omega.{arith}
use optimal_execution_platfo.Common.Tests.{◌==◌, if◌then◌else◌, leb}

abbrev pub u64_mod : ℕ
u64_mod = 2 ^ 64

-- `a + b`, `a - b` and `a * b` on unsigned 64-bit words.
abbrev pub add64 : ℕ → ℕ → ℕ
add64 a b = (a + b) % u64_mod

abbrev pub sub64 : ℕ → ℕ → ℕ
sub64 a b = (a + u64_mod - b) % u64_mod

abbrev pub mul64 : ℕ → ℕ → ℕ
mul64 a b = (a * b) % u64_mod

pub pow-pos : (k : ℕ) → 0 < 2 ^ k
pow-pos zero = omega arith
pow-pos (suc k) = rw pow-suc (omega (arith, pow-pos k))

-- The remainder is the number below `m` that is left of a multiple of `m`.
pub mod_unique : (a m q r : ℕ) → a ≡ m * q + r → r < m → a % m ≡ r
mod_unique a m q r e h = rw (e, add_comm (m * q) r, add-mul-mod_self_left) (mod-eq_of_lt h)

mod_double : (a p : ℕ) → 0 < p → a % (2 * p) ≡ (a / 2 % p) * 2 + a % 2
mod_double a p h =
    let e = mod-add-div (a / 2) p in
    mod_unique a (2 * p) (a / 2 / p) _ (grind (arith, e)) (omega (arith, mod-lt (a / 2) h))

-- Against a mask of `k` ones, the digit recursion behind `&` keeps the lowest `k` digits.
masked :
    (k rounds word : ℕ) → word ≤ rounds → digits (λ b. 0) min rounds word (2 ^ k - 1) ≡ word % 2 ^ k
masked k zero zero h = omega (arith, pow-pos k)
masked k (suc r) zero h = omega (arith, pow-pos k)
masked k zero (suc w) h = absurd (omega arith)
masked zero (suc r) (suc w) h = omega (arith, masked zero r (suc w / 2) (omega arith))
masked (suc k) (suc r) (suc w) h =
    let pos = pow-pos k in
    let double : 2 ^ suc k ≡ 2 * 2 ^ k = rw pow-suc (omega arith) in
    let half : (2 * 2 ^ k - 1) / 2 ≡ 2 ^ k - 1 = omega arith in
    rw (double, mod_double (suc w) (2 ^ k) pos, half, masked k r (suc w / 2) (omega arith))
      (omega arith)

-- `a & (2 ^ k - 1)` is the remainder of the division by `2 ^ k`.
pub bit_and-mask : (k a : ℕ) → bit_and a (2 ^ k - 1) ≡ a % 2 ^ k
bit_and-mask k a = rw (bit_and-bitwise a (2 ^ k - 1)) (masked k a a (omega arith))

pub pow-add : (a b : ℕ) → 2 ^ (a + b) ≡ 2 ^ a * 2 ^ b
pow-add a zero = rw (add-zero, pow-zero) (omega arith)
pow-add a (suc b) = rw (add-suc, pow-suc 2 (a + b), pow-suc 2 b, pow-add a b) (omega arith)

-- The words are a whole number of turns of a table of `2 ^ k` slots.
pub whole_turns : (k : ℕ) → k ≤ 63 → (m : ℕ) × (u64_mod ≡ 2 ^ k * suc m)
whole_turns k wide =
    let split : 64 ≡ k + (64 - k) = omega arith in
    let e : u64_mod ≡ 2 ^ k * 2 ^ (64 - k) = rw (← pow-add k (64 - k)) (ap (λ w. 2 ^ w) split) in
    let pos = pow-pos (64 - k) in (2 ^ (64 - k) - 1, e ∙ ap (λ w. 2 ^ k * w) (omega arith))

-- A mask drops the carry of a sum, and the borrow of a difference of two numbers below it.
module _ (k a b : ℕ) (wide : k ≤ 63) (ha : a < 2 ^ k) where
  pub succ-mask : bit_and (add64 a 1) (2 ^ k - 1) ≡ (if a + 1 == 2 ^ k then 0 else a + 1)
  succ-mask =
      let le = pow-le-pow_right {n = 2} (omega arith) wide in
      rw (bit_and-mask k (add64 a 1), mod-eq_of_lt {n = a + 1} {m = u64_mod} (omega arith))
        (ground (arith, mod-eq_of_lt {n = a + 1} {m = 2 ^ k}, mod_self (2 ^ k)))

  pub diff-mask :
      b < 2 ^ k → bit_and (sub64 b a) (2 ^ k - 1) ≡ (if leb a b then b - a else b + 2 ^ k - a)
  diff-mask hb =
      let le = pow-le-pow_right {n = 2} (omega arith) wide in
      let (m, e) = whole_turns k wide in
      rw (bit_and-mask k (sub64 b a)) (
        ground (
          arith,
          mod_unique (b + u64_mod - a) u64_mod 1 (b - a),
          mod-eq_of_lt {n = b + u64_mod - a} {m = u64_mod},
          mod-eq_of_lt {n = b - a} {m = 2 ^ k},
          mod_unique (b + u64_mod - a) (2 ^ k) m (b + 2 ^ k - a),
        ))
