-- ===== src/Core/Ring/Window.antt =====
-- Slots of a ring: a window of at most its capacity of ever-growing positions, in words and slots.
use optimal_execution_platfo.Common.{
  ℕ, suc, ◌+◌, ◌-◌, ◌*◌, ◌/◌, ◌%◌, ◌^◌, ◌<◌, ◌≤◌, ◌≡◌, ◌≢◌, sym, ap, ◌∙◌, arith, bit_and, u64_mod,
  dec_lt,
}
use optimal_execution_platfo.Common.Words.{pow-pos, mod_unique, bit_and-mask, whole_turns}
use native.Mathlib.Nat.{mod-add-div, mod-lt, mul-le-mul_left}

factor : (p s q r : ℕ) → p * (s * q + r) ≡ p * s * q + p * r
factor p s q r = grind arith

gather : (a u x p s q r y : ℕ) → x + u * q ≡ a → y + p * r ≡ x → u ≡ p * s → a ≡ p * (s * q + r) + y
gather a u x p s q r y e e' e'' =
    let e₃ : u * q ≡ p * s * q = ap (λ v. v * q) e'' in omega (arith, factor p s q r)

-- A word of a position has the position's slot.
pub mod-word : (k a : ℕ) → k ≤ 63 → (a % u64_mod) % 2 ^ k ≡ a % 2 ^ k
mod-word k a wide =
    let (m, e) = whole_turns k wide in
    let d = mod-add-div a u64_mod in
    let d' = mod-add-div (a % u64_mod) (2 ^ k) in
    sym (
      mod_unique a (2 ^ k) (suc m * (a / u64_mod) + (a % u64_mod) / 2 ^ k) ((a % u64_mod) % 2 ^ k)
        (gather a u64_mod (a % u64_mod) (2 ^ k) (suc m) (a / u64_mod) ((a % u64_mod) / 2 ^ k)
          ((a % u64_mod) % 2 ^ k) d d' e)
        (mod-lt (a % u64_mod) (pow-pos k)))

pub slot-word : (k a : ℕ) → k ≤ 63 → bit_and (a % u64_mod) (2 ^ k - 1) ≡ a % 2 ^ k
slot-word k a wide = bit_and-mask k (a % u64_mod) ∙ mod-word k a wide

step : (n q : ℕ) → n * suc q ≡ n * q + n
step n q = grind arith

le_of_not : {a b : ℕ} → (a < b → ⊥) → b ≤ a
le_of_not {a} {b} h = omega arith

pub mod_apart : (i j n : ℕ) → 0 < n → i < j → j < i + n → i % n ≢ j % n
mod_apart i j n pos lt near e =
    let d = mod-add-div i n in
    let d' = mod-add-div j n in
    elim (dec_lt (i / n) (j / n)) [
      | yes up ↦ omega (arith, mul-le-mul_left n up, step n (i / n))
      | no same ↦ omega (arith, mul-le-mul_left n (le_of_not same))
    ]
