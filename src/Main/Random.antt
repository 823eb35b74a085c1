-- ===== src/Main/Random.antt =====
-- cpp/main/sim_runner.cpp: `Xorshift64`, whose state is also the number that it returns.
use optimal_execution_platfo.Common.{
  ℕ, ◌*◌, ◌/◌, ◌%◌, ◌^◌, ◌==◌, Bool, not, bit_and, bit_xor, u64_mod,
}

-- `x << k` and `x >> k` of a 64-bit word.
abbrev shift_left : ℕ → ℕ → ℕ
shift_left x k = (x * 2 ^ k) % u64_mod

abbrev shift_right : ℕ → ℕ → ℕ
shift_right x k = x / 2 ^ k

-- `Xorshift64::Next`
unfoldable pub next_random : (state : ℕ) → ℕ
next_random state =
    let a = bit_xor state (shift_left state 13) in
    let b = bit_xor a (shift_right a 7) in bit_xor b (shift_left b 17)

-- `(x & 1) != 0`
unfoldable pub is_odd : ℕ → Bool
is_odd x = not (bit_and x 1 == 0)
