-- ===== src/Main/Config/Numbers.antt =====
-- The conversions of the C library read the decimal digits of a number back.
use optimal_execution_platfo.Common.{
  ℕ, zero, suc, ◌+◌, ◌*◌, ◌/◌, ◌%◌, ◌^◌, ◌<◌, ◌≤◌, ◌≡◌, ◌⊎◌, refl, sym, ap, ◌∙◌, inl, inr, arith,
  some, true, false, ◌&&◌, ltb, leb, ◌==◌, u64_mod, [], ◌∷◌, Bool-cases,
}
use optimal_execution_platfo.Common.Int.{ℤ, pos, negsuc}
use optimal_execution_platfo.External.Logger.{Bytes, digits_from, put_number, put_price}
use optimal_execution_platfo.Main.Config.{
  is_space, skip_spaces, take_sign, digit_value, scan_digits, radix, strtoull_10, strtoull_0, atoi,
}

digit_value-digit : (k : ℕ) → k < 10 → digit_value (b'0' + k) ≡ k
digit_value-digit k h =
    let digit : (leb b'0' (b'0' + k) && leb (b'0' + k) b'9') ≡ true = ground arith in
    rw digit (omega arith)

scan_digits-digit :
    (so_far k : ℕ) (s : Bytes)
    → k < 10
    → scan_digits 10 so_far ((b'0' + k) ∷ s) ≡ scan_digits 10 (so_far * 10 + k) s
unfolding scan_digits
scan_digits-digit so_far k s h =
    let small : ltb k 10 ≡ true = ground arith in rw (digit_value-digit k h, small) refl

scan_digits-digits_from :
    (f n : ℕ) (out : Bytes) → n < f → scan_digits 10 0 (digits_from f n out) ≡ scan_digits 10 n out
unfolding digits_from
scan_digits-digits_from zero n out h = absurd (omega arith)
scan_digits-digits_from (suc f) n out h = elim (Bool-cases (ltb n 10)) [
  | inl e ↦
      rw e (scan_digits-digit 0 n out (ground arith) ∙ ap (λ m. scan_digits 10 m out) (omega arith))
  | inr e ↦ rw e (
      scan_digits-digits_from f (n / 10) ((b'0' + n % 10) ∷ out) (ground arith)
      ∙ scan_digits-digit (n / 10) (n % 10) out (omega arith)
      ∙ ap (λ m. scan_digits 10 m out) (omega arith))
]

-- The text starts with a digit, which is not zero unless the number is.
abbrev Leads : ℕ → Bytes → Type 0
Leads n s = (c : ℕ) × (t : Bytes) × (s ≡ c ∷ t) × (b'0' ≤ c) × (c ≤ b'9') × ((n ≡ 0) ⊎ (b'0' < c))

digits_from-Leads : (f n : ℕ) (out : Bytes) → n < f → Leads n (digits_from f n out)
unfolding digits_from
digits_from-Leads zero n out h = absurd (omega arith)
digits_from-Leads (suc f) n out h = elim (Bool-cases (ltb n 10)) [
  | inl e ↦ (b'0' + n, out, rw e refl, omega arith, ground arith, ground arith)
  | inr e ↦
      let (c, t, same, low, high, first) =
        digits_from-Leads f (n / 10) ((b'0' + n % 10) ∷ out) (ground arith) in
      (c, t, rw e same, low, high, ground (arith, first))
]

-- A text that starts with a digit has no spaces and no sign before it.
unsigned_lem : (c : ℕ) (t : Bytes) → b'0' ≤ c → take_sign (skip_spaces (c ∷ t)) ≡ (false, c ∷ t)
unsigned_lem c t low =
    let wide : is_space c ≡ false = ground arith in
    let minus : (c == b'-') ≡ false = ground arith in
    let plus : (c == b'+') ≡ false = ground arith in rw (wide, minus, plus) refl

radix-decimal : (c : ℕ) (t : Bytes) → b'0' < c → radix (c ∷ t) ≡ (10, c ∷ t)
radix-decimal c [] h = refl
radix-decimal c (d ∷ t) h = let other : (c == b'0') ≡ false = ground arith in rw other refl

put_number-unsigned : (n : ℕ) → take_sign (skip_spaces (put_number n [])) ≡ (false, put_number n [])
put_number-unsigned n =
    let (c, t, same, low, _, _) = digits_from-Leads (suc n) n [] (omega arith) in
    rw same (unsigned_lem c t low)

scan_digits-put_number : (n : ℕ) → scan_digits 10 0 (put_number n []) ≡ n
unfolding scan_digits
scan_digits-put_number n = scan_digits-digits_from (suc n) n [] (omega arith)

pub strtoull_10-put_number : (n : ℕ) → n < u64_mod → strtoull_10 (put_number n []) ≡ n
strtoull_10-put_number n h =
    let fits : ltb n u64_mod ≡ true = ground arith in
    rw (put_number-unsigned n, scan_digits-put_number n, fits) refl

-- The number to the base that `radix` finds.
abbrev by_radix : ℕ × Bytes → ℕ
by_radix (base, u) = scan_digits base 0 u

by_radix-put_number : (n : ℕ) → by_radix (radix (put_number n [])) ≡ n
unfolding scan_digits digits_from
by_radix-put_number zero = refl
by_radix-put_number (suc n) =
    let (c, t, same, low, high, first) = digits_from-Leads (suc (suc n)) (suc n) [] (omega arith) in
    let big : b'0' < c = ground (arith, first) in
    ap (λ s. by_radix (radix s)) same
    ∙ ap by_radix (radix-decimal c t big)
    ∙ ap (scan_digits 10 0) (sym same)
    ∙ scan_digits-put_number (suc n)

pub strtoull_0-put_number : (n : ℕ) → n < u64_mod → strtoull_0 (put_number n []) ≡ n
strtoull_0-put_number n h =
    let fits : ltb n u64_mod ≡ true = ground arith in
    rw (put_number-unsigned n, by_radix-put_number n, fits) refl

-- The range of a 32-bit `int`
abbrev pub IsInt : ℤ → Type 0
IsInt (pos n) = n < 2 ^ 31
IsInt (negsuc n) = n < 2 ^ 31

pub atoi-put_price : (p : ℤ) → IsInt p → atoi (put_price p []) ≡ some p
atoi-put_price (pos n) h =
    let fits : ltb n (2 ^ 31) ≡ true = ground arith in
    rw (put_number-unsigned n, scan_digits-put_number n, fits) refl
atoi-put_price (negsuc n) h =
    let fits : leb (suc n) (2 ^ 31) ≡ true = ground arith in
    let not_zero : (suc n == 0) ≡ false = ground arith in
    rw (scan_digits-put_number (suc n), not_zero, fits) (ap (λ m. some (negsuc m)) (omega arith))
