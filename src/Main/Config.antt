-- ===== src/Main/Config.antt =====
-- cpp/main/sim_runner.cpp: `ParseArgs` on the words of the command line after the program's name, with the
-- conversions of the C library that it calls. A word is the list of its bytes. `std::exit` ends the parse
-- with its code; a port that an `int` cannot hold is undefined in `std::atoi`.
pub mod Numbers
pub mod Settings
mod Tests
use optimal_execution_platfo.Common.{
  ℕ, ◌+◌, ◌-◌, ◌*◌, ◌%◌, ◌^◌, Option, none, some, Bool, true, false, ◌&&◌, ◌||◌, ltb, leb, ◌==◌,
  if◌then◌else◌, u64_mod, List, [], ◌∷◌,
}
use optimal_execution_platfo.Common.Int.{ℤ, pos, negsuc}
use optimal_execution_platfo.External.Logger.{Bytes, codes}

-- `isspace` of the "C" locale
abbrev pub is_space : ℕ → Bool
is_space c = (leb 9 c && leb c 13) || (c == b' ')

abbrev pub skip_spaces : Bytes → Bytes
skip_spaces [] = []
skip_spaces (c ∷ s) = let rest = skip_spaces s in if is_space c then rest else c ∷ s

-- An optional sign, and whether it is a minus.
abbrev pub take_sign : Bytes → Bool × Bytes
take_sign [] = (false, [])
take_sign (c ∷ s) =
    if c == b'-' then (true, s) else if c == b'+' then (false, s) else (false, c ∷ s)

-- The value of a digit or a letter, and 36 for another byte.
abbrev pub digit_value : ℕ → ℕ
digit_value c =
    if leb b'0' c && leb c b'9'
    then c - b'0'
    else if leb b'a' c && leb c b'z'
    then c - b'a' + 10
    else if leb b'A' c && leb c b'Z'
    then c - b'A' + 10
    else 36

-- The number that the longest prefix of digits makes, after `so_far`.
unfoldable pub scan_digits : (base so_far : ℕ) → Bytes → ℕ
scan_digits base so_far [] = so_far
scan_digits base so_far (c ∷ s) =
    let rest = scan_digits base (so_far * base + digit_value c) s in
    if ltb (digit_value c) base then rest else so_far

-- Base 0: 16 after "0x", 8 after "0", and 10 otherwise.
abbrev pub radix : Bytes → ℕ × Bytes
radix [] = (10, [])
radix (c ∷ []) = (10, c ∷ [])
radix (c ∷ d ∷ s) =
    if c == b'0'
    then if (d == b'x') || (d == b'X') then (16, s) else (8, c ∷ d ∷ s)
    else (10, c ∷ d ∷ s)

-- Out of range is `ULLONG_MAX`; a minus negates the word.
abbrev pub to_word : (negative : Bool) → (magnitude : ℕ) → ℕ
to_word negative m =
    if ltb m u64_mod then if negative then (u64_mod - m) % u64_mod else m else u64_mod - 1

-- `std::strtoull(s, nullptr, 10)`
abbrev pub strtoull_10 : Bytes → ℕ
strtoull_10 s =
    let (negative, t) = take_sign (skip_spaces s) in to_word negative (scan_digits 10 0 t)

-- `std::strtoull(s, nullptr, 0)`
abbrev pub strtoull_0 : Bytes → ℕ
strtoull_0 s =
    let (negative, t) = take_sign (skip_spaces s) in
    let (base, u) = radix t in to_word negative (scan_digits base 0 u)

abbrev pub to_int : (negative : Bool) → (magnitude : ℕ) → Option ℤ
to_int false m = if ltb m (2 ^ 31) then some (pos m) else none
to_int true m =
    if m == 0 then some (pos 0) else if leb m (2 ^ 31) then some (negsuc (m - 1)) else none

-- `std::atoi`
abbrev pub atoi : Bytes → Option ℤ
atoi s = let (negative, t) = take_sign (skip_spaces s) in to_int negative (scan_digits 10 0 t)

pub record Config : Type 0 where
  pub host : Bytes
  pub port : ℤ
  pub ops : ℕ
  pub seed : ℕ

abbrev pub default_config : Config
default_config = record {
  host = codes "localhost";
  port = pos 5010;
  ops = 100000;
  seed = 828927556286;
}

pub data Flag : Type 0 where
  host_flag port_flag ops_flag seed_flag help_flag unknown_flag : Flag

abbrev pub same_bytes : Bytes → Bytes → Bool
same_bytes [] [] = true
same_bytes [] (d ∷ t) = false
same_bytes (c ∷ s) [] = false
same_bytes (c ∷ s) (d ∷ t) = (c == d) && same_bytes s t

-- The chain of tests in `ParseArgs`.
unfoldable pub flag_of : Bytes → Flag
flag_of a =
    if same_bytes a (codes "--host")
    then host_flag
    else if same_bytes a (codes "--port")
    then port_flag
    else if same_bytes a (codes "--ops")
    then ops_flag
    else if same_bytes a (codes "--seed")
    then seed_flag
    else if same_bytes a (codes "--help") || same_bytes a (codes "-h")
    then help_flag
    else unknown_flag

pub data Parsed : Type 0 where
  config : Config → Parsed
  exits : (code : ℕ) → Parsed
  undefined : Parsed

abbrev pub set_port : Config → Option ℤ → Parsed
set_port cfg none = undefined
set_port cfg (some p) = config (record cfg { port = p })

-- An argument and the word after it, which the four settings take.
abbrev pub set_value : Config → Flag → Bytes → Parsed
set_value cfg host_flag v = config (record cfg { host = v })
set_value cfg port_flag v = set_port cfg (atoi v)
set_value cfg ops_flag v = config (record cfg { ops = strtoull_10 v })
set_value cfg seed_flag v = config (record cfg { seed = strtoull_0 v })
set_value cfg help_flag v = exits 0
set_value cfg unknown_flag v = exits 2

-- The last argument, which has no value after it.
abbrev pub lone_flag : Flag → Parsed
lone_flag host_flag = exits 2
lone_flag port_flag = exits 2
lone_flag ops_flag = exits 2
lone_flag seed_flag = exits 2
lone_flag help_flag = exits 0
lone_flag unknown_flag = exits 2

-- The loop goes on unless the program has left.
abbrev pub and_then : Parsed → (Config → Parsed) → Parsed
and_then (config cfg) next = next cfg
and_then (exits code) next = exits code
and_then undefined next = undefined

unfoldable pub parse_from : Config → List Bytes → Parsed
parse_from cfg [] = config cfg
parse_from cfg (a ∷ []) = lone_flag (flag_of a)
parse_from cfg (a ∷ v ∷ rest) = and_then (set_value cfg (flag_of a) v) λ cfg'. parse_from cfg' rest

abbrev pub parse_args : List Bytes → Parsed
parse_args argv = parse_from default_config argv
