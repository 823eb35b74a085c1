-- ===== src/Main/Config/Settings.antt =====
-- What `ParseArgs` reads from any sequence of settings.
use optimal_execution_platfo.Common.{ℕ, ◌<◌, ◌≡◌, refl, ap, ◌∙◌, u64_mod, List, [], ◌∷◌}
use optimal_execution_platfo.Common.Int.{ℤ}
use optimal_execution_platfo.External.Logger.{Bytes, codes, put_number, put_price}
use optimal_execution_platfo.Main.Config.{
  Config, default_config, help_flag, unknown_flag, flag_of, config, exits, set_port, set_value,
  lone_flag, and_then, parse_from, parse_args,
}
use optimal_execution_platfo.Main.Config.Numbers.{
  strtoull_10-put_number, strtoull_0-put_number, IsInt, atoi-put_price,
}

pub data Setting : Type 0 where
  host_is : Bytes → Setting
  port_is : ℤ → Setting
  ops_is seed_is : ℕ → Setting

-- A setting in words: its flag and its value.
abbrev pub flag_word : Setting → Bytes
flag_word (host_is h) = codes "--host"
flag_word (port_is p) = codes "--port"
flag_word (ops_is n) = codes "--ops"
flag_word (seed_is n) = codes "--seed"

abbrev pub value_word : Setting → Bytes
value_word (host_is h) = h
value_word (port_is p) = put_price p []
value_word (ops_is n) = put_number n []
value_word (seed_is n) = put_number n []

abbrev pub words : List Setting → List Bytes → List Bytes
words [] rest = rest
words (s ∷ ss) rest = flag_word s ∷ value_word s ∷ words ss rest

-- A port fits an `int`, the other numbers a 64-bit word.
abbrev pub InRange : Setting → Type 0
InRange (host_is h) = Unit
InRange (port_is p) = IsInt p
InRange (ops_is n) = n < u64_mod
InRange (seed_is n) = n < u64_mod

abbrev pub AllInRange : List Setting → Type 0
AllInRange [] = Unit
AllInRange (s ∷ ss) = InRange s × AllInRange ss

-- A later setting of the same field wins.
abbrev pub adjust : Config → Setting → Config
adjust cfg (host_is h) = record cfg { host = h }
adjust cfg (port_is p) = record cfg { port = p }
adjust cfg (ops_is n) = record cfg { ops = n }
adjust cfg (seed_is n) = record cfg { seed = n }

abbrev pub adjust_all : Config → List Setting → Config
adjust_all cfg [] = cfg
adjust_all cfg (s ∷ ss) = adjust_all (adjust cfg s) ss

set_value-adjust :
    (cfg : Config) (s : Setting)
    → InRange s
    → set_value cfg (flag_of (flag_word s)) (value_word s) ≡ config (adjust cfg s)
unfolding flag_of
set_value-adjust cfg (host_is h) fits = refl
set_value-adjust cfg (port_is p) fits = ap (set_port cfg) (atoi-put_price p fits)
set_value-adjust cfg (ops_is n) fits =
    ap (λ m. config (record cfg { ops = m })) (strtoull_10-put_number n fits)
set_value-adjust cfg (seed_is n) fits =
    ap (λ m. config (record cfg { seed = m })) (strtoull_0-put_number n fits)

parse_from-words :
    (ss : List Setting) (cfg : Config) (rest : List Bytes)
    → AllInRange ss
    → parse_from cfg (words ss rest) ≡ parse_from (adjust_all cfg ss) rest
unfolding parse_from
parse_from-words [] cfg rest fits = refl
parse_from-words (s ∷ ss) cfg rest (one, fits) =
    ap (λ o. and_then o (λ cfg'. parse_from cfg' (words ss rest))) (set_value-adjust cfg s one)
    ∙ parse_from-words ss (adjust cfg s) rest fits

-- A lone setting flag or an unknown word is an error, and a call for help is not.
lone-exits : (cfg : Config) (s : Setting) → parse_from cfg (flag_word s ∷ []) ≡ exits 2
unfolding parse_from flag_of
lone-exits cfg (host_is h) = refl
lone-exits cfg (port_is p) = refl
lone-exits cfg (ops_is n) = refl
lone-exits cfg (seed_is n) = refl

stray-exits :
    (cfg : Config) (a : Bytes) (rest : List Bytes)
    → flag_of a ≡ unknown_flag
    → parse_from cfg (a ∷ rest) ≡ exits 2
unfolding parse_from
stray-exits cfg a [] e = ap lone_flag e
stray-exits cfg a (v ∷ rest) e =
    ap (λ f. and_then (set_value cfg f v) (λ cfg'. parse_from cfg' rest)) e

help-exits :
    (cfg : Config) (a : Bytes) (rest : List Bytes)
    → flag_of a ≡ help_flag
    → parse_from cfg (a ∷ rest) ≡ exits 0
unfolding parse_from
help-exits cfg a [] e = ap lone_flag e
help-exits cfg a (v ∷ rest) e =
    ap (λ f. and_then (set_value cfg f v) (λ cfg'. parse_from cfg' rest)) e

-- After any settings whose numbers are in range, in any order and with repetitions, `ParseArgs` yields the
-- defaults with each setting applied in turn, so that the last one of a field wins. If a setting without
-- its value ends the command line, the program leaves with code 2; a word that is no flag after the
-- settings makes it leave with code 2, and a call for help with code 0, whatever follows.
pub parse_args-adjust_all :
    (ss : List Setting) (last : Setting) (stray help : Bytes) (rest : List Bytes)
    → AllInRange ss
    → flag_of stray ≡ unknown_flag
    → flag_of help ≡ help_flag
    → (parse_args (words ss []) ≡ config (adjust_all default_config ss))
      × (parse_args (words ss (flag_word last ∷ [])) ≡ exits 2)
      × (parse_args (words ss (stray ∷ rest)) ≡ exits 2)
      × (parse_args (words ss (help ∷ rest)) ≡ exits 0)
unfolding parse_from
parse_args-adjust_all ss last stray help rest fits s h =
    let cfg = adjust_all default_config ss in
    let after = λ (more : List Bytes). parse_from-words ss default_config more fits in
    (
      after [],
      after (flag_word last ∷ []) ∙ lone-exits cfg last,
      after (stray ∷ rest) ∙ stray-exits cfg stray rest s,
      after (help ∷ rest) ∙ help-exits cfg help rest h,
    )
