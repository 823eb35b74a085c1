-- ===== src/Main/Config/Tests.antt =====
-- Command lines of the simulation.
use optimal_execution_platfo.Common.{◌≡◌, refl, arith, some, [], ◌∷◌}
use optimal_execution_platfo.Common.Int.{pos, negsuc}
use optimal_execution_platfo.External.Logger.{codes}
use optimal_execution_platfo.Main.Config.{
  scan_digits, strtoull_10, strtoull_0, atoi, default_config, flag_of, config, exits, parse_args,
}
use optimal_execution_platfo.Main.Config.Settings.{
  host_is, port_is, ops_is, seed_is, words, adjust_all, parse_args-adjust_all,
}

numbers_test :
    (strtoull_0 (codes "0xC0FFEEBABE") ≡ 828927556286)
    × (strtoull_0 (codes "010") ≡ 8)
    × (strtoull_10 (codes " -1x") ≡ 18446744073709551615)
    × (strtoull_10 (codes "99999999999999999999") ≡ 18446744073709551615)
    × (atoi (codes "-42") ≡ some (negsuc 41))
unfolding scan_digits
numbers_test = (refl, refl, refl, refl, refl)

parse_args-adjust_all_example :
    let ss =
      ops_is 500 ∷ host_is (codes "tp1") ∷ port_is (negsuc 0) ∷ seed_is 7 ∷ ops_is 900 ∷ [] in
    (parse_args (words ss []) ≡ config (adjust_all default_config ss))
    × (parse_args (words ss (codes "--port" ∷ [])) ≡ exits 2)
    × (parse_args (words ss (codes "--fast" ∷ codes "9" ∷ [])) ≡ exits 2)
    × (parse_args (words ss (codes "-h" ∷ codes "9" ∷ [])) ≡ exits 0)
unfolding flag_of
parse_args-adjust_all_example =
    parse_args-adjust_all
      (ops_is 500 ∷ host_is (codes "tp1") ∷ port_is (negsuc 0) ∷ seed_is 7 ∷ ops_is 900 ∷ [])
      (port_is (pos 1)) (codes "--fast") (codes "-h") (codes "9" ∷ [])
      (omega arith, (tt, (omega arith, (omega arith, (omega arith, tt))))) refl refl
