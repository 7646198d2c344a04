-- ===== src/Examples/Settings.antt =====
-- The theorems about src/conf.c at concrete settings.
use nodogsplash.Prelude.{List, [], false, none, refl, true, ℕ, ◌↔◌, ◌∷◌, ◌≡◌, ◌≤◌, ◌⊎◌}
use nodogsplash.CString.{CString, codes, str_case_eq}
use nodogsplash.Conf.DebugLevel.{set_debuglevel, set_debuglevel_cases}
use nodogsplash.Conf.MacList.{
  add_fields, add_to_trusted_mac_list, has_case_entry, is_mac_char, is_separator, is_trusted_mac,
  parse_blocked_mac_list, parse_trusted_mac_list, remove_from_trusted_mac_list, scan_mac,
  split_fields,
}
use nodogsplash.Conf.MacList.Parsing.{has_bad_field, parse-IsUnique, parse_blocked_exits}
use nodogsplash.Conf.MacList.Roundtrip.{other_case_is_stuck, remove-add, remove_is_effective}
use nodogsplash.Conf.MacList.Unique.{
  IsUnique, MacOp, adding, apply_op, is_listed, parse_list, removing, run_ops, run_ops-IsUnique,
  trusted,
}
use nodogsplash.Config.{Config}
use nodogsplash.Examples.{calm, mac_a, sample_config}

sample_config-IsUnique : IsUnique sample_config
sample_config-IsUnique = record { on_trusted = tt; on_blocked = tt; on_allowed = tt }

abbrev trusting : Config
trusting = record sample_config { trustedmaclist = mac_a ∷ [] }

trusting-IsUnique : IsUnique trusting
unfolding has_case_entry
trusting-IsUnique = record { on_trusted = (refl, tt); on_blocked = tt; on_allowed = tt }

abbrev some_ops : List (MacOp × CString)
some_ops = (adding trusted, mac_a) ∷ (adding trusted, codes "AA:AA:AA:AA:AA:AA") ∷ []

run_ops-IsUnique_example : IsUnique (run_ops calm sample_config some_ops)
run_ops-IsUnique_example = run_ops-IsUnique calm sample_config some_ops sample_config-IsUnique

remove-add_example :
    apply_op calm (removing trusted) (apply_op calm (adding trusted) sample_config mac_a).0 mac_a
    ≡ (sample_config, 0)
unfolding apply_op add_to_trusted_mac_list has_case_entry
remove-add_example = remove-add calm trusted sample_config mac_a refl

remove_is_effective_example :
    is_listed trusted (apply_op calm (removing trusted) trusting mac_a).0 (scan_mac 17 mac_a)
    ≡ false
unfolding apply_op remove_from_trusted_mac_list scan_mac has_case_entry str_case_eq is_mac_char
remove_is_effective_example = remove_is_effective calm trusted trusting mac_a trusting-IsUnique refl

other_case_is_stuck_example :
    (is_trusted_mac trusting (scan_mac 17 (codes "AA:AA:AA:AA:AA:AA")) ≡ false)
    × (add_to_trusted_mac_list calm trusting (codes "AA:AA:AA:AA:AA:AA") ≡ (trusting, 1))
unfolding scan_mac str_case_eq is_mac_char
other_case_is_stuck_example =
    other_case_is_stuck calm trusting mac_a (codes "AA:AA:AA:AA:AA:AA") refl refl (λ e. cc)

parse_blocked_exits_example :
    (parse_blocked_mac_list calm sample_config (codes "nonsense") ≡ none)
    ↔ (has_bad_field calm (split_fields [] (codes "nonsense")) ≡ true)
parse_blocked_exits_example = parse_blocked_exits calm sample_config (codes "nonsense") refl

parse-IsUnique_example : IsUnique trusting
unfolding parse_list parse_trusted_mac_list add_fields split_fields is_separator
    add_to_trusted_mac_list has_case_entry scan_mac is_mac_char
parse-IsUnique_example =
    parse-IsUnique calm trusted sample_config trusting mac_a sample_config-IsUnique refl

set_debuglevel_cases_example :
    (set_debuglevel sample_config (codes "2") ≡ (sample_config, 1))
    ⊎ ((level : ℕ) × (level ≤ 3)
        × (set_debuglevel sample_config (codes "2")
            ≡ (record sample_config { debuglevel = level }, 0)))
set_debuglevel_cases_example = set_debuglevel_cases sample_config (codes "2")
