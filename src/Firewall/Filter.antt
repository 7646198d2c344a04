-- ===== src/Firewall/Filter.antt =====
-- src/fw_iptables.c: the filter table of iptables_fw_init, and the whole function.
use nodogsplash.Prelude.{List, Option, [], bit_or, if◌then◌else◌, not, ℕ, ◌++◌, ◌==◌, ◌||◌, ◌∷◌}
use nodogsplash.Prelude.Int32.{int_lt, is_neg, is_pos, minus_one}
use nodogsplash.CString.{CString, codes}
use nodogsplash.Conf.Options.{Settings}
use nodogsplash.Conf.Rulesets.{
  Ruleset, get_empty_ruleset_policy, get_ruleset_list, is_empty_ruleset,
}
use nodogsplash.Config.{Config}
use nodogsplash.Firewall.{interface_name}
use nodogsplash.Firewall.Marks.{iptables_init_marks, load_marks}
use nodogsplash.Firewall.Start.{
  MarkStyle, append_ruleset, get_iptables_version, iptables_check_mark_masking, mangle_part,
  min_iptables_version, nat_rules, run_set_up,
}
use nodogsplash.Netfilter.{
  Chain, SetUp, accept_packet, append_rule, authenticated_users, bogus_syn, by_policy, clamp_mss,
  comes_from, drop_packet, established_state, every_packet, filter_table, forward_chain, has_mark,
  input_chain, insert_rule, invalid_state, new_chain, reject_packet, set_mss_to, tcp_port, tcp_syn,
  to_chain, to_internet, to_router, trusted_to_router, trusted_users,
}
use nodogsplash.World.{Env, Marks, World}

-- The packets with the mark, in `chain`: the policy of an empty ruleset, or a chain of their own.
unfoldable pub marked_users :
    MarkStyle → Config → List Ruleset → CString → Chain → Chain → ℕ → List SetUp
unfolding is_empty_ruleset append_ruleset
marked_users style config rs name chain own mark =
    let icmp6 = not (config.ip6 == 0) in
    if is_empty_ruleset rs name
    then append_rule filter_table chain (has_mark mark style.mask)
        (by_policy (get_empty_ruleset_policy rs name))
      ∷ []
    else append_rule filter_table chain (has_mark mark style.mask) (to_chain own)
        ∷ append_rule filter_table own established_state accept_packet
        ∷ append_ruleset filter_table (get_ruleset_list rs name) own
      ++ append_rule filter_table own every_packet (reject_packet icmp6) ∷ []

-- The other packets to the router.
unfoldable pub router_rest : Config → List Ruleset → List SetUp
unfolding is_empty_ruleset append_ruleset
router_rest config rs =
    let name = codes "users-to-router" in
    if is_empty_ruleset rs name
    then append_rule filter_table to_router every_packet
        (by_policy (get_empty_ruleset_policy rs name))
      ∷ []
    else append_ruleset filter_table (get_ruleset_list rs name) to_router
      ++ append_rule filter_table to_router every_packet (reject_packet (not (config.ip6 == 0)))
        ∷ []

unfoldable pub router_rules : Marks → MarkStyle → Config → Settings → List SetUp
unfolding marked_users router_rest
router_rules m style config s =
    insert_rule filter_table input_chain 1 (comes_from (interface_name config) s.gw_iprange)
        (to_chain to_router)
      ∷ append_rule filter_table to_router (has_mark m.blocked style.mask) drop_packet
      ∷ append_rule filter_table to_router invalid_state drop_packet
      ∷ append_rule filter_table to_router established_state accept_packet
      ∷ append_rule filter_table to_router bogus_syn drop_packet
      ∷ append_rule filter_table to_router (tcp_port s.gw_port) accept_packet
      ∷ marked_users style config s.rulesets (codes "trusted-users-to-router") to_router
          trusted_to_router m.trusted
    ++ router_rest config s.rulesets

unfoldable pub mss_rules : Settings → List SetUp
mss_rules s =
    if s.set_mss == 0
    then []
    else if is_pos s.mss_value
    then append_rule filter_table to_internet tcp_syn (set_mss_to s.mss_value) ∷ []
    else append_rule filter_table to_internet tcp_syn clamp_mss ∷ []

-- The packets of preauthenticated users, and what is left.
unfoldable pub internet_rest : Config → List Ruleset → List SetUp
unfolding is_empty_ruleset append_ruleset
internet_rest config rs =
    let name = codes "preauthenticated-users" in
    (if is_empty_ruleset rs name
      then append_rule filter_table to_internet every_packet
          (by_policy (get_empty_ruleset_policy rs name))
        ∷ []
      else append_ruleset filter_table (get_ruleset_list rs name) to_internet)
    ++ append_rule filter_table to_internet every_packet (reject_packet (not (config.ip6 == 0)))
      ∷ []

unfoldable pub internet_rules : Marks → MarkStyle → Config → Settings → List SetUp
unfolding marked_users mss_rules internet_rest
internet_rules m style config s =
    insert_rule filter_table forward_chain 1 (comes_from (interface_name config) s.gw_iprange)
      (to_chain to_internet)
    ∷ append_rule filter_table to_internet (has_mark m.blocked style.mask) drop_packet
    ∷ append_rule filter_table to_internet invalid_state drop_packet
    ∷ (mss_rules s
        ++ (marked_users style config s.rulesets (codes "trusted-users") to_internet trusted_users
              m.trusted
            ++ (marked_users style config s.rulesets (codes "authenticated-users") to_internet
                  authenticated_users m.authenticated
                ++ internet_rest config s.rulesets)))

unfoldable pub filter_chains : List SetUp
filter_chains =
    new_chain filter_table to_internet
    ∷ new_chain filter_table to_router
    ∷ new_chain filter_table authenticated_users
    ∷ new_chain filter_table trusted_users
    ∷ new_chain filter_table trusted_to_router
    ∷ []

-- The commands for the filter table, in order.
unfoldable pub filter_commands : Marks → MarkStyle → Config → Settings → List SetUp
unfolding filter_chains router_rules internet_rules
filter_commands m style config s =
    filter_chains ++ (router_rules m style config s ++ internet_rules m style config s)

unfoldable pub filter_part : Env → World → MarkStyle → Settings → ℕ → World × ℕ
unfolding filter_commands
filter_part env w style s rc =
    let (w1, rc1) = run_set_up env w (filter_commands w.marks style w.config s) in
    (w1, bit_or rc rc1)

unfoldable pub nat_part : Env → World → MarkStyle → Settings → ℕ → World × ℕ
unfolding nat_rules
nat_part env w style s rc =
    if w.config.ip6 == 0
    then (let (w1, rc1) = run_set_up env w (nat_rules w.marks style w.config s) in
        (w1, bit_or rc rc1))
    else (w, rc)

-- The configuration of the world is the one of the settings; `mask` is FW_MARK_MASK before, and
-- `version` what `iptables -V` prints.
unfoldable pub iptables_fw_init : Env → World → Settings → ℕ → Option CString → World × ℕ
unfolding get_iptables_version iptables_check_mark_masking mangle_part nat_part filter_part
    iptables_init_marks load_marks
iptables_fw_init env w s mask version =
    let w0 = record w { marks = load_marks w.config w.marks } in
    let number = get_iptables_version version in
    let ((marks, mask'), rc) = iptables_init_marks w0.marks mask in
    let (w1, style) = iptables_check_mark_masking env (record w0 { marks = marks }) mask' in
    let (w2, rc2) = mangle_part env w1 style s rc in
    let (w3, rc3) = nat_part env w2 style s rc2 in
    if is_neg number || int_lt number min_iptables_version
    then (w0, minus_one)
    else filter_part env w3 style s rc3
