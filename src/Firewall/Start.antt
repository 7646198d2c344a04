-- ===== src/Firewall/Start.antt =====
-- src/fw_iptables.c: iptables_fw_init, which sets the chains and rules up. Each call of
-- iptables_do_command in a row is an element of a list; their results are joined by `|=`.
use nodogsplash.Prelude.{
  Bool, List, Option, [], bit_or, drop, false, if◌then◌else◌, none, some, true, ℕ, ◌%◌, ◌*◌, ◌++◌,
  ◌+◌, ◌==◌, ◌^◌, ◌∷◌,
}
use nodogsplash.Prelude.Int32.{minus_one}
use nodogsplash.CString.{CString, codes, has_prefix}
use nodogsplash.Conf.DebugLevel.{skip_spaces, strtol_int}
use nodogsplash.Conf.Options.{Settings}
use nodogsplash.Conf.Rulesets.{FirewallRule, get_ruleset_list}
use nodogsplash.Config.{Config, mac_allow, mac_block}
use nodogsplash.Firewall.{
  interface_name, iptables_allow_mac, iptables_block_mac, iptables_do_command, iptables_trust_mac,
}
use nodogsplash.Firewall.Queues.{tc_init_tc}
use nodogsplash.Netfilter.{
  Chain, SetUp, Table, accept_packet, allowed_users, append_rule, blocked_users, by_target,
  comes_from, config_rule, delete_number, every_packet, filter_table, forward_chain, goes_to,
  has_mark, incoming, insert_rule, mangle_table, mark_packet, nat_table, new_chain, outgoing,
  postrouting, prerouting, reject_packet, return_packet, tcp_port, to_address, to_chain,
  trusted_users,
}
use nodogsplash.World.{Env, Marks, World, set_up}

-- sscanf(buf, "iptables v%d.%d.%d", ...), the words before the numbers being left out by the caller.
after_dot : CString → Option (ℕ × CString)
after_dot [] = none
after_dot (c ∷ s) = if c == b'.' then strtol_int s else none

version_of : Option (ℕ × CString) → ℕ
unfolding after_dot
version_of none = minus_one
version_of (some (major, rest)) = elim (after_dot rest) [
  | none ↦ minus_one
  | some (minor, rest') ↦ elim (after_dot rest') [
    | none ↦ minus_one
    | some (patch, rest'') ↦ (major * 10000 + minor * 100 + patch) % 2 ^ 32
  ]
]

after_v : CString → Option (ℕ × CString)
after_v [] = none
after_v (c ∷ s) = if c == b'v' then strtol_int s else none

-- What `iptables -V` prints, or `none` if it fails.
unfoldable pub get_iptables_version : Option CString → ℕ
unfolding version_of after_v
get_iptables_version none = minus_one
get_iptables_version (some buf) =
    if has_prefix buf (codes "iptables")
    then version_of (after_v (skip_spaces (drop 8 buf)))
    else minus_one

-- 1.4.17
abbrev pub min_iptables_version : ℕ
min_iptables_version = 10417

-- The strings `markop` and `markmask`: whether the operation is --or-mark, and the mask.
pub record MarkStyle : Type 0 where
  pub or_mark : Bool
  pub mask : Option ℕ

-- rc |= iptables_do_command(...), one after the other.
unfoldable pub run_set_up : Env → World → List SetUp → World × ℕ
run_set_up env w [] = (w, 0)
run_set_up env w (c ∷ cs) =
    let (w1, rc) = iptables_do_command env w (set_up c) in
    let (w2, rc') = run_set_up env w1 cs in (w2, bit_or rc rc')

-- A test rule is inserted and, if that worked, deleted.
unfoldable pub test_rule : Env → World → SetUp → SetUp → World × Bool
test_rule env w try undo =
    let (w1, rc) = iptables_do_command env w (set_up try) in
    if rc == 0 then ((iptables_do_command env w1 (set_up undo)).0, true) else (w1, false)

unfoldable pub iptables_check_mark_masking : Env → World → ℕ → World × MarkStyle
unfolding test_rule
iptables_check_mark_masking env w mask =
    let (w1, or_mark) =
      test_rule env w
        (insert_rule mangle_table prerouting 1 every_packet (mark_packet true w.marks.blocked))
        (delete_number mangle_table prerouting 1) in
    let (w2, masking) =
      test_rule env w1
        (insert_rule filter_table forward_chain 1 (has_mark w.marks.blocked (some mask))
          (reject_packet false))
        (delete_number filter_table forward_chain 1) in
    (w2, record { or_mark = or_mark; mask = if masking then some mask else none })

-- The rules of a ruleset in a chain: _iptables_compile of each.
unfoldable pub append_ruleset : Table → List FirewallRule → Chain → List SetUp
append_ruleset table [] chain = []
append_ruleset table (r ∷ rs) chain =
    append_rule table chain (config_rule r) (by_target r.target) ∷ append_ruleset table rs chain

-- The chains of the mangle table, and the jumps to them.
pub mangle_chains : CString → CString → List SetUp
mangle_chains interface iprange =
    new_chain mangle_table trusted_users
    ∷ new_chain mangle_table blocked_users
    ∷ new_chain mangle_table allowed_users
    ∷ new_chain mangle_table incoming
    ∷ new_chain mangle_table outgoing
    ∷ insert_rule mangle_table prerouting 1 (comes_from interface iprange) (to_chain outgoing)
    ∷ insert_rule mangle_table prerouting 2 (comes_from interface iprange) (to_chain blocked_users)
    ∷ insert_rule mangle_table prerouting 3 (comes_from interface iprange) (to_chain trusted_users)
    ∷ insert_rule mangle_table postrouting 1 (goes_to interface iprange) (to_chain incoming)
    ∷ []

-- The loops over the MAC lists.
unfoldable pub for_each_mac : (World → CString → World × ℕ) → World → List CString → World × ℕ
for_each_mac act w [] = (w, 0)
for_each_mac act w (mac ∷ macs) =
    let (w1, rc) = act w mac in let (w2, rc') = for_each_mac act w1 macs in (w2, bit_or rc rc')

-- The MAC mechanism, with the result so far.
unfoldable pub mac_rules : Env → World → MarkStyle → ℕ → World × ℕ
mac_rules env w style rc =
    if w.config.macmechanism == mac_block
    then (let (w1, rc1) = for_each_mac (iptables_block_mac env) w w.config.blockedmaclist in
        (w1, bit_or rc rc1))
    else if w.config.macmechanism == mac_allow
    then (let (w1, rc1) = run_set_up env w (
          append_rule mangle_table blocked_users every_packet
            (mark_packet style.or_mark w.marks.blocked)
          ∷ []) in
        let (w2, rc2) = for_each_mac (iptables_allow_mac env) w1 w.config.allowedmaclist in
        (w2, bit_or rc (bit_or rc1 rc2)))
    else (w, minus_one)

unfoldable pub mangle_part : Env → World → MarkStyle → Settings → ℕ → World × ℕ
unfolding mangle_chains for_each_mac mac_rules
mangle_part env w style s rc =
    let (w1, rc1) = run_set_up env w (mangle_chains (interface_name w.config) s.gw_iprange) in
    let (w2, rc2) = for_each_mac (iptables_trust_mac env) w1 w.config.trustedmaclist in
    let (w3, rc3) = mac_rules env w2 style (bit_or rc (bit_or rc1 rc2)) in
    let (w4, rc4) = tc_init_tc env w3 in
    if w.config.traffic_control == 0 then (w3, rc3) else (w4, bit_or rc3 rc4)

-- The nat table, for IPv4 only.
unfoldable pub nat_rules : Marks → MarkStyle → Config → Settings → List SetUp
unfolding append_ruleset
nat_rules m style config s =
    new_chain nat_table outgoing
      ∷ insert_rule nat_table prerouting 1 (comes_from (interface_name config) s.gw_iprange)
          (to_chain outgoing)
      ∷ append_rule nat_table outgoing (has_mark m.trusted style.mask) return_packet
      ∷ append_rule nat_table outgoing (has_mark m.authenticated style.mask) return_packet
      ∷ append_ruleset nat_table (get_ruleset_list s.rulesets (codes "preauthenticated-users"))
          outgoing
    ++ append_rule nat_table outgoing (tcp_port 80) (to_address config.gw_address)
      ∷ append_rule nat_table outgoing every_packet accept_packet
      ∷ []
