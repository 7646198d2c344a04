-- ===== src/Firewall/Promise.antt =====
-- The access to the internet that the configuration of src/conf.c promises, as a specification, and
-- what a chain of src/fw_iptables.c decides.
-- The rules of a group of users in order, as a specification.
use nodogsplash.Prelude.{List, Option, [], if◌then◌else◌, none, some, ℕ, ◌||◌, ◌∷◌}
use nodogsplash.CString.{CString, codes}
use nodogsplash.Conf.Rulesets.{
  FirewallRule, Ruleset, get_empty_ruleset_policy, get_ruleset_list, is_empty_ruleset,
}
use nodogsplash.Firewall.Packets.{
  Packet, Verdict, accepted, dropped, policy_verdict, rejected, rules_after, target_verdict, walk,
}
use nodogsplash.Netfilter.{Chain, SetUp, filter_table}
use nodogsplash.World.{Marks}

unfoldable pub rules_verdict : Packet → List FirewallRule → Option Verdict → Option Verdict
unfolding target_verdict
rules_verdict p [] rest = rest
rules_verdict p (r ∷ rs) rest =
    let after = rules_verdict p rs rest in if p.fits r then target_verdict r.target after else after

-- A group of users: the policy of an empty ruleset, or the rules, behind which everything is
-- rejected.
unfoldable pub group_verdict : Packet → List Ruleset → CString → Option Verdict → Option Verdict
unfolding is_empty_ruleset policy_verdict rules_verdict
group_verdict p rs name rest =
    if is_empty_ruleset rs name
    then policy_verdict (get_empty_ruleset_policy rs name) none rest
    else if p.established
    then some accepted
    else rules_verdict p (get_ruleset_list rs name) (some rejected)

-- The packets of the others.
unfoldable pub others_verdict : Packet → List Ruleset → Option Verdict
unfolding is_empty_ruleset policy_verdict rules_verdict
others_verdict p rs =
    let name = codes "preauthenticated-users" in
    if is_empty_ruleset rs name
    then policy_verdict (get_empty_ruleset_policy rs name) none (some rejected)
    else rules_verdict p (get_ruleset_list rs name) (some rejected)

-- The access to the internet that the configuration promises.
unfoldable pub internet_verdict : Marks → Option ℕ → List Ruleset → Packet → Option Verdict
unfolding group_verdict others_verdict
internet_verdict m mask rs p =
    let others = others_verdict p rs in
    let users =
      if p.carries m.authenticated mask
      then group_verdict p rs (codes "authenticated-users") others
      else others in
    if p.carries m.blocked mask || p.invalid
    then some dropped
    else if p.carries m.trusted mask
    then group_verdict p rs (codes "trusted-users") users
    else users

-- What the chain decides with the rules that the commands leave.
unfoldable pub chain_verdict : List SetUp → Packet → Chain → Option Verdict
unfolding walk rules_after
chain_verdict cmds p c =
    walk (λ own. walk (λ _. none) p none none (rules_after filter_table own [] cmds)) p none none
      (rules_after filter_table c [] cmds)
