-- ===== src/Firewall/Groups.antt =====
-- src/fw_iptables.c: the commands of iptables_fw_init for a group of users, by the chain that they
-- add to.
-- The commands for a group of users, by the chain that they add to.
use nodogsplash.Prelude.{
  Bool-cases, List, [], false, if◌then◌else◌, inl, inr, not, refl, true, ℕ, ◌++◌, ◌==◌, ◌∷◌, ◌≡◌,
}
use nodogsplash.CString.{CString}
use nodogsplash.Conf.Rulesets.{
  Ruleset, get_empty_ruleset_policy, get_ruleset_list, is_empty_ruleset,
}
use nodogsplash.Config.{Config}
use nodogsplash.Firewall.Chains.{
  appended-chain_commands-off, appended-chain_commands-own, only_appends-append,
  only_appends-ruleset, ruleset_rules,
}
use nodogsplash.Firewall.Filter.{marked_users}
use nodogsplash.Firewall.Packets.{ChainRule, appended, only_appends, table_eq}
use nodogsplash.Firewall.Start.{MarkStyle, append_ruleset}
use nodogsplash.Netfilter.{
  Chain, Jump, accept_packet, by_policy, chain_eq, established_state, every_packet, filter_table,
  has_mark, reject_packet, to_chain,
}

unfoldable pub own_rules : Config → List Ruleset → CString → List ChainRule
own_rules config rs name =
    (established_state, accept_packet) ∷ ruleset_rules (get_ruleset_list rs name)
    ++ (every_packet, reject_packet (not (config.ip6 == 0))) ∷ []

unfoldable pub users_jump : List Ruleset → CString → Chain → Jump
unfolding is_empty_ruleset
users_jump rs name own =
    if is_empty_ruleset rs name then by_policy (get_empty_ruleset_policy rs name) else to_chain own

module _ (style : MarkStyle) (config : Config) (rs : List Ruleset) (name : CString) where
  module _ (chain own : Chain) (mark : ℕ) where
    module _ (c : Chain) where
      pub appended-marked_users-at :
          chain_eq c chain ≡ true
          → chain_eq c own ≡ false
          → appended filter_table c (marked_users style config rs name chain own mark)
            ≡ (has_mark mark style.mask, users_jump rs name own) ∷ []
      unfolding marked_users appended table_eq users_jump
      appended-marked_users-at at off = elim (Bool-cases (is_empty_ruleset rs name)) [
        | inl empty ↦ rw (empty, at) refl
        | inr full ↦
            rw
              (
                full,
                at,
                off,
                appended-chain_commands-off c own (get_ruleset_list rs name) every_packet
                    (reject_packet (not (config.ip6 == 0))) off,
              )
              refl
      ]

      pub appended-marked_users-own :
          chain_eq c chain ≡ false
          → chain_eq c own ≡ true
          → is_empty_ruleset rs name ≡ false
          → appended filter_table c (marked_users style config rs name chain own mark)
            ≡ own_rules config rs name
      unfolding marked_users appended table_eq own_rules
      appended-marked_users-own off at full =
          rw
            (
              full,
              at,
              off,
              appended-chain_commands-own c own (get_ruleset_list rs name) every_packet
                  (reject_packet (not (config.ip6 == 0))) at,
            )
            refl

      pub appended-marked_users-off :
          chain_eq c chain ≡ false
          → chain_eq c own ≡ false
          → appended filter_table c (marked_users style config rs name chain own mark) ≡ []
      unfolding marked_users appended table_eq
      appended-marked_users-off off off' = elim (Bool-cases (is_empty_ruleset rs name)) [
        | inl empty ↦ rw (empty, off) refl
        | inr full ↦
            rw
              (
                full,
                off,
                off',
                appended-chain_commands-off c own (get_ruleset_list rs name) every_packet
                    (reject_packet (not (config.ip6 == 0))) off',
              )
              refl
      ]

      pub only_appends-marked_users :
          only_appends filter_table c (marked_users style config rs name chain own mark) ≡ true
      unfolding marked_users only_appends
      only_appends-marked_users = elim (Bool-cases (is_empty_ruleset rs name)) [
        | inl empty ↦ rw empty refl
        | inr full ↦ rw full (
            only_appends-append filter_table c
              (append_ruleset filter_table (get_ruleset_list rs name) own) _
              (only_appends-ruleset filter_table c filter_table (get_ruleset_list rs name) own)
              refl)
      ]
