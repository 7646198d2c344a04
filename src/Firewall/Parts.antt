-- ===== src/Firewall/Parts.antt =====
-- src/fw_iptables.c: the commands of iptables_fw_init for the filter table, by the chain that they
-- add to.
use nodogsplash.Prelude.{
  Bool-cases, List, [], ap, arith, false, if◌then◌else◌, inl, inr, not, refl, true, ◌++◌, ◌==◌, ◌∙◌,
  ◌∷◌, ◌≡◌,
}
use nodogsplash.CString.{codes}
use nodogsplash.Conf.Options.{Settings}
use nodogsplash.Conf.Rulesets.{get_ruleset_list, is_empty_ruleset}
use nodogsplash.Config.{Config}
use nodogsplash.Firewall.Chains.{
  appended-append, appended-chain_commands-off, only_appends-append, only_appends-ruleset,
  rules_after-appended,
}
use nodogsplash.Firewall.Filter.{
  filter_chains, filter_commands, internet_rest, internet_rules, marked_users, mss_rules,
  router_rest, router_rules,
}
use nodogsplash.Firewall.Groups.{appended-marked_users-off, only_appends-marked_users}
use nodogsplash.Firewall.Packets.{appended, only_appends, rules_after, table_eq}
use nodogsplash.Firewall.Start.{MarkStyle, append_ruleset}
use nodogsplash.Netfilter.{
  Chain, SetUp, authenticated_users, chain_eq, drop_packet, every_packet, filter_table,
  forward_chain, has_mark, input_chain, invalid_state, reject_packet, to_internet, to_router,
  trusted_to_router, trusted_users,
}
use nodogsplash.World.{Marks}

module _ (m : Marks) (style : MarkStyle) (config : Config) (s : Settings) where
  unfoldable pub trusted_part : List SetUp
  trusted_part =
      marked_users style config s.rulesets (codes "trusted-users") to_internet trusted_users
        m.trusted

  unfoldable pub authenticated_part : List SetUp
  authenticated_part =
      marked_users style config s.rulesets (codes "authenticated-users") to_internet
        authenticated_users m.authenticated

  module _ (c : Chain) where
    appended-router_rest :
        chain_eq c to_router ≡ false → appended filter_table c (router_rest config s.rulesets) ≡ []
    unfolding router_rest appended table_eq
    appended-router_rest off =
        elim (Bool-cases (is_empty_ruleset s.rulesets (codes "users-to-router"))) [
          | inl empty ↦ rw (empty, off) refl
          | inr full ↦
              rw
                (
                  full,
                  appended-chain_commands-off c to_router
                      (get_ruleset_list s.rulesets (codes "users-to-router")) every_packet
                      (reject_packet (not (config.ip6 == 0))) off,
                )
                refl
        ]

    pub appended-router_rules :
        chain_eq c to_router ≡ false
        → chain_eq c trusted_to_router ≡ false
        → appended filter_table c (router_rules m style config s) ≡ []
    unfolding router_rules appended table_eq
    appended-router_rules off off' = rw off (
        appended-append filter_table c
          (marked_users style config s.rulesets (codes "trusted-users-to-router") to_router
            trusted_to_router m.trusted)
          (router_rest config s.rulesets)
        ∙ rw
            (
              appended-marked_users-off style config s.rulesets (codes "trusted-users-to-router")
                  to_router trusted_to_router m.trusted c off off',
              appended-router_rest off,
            )
            refl)

    only_appends-router_rest : only_appends filter_table c (router_rest config s.rulesets) ≡ true
    unfolding router_rest only_appends
    only_appends-router_rest =
        elim (Bool-cases (is_empty_ruleset s.rulesets (codes "users-to-router"))) [
          | inl empty ↦ rw empty refl
          | inr full ↦ rw full (
              only_appends-append filter_table c
                (append_ruleset filter_table (get_ruleset_list s.rulesets (codes "users-to-router"))
                  to_router)
                _
                (only_appends-ruleset filter_table c filter_table
                  (get_ruleset_list s.rulesets (codes "users-to-router")) to_router)
                refl)
        ]

    only_appends-router_rules :
        chain_eq c input_chain ≡ false
        → only_appends filter_table c (router_rules m style config s) ≡ true
    unfolding router_rules only_appends table_eq
    only_appends-router_rules off = rw off (
        only_appends-append filter_table c
          (marked_users style config s.rulesets (codes "trusted-users-to-router") to_router
            trusted_to_router m.trusted)
          (router_rest config s.rulesets)
          (only_appends-marked_users style config s.rulesets (codes "trusted-users-to-router")
            to_router trusted_to_router m.trusted c)
          only_appends-router_rest)

    only_appends-internet_rest :
        only_appends filter_table c (internet_rest config s.rulesets) ≡ true
    unfolding internet_rest only_appends
    only_appends-internet_rest =
        elim (Bool-cases (is_empty_ruleset s.rulesets (codes "preauthenticated-users"))) [
          | inl empty ↦ rw empty refl
          | inr full ↦ rw full (
              only_appends-append filter_table c
                (append_ruleset filter_table
                  (get_ruleset_list s.rulesets (codes "preauthenticated-users")) to_internet)
                _
                (only_appends-ruleset filter_table c filter_table
                  (get_ruleset_list s.rulesets (codes "preauthenticated-users")) to_internet)
                refl)
        ]

    only_appends-mss_rules : only_appends filter_table c (mss_rules s) ≡ true
    unfolding mss_rules only_appends
    only_appends-mss_rules = ground arith

    only_appends-internet_rules :
        chain_eq c forward_chain ≡ false
        → only_appends filter_table c (internet_rules m style config s) ≡ true
    unfolding internet_rules only_appends table_eq trusted_part authenticated_part
    only_appends-internet_rules off = rw off (
        only_appends-append filter_table c (mss_rules s) _ only_appends-mss_rules (
          only_appends-append filter_table c trusted_part _
            (only_appends-marked_users style config s.rulesets (codes "trusted-users") to_internet
              trusted_users m.trusted c)
            (only_appends-append filter_table c authenticated_part _
              (only_appends-marked_users style config s.rulesets (codes "authenticated-users")
                to_internet authenticated_users m.authenticated c)
              only_appends-internet_rest)))

    -- A chain of the module's own starts empty and is only appended to.
    pub rules_after-filter_commands :
        chain_eq c input_chain ≡ false
        → chain_eq c forward_chain ≡ false
        → chain_eq c to_router ≡ false
        → chain_eq c trusted_to_router ≡ false
        → rules_after filter_table c [] (filter_commands m style config s)
          ≡ appended filter_table c (internet_rules m style config s)
    unfolding filter_commands filter_chains rules_after
    rules_after-filter_commands i f r t =
        rules_after-appended filter_table c []
          (router_rules m style config s ++ internet_rules m style config s)
          (only_appends-append filter_table c (router_rules m style config s) _
            (only_appends-router_rules i) (only_appends-internet_rules f))
        ∙ appended-append filter_table c (router_rules m style config s) _
        ∙ ap (λ l. l ++ appended filter_table c (internet_rules m style config s))
            (appended-router_rules r t)

  module _ (c : Chain) where
    -- What the last part adds to a chain of users.
    pub appended-internet_rest :
        chain_eq c to_internet ≡ false
        → appended filter_table c (internet_rest config s.rulesets) ≡ []
    unfolding internet_rest appended table_eq
    appended-internet_rest off =
        elim (Bool-cases (is_empty_ruleset s.rulesets (codes "preauthenticated-users"))) [
          | inl empty ↦ rw (empty, off) refl
          | inr full ↦
              rw
                (
                  full,
                  appended-chain_commands-off c to_internet
                      (get_ruleset_list s.rulesets (codes "preauthenticated-users")) every_packet
                      (reject_packet (not (config.ip6 == 0))) off,
                )
                refl
        ]

    pub appended-mss_rules :
        chain_eq c to_internet ≡ false → appended filter_table c (mss_rules s) ≡ []
    unfolding mss_rules appended table_eq
    appended-mss_rules off = ground arith

    pub appended-internet_rules :
        appended filter_table c (internet_rules m style config s)
        ≡ (if chain_eq c to_internet
            then (has_mark m.blocked style.mask, drop_packet) ∷ (invalid_state, drop_packet) ∷ []
            else [])
          ++ (appended filter_table c (mss_rules s)
              ++ (appended filter_table c trusted_part
                  ++ (appended filter_table c authenticated_part
                      ++ appended filter_table c (internet_rest config s.rulesets))))
    unfolding internet_rules appended table_eq trusted_part authenticated_part
    appended-internet_rules =
        let rest =
          appended-append filter_table c (mss_rules s) _
          ∙ ap (λ l. appended filter_table c (mss_rules s) ++ l)
              (appended-append filter_table c trusted_part _
                ∙ ap (λ l. appended filter_table c trusted_part ++ l)
                    (appended-append filter_table c authenticated_part
                      (internet_rest config s.rulesets))) in
        elim (Bool-cases (chain_eq c to_internet)) [
          | inl at ↦ rw at (
              ap
                (λ l.
                  (has_mark m.blocked style.mask, drop_packet) ∷ (invalid_state, drop_packet) ∷ l)
                rest)
          | inr off ↦ rw off rest
        ]
