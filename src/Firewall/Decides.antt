-- ===== src/Firewall/Decides.antt =====
-- What the chain to_internet, as iptables_fw_init of src/fw_iptables.c sets it up, decides about a
-- packet.
use nodogsplash.Prelude.{
  Bool-cases, List, Option, [], ap, append-nil, arith, false, if◌then◌else◌, inl, inr, none, not,
  refl, some, ◌++◌, ◌==◌, ◌∙◌, ◌∷◌, ◌≡◌,
}
use nodogsplash.CString.{CString, codes}
use nodogsplash.Conf.Options.{Settings}
use nodogsplash.Conf.Rulesets.{
  FirewallRule, Target, get_ruleset_list, is_empty_ruleset, target_accept, target_drop, target_log,
  target_reject, target_ulog,
}
use nodogsplash.Config.{Config}
use nodogsplash.Firewall.Chains.{appended-chain_commands-own, ruleset_rules}
use nodogsplash.Firewall.Filter.{filter_commands, internet_rest, mss_rules}
use nodogsplash.Firewall.Groups.{
  appended-marked_users-at, appended-marked_users-off, appended-marked_users-own, own_rules,
  users_jump,
}
use nodogsplash.Firewall.Packets.{
  Packet, Verdict, accepted, act, after_chain, appended, matches, rejected, rules_after, table_eq,
  target_verdict, walk, walk-append,
}
use nodogsplash.Firewall.Parts.{
  appended-internet_rest, appended-internet_rules, appended-mss_rules, authenticated_part,
  rules_after-filter_commands, trusted_part,
}
use nodogsplash.Firewall.Promise.{
  chain_verdict, group_verdict, internet_verdict, others_verdict, rules_verdict,
}
use nodogsplash.Firewall.Start.{MarkStyle}
use nodogsplash.Netfilter.{
  Chain, authenticated_users, chain_eq, drop_packet, every_packet, filter_table, has_mark,
  invalid_state, reject_packet, to_internet, trusted_users,
}
use nodogsplash.World.{Marks}

walk-ruleset :
    (sub : Chain → Option Verdict) (p : Packet) (rs : List FirewallRule) (end : Option Verdict)
    → walk sub p none end (ruleset_rules rs) ≡ rules_verdict p rs end
unfolding walk matches act rules_verdict
walk-ruleset sub p [] end = refl
walk-ruleset sub p (r ∷ rs) end =
    let same : walk sub p none end (ruleset_rules rs) ≡ rules_verdict p rs end =
      walk-ruleset sub p rs end in
    rw same refl

target_verdict-settles :
    (t : Target) (after rest : Option Verdict)
    → after_chain after rest ≡ after
    → after_chain (target_verdict t after) rest ≡ target_verdict t after
unfolding target_verdict after_chain
target_verdict-settles target_drop after rest h = refl
target_verdict-settles target_reject after rest h = refl
target_verdict-settles target_accept after rest h = refl
target_verdict-settles target_log after rest h = h
target_verdict-settles target_ulog after rest h = h

-- A group's rules end with a verdict, so nothing leaves its chain.
after_chain-rules_verdict :
    (p : Packet) (rs : List FirewallRule) (v : Verdict) (rest : Option Verdict)
    → after_chain (rules_verdict p rs (some v)) rest ≡ rules_verdict p rs (some v)
unfolding after_chain rules_verdict target_verdict
after_chain-rules_verdict p [] v rest = refl
after_chain-rules_verdict p (r ∷ rs) v rest =
    let behind = after_chain-rules_verdict p rs v rest in
    elim (Bool-cases (p.fits r)) [
      | inl fits ↦
          rw fits (target_verdict-settles r.target (rules_verdict p rs (some v)) rest behind)
      | inr other ↦ rw other behind
    ]

module _ (m : Marks) (style : MarkStyle) (config : Config) (s : Settings) where
  trusted_chain :
      is_empty_ruleset s.rulesets (codes "trusted-users") ≡ false
      → rules_after filter_table trusted_users [] (filter_commands m style config s)
        ≡ own_rules config s.rulesets (codes "trusted-users")
  unfolding trusted_part authenticated_part chain_eq
  trusted_chain full =
      rules_after-filter_commands m style config s trusted_users refl refl refl refl
      ∙ appended-internet_rules m style config s trusted_users
      ∙ rw
          (
            appended-mss_rules m style config s trusted_users refl,
            appended-internet_rest m style config s trusted_users refl,
            appended-marked_users-off style config s.rulesets (codes "authenticated-users")
                to_internet authenticated_users m.authenticated trusted_users refl refl,
            appended-marked_users-own style config s.rulesets (codes "trusted-users") to_internet
                trusted_users m.trusted trusted_users refl refl full,
          )
          (append-nil _)

  authenticated_chain :
      is_empty_ruleset s.rulesets (codes "authenticated-users") ≡ false
      → rules_after filter_table authenticated_users [] (filter_commands m style config s)
        ≡ own_rules config s.rulesets (codes "authenticated-users")
  unfolding trusted_part authenticated_part chain_eq
  authenticated_chain full =
      rules_after-filter_commands m style config s authenticated_users refl refl refl refl
      ∙ appended-internet_rules m style config s authenticated_users
      ∙ rw
          (
            appended-mss_rules m style config s authenticated_users refl,
            appended-internet_rest m style config s authenticated_users refl,
            appended-marked_users-off style config s.rulesets (codes "trusted-users") to_internet
                trusted_users m.trusted authenticated_users refl refl,
            appended-marked_users-own style config s.rulesets (codes "authenticated-users")
                to_internet authenticated_users m.authenticated authenticated_users refl refl full,
          )
          (append-nil _)

  internet_chain :
      rules_after filter_table to_internet [] (filter_commands m style config s)
      ≡ (has_mark m.blocked style.mask, drop_packet)
        ∷ (invalid_state, drop_packet)
        ∷ (appended filter_table to_internet (mss_rules s)
            ++ (
              has_mark m.trusted style.mask,
              users_jump s.rulesets (codes "trusted-users") trusted_users,
            )
              ∷ (
                has_mark m.authenticated style.mask,
                users_jump s.rulesets (codes "authenticated-users") authenticated_users,
              )
              ∷ appended filter_table to_internet (internet_rest config s.rulesets))
  unfolding trusted_part authenticated_part chain_eq
  internet_chain =
      rules_after-filter_commands m style config s to_internet refl refl refl refl
      ∙ appended-internet_rules m style config s to_internet
      ∙ rw
          (
            appended-marked_users-at style config s.rulesets (codes "trusted-users") to_internet
                trusted_users m.trusted to_internet refl refl,
            appended-marked_users-at style config s.rulesets (codes "authenticated-users")
                to_internet authenticated_users m.authenticated to_internet refl refl,
          )
          refl

  walk-own_rules :
      (sub : Chain → Option Verdict) (p : Packet) (name : CString)
      → walk sub p none none (own_rules config s.rulesets name) ≡ (
          if p.established
          then some accepted
          else rules_verdict p (get_ruleset_list s.rulesets name) (some rejected))
  unfolding walk matches act own_rules
  walk-own_rules sub p name =
      let rest =
        walk-append sub p none none (ruleset_rules (get_ruleset_list s.rulesets name))
          ((every_packet, reject_packet (not (config.ip6 == 0))) ∷ [])
        ∙ walk-ruleset sub p (get_ruleset_list s.rulesets name) (some rejected) in
      ap (λ v. if p.established then some accepted else v) rest

  walk-mss_rules :
      (sub : Chain → Option Verdict) (p : Packet) (end : Option Verdict)
      → walk sub p none end (appended filter_table to_internet (mss_rules s)) ≡ end
  unfolding walk matches act appended mss_rules table_eq
  walk-mss_rules sub p end = ground arith

  act-users_jump :
      (sub : Chain → Option Verdict) (p : Packet) (name : CString) (own : Chain)
      (rest : Option Verdict)
      → (is_empty_ruleset s.rulesets name ≡ false
          → sub own ≡ (
              if p.established
              then some accepted
              else rules_verdict p (get_ruleset_list s.rulesets name) (some rejected)))
      → act sub none (users_jump s.rulesets name own) rest ≡ group_verdict p s.rulesets name rest
  unfolding act users_jump group_verdict after_chain
  act-users_jump sub p name own rest h =
      let behind = after_chain-rules_verdict p (get_ruleset_list s.rulesets name) rejected rest in
      elim (Bool-cases (is_empty_ruleset s.rulesets name)) [
        | inl empty ↦ rw empty refl
        | inr full ↦
            rw (full, h full)
              (elim (Bool-cases p.established) [
                | inl known ↦ rw known refl
                | inr new ↦ rw new behind
              ])
      ]

  walk-internet_rest :
      (sub : Chain → Option Verdict) (p : Packet)
      → walk sub p none none (appended filter_table to_internet (internet_rest config s.rulesets))
        ≡ others_verdict p s.rulesets
  unfolding walk matches act internet_rest others_verdict appended table_eq chain_eq
  walk-internet_rest sub p =
      elim (Bool-cases (is_empty_ruleset s.rulesets (codes "preauthenticated-users"))) [
        | inl empty ↦ rw empty refl
        | inr full ↦
            rw
              (
                full,
                appended-chain_commands-own to_internet to_internet
                    (get_ruleset_list s.rulesets (codes "preauthenticated-users")) every_packet
                    (reject_packet (not (config.ip6 == 0))) refl,
              )
              (walk-append sub p none none
                  (ruleset_rules (get_ruleset_list s.rulesets (codes "preauthenticated-users")))
                  ((every_packet, reject_packet (not (config.ip6 == 0))) ∷ [])
                ∙ walk-ruleset sub p (get_ruleset_list s.rulesets (codes "preauthenticated-users"))
                    (some rejected))
      ]

  module _ (p : Packet) where
    inner : Chain → Option Verdict
    inner own =
        walk (λ _. none) p none none
          (rules_after filter_table own [] (filter_commands m style config s))

    users : Option Verdict
    users =
        if p.carries m.authenticated style.mask
        then group_verdict p s.rulesets (codes "authenticated-users") (others_verdict p s.rulesets)
        else others_verdict p s.rulesets

    walk-internet_users :
        walk inner p none none (
          appended filter_table to_internet (mss_rules s)
          ++ (
            has_mark m.trusted style.mask,
            users_jump s.rulesets (codes "trusted-users") trusted_users,
          )
            ∷ (
              has_mark m.authenticated style.mask,
              users_jump s.rulesets (codes "authenticated-users") authenticated_users,
            )
            ∷ appended filter_table to_internet (internet_rest config s.rulesets))
        ≡ (if p.carries m.trusted style.mask
            then group_verdict p s.rulesets (codes "trusted-users") users
            else users)
    unfolding walk matches users inner
    walk-internet_users =
        walk-append inner p none none (appended filter_table to_internet (mss_rules s)) _
        ∙ walk-mss_rules inner p _
        ∙ rw
            (
              walk-internet_rest inner p,
              act-users_jump inner p (codes "authenticated-users") authenticated_users
                  (others_verdict p s.rulesets)
                  (λ full.
                    rw (authenticated_chain full)
                      (walk-own_rules (λ _. none) p (codes "authenticated-users"))),
              act-users_jump inner p (codes "trusted-users") trusted_users users (λ full.
                  rw (trusted_chain full) (walk-own_rules (λ _. none) p (codes "trusted-users"))),
            )
            refl

    -- Walking through the rules that the commands of iptables_fw_init leave in the chain to_internet,
    -- and in the chains it jumps to, gives every packet the verdict that the configuration promises:
    -- blocked and invalid packets are dropped; packets of trusted and of authenticated users get the
    -- policy of their ruleset if it is empty, and else pass if established, and else meet its rules and
    -- are rejected behind them; the others meet the preauthenticated ruleset and are rejected.
    pub to_internet_decides :
        chain_verdict (filter_commands m style config s) p to_internet
        ≡ internet_verdict m style.mask s.rulesets p
    unfolding chain_verdict internet_verdict walk matches act users inner
    to_internet_decides = rw (internet_chain) (elim (Bool-cases (p.carries m.blocked style.mask)) [
      | inl blocked_one ↦ rw blocked_one refl
      | inr fine ↦ rw fine (elim (Bool-cases p.invalid) [
        | inl bad ↦ rw bad refl
        | inr good ↦ rw good walk-internet_users
      ])
    ])
