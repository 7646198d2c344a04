-- ===== src/Firewall/Chains.antt =====
-- The rules that iptables_fw_init of src/fw_iptables.c leaves in the chains of the filter table.
use nodogsplash.Prelude.{
  Bool, Bool-cases, List, [], ap, append-nil, append_assoc, arith, false, if◌then◌else◌, inl, inr,
  map, not, refl, sym, true, ◌&&◌, ◌++◌, ◌∙◌, ◌∷◌, ◌≡◌,
}
use nodogsplash.Conf.Rulesets.{FirewallRule}
use nodogsplash.Firewall.Packets.{ChainRule, appended, only_appends, rules_after, table_eq}
use nodogsplash.Firewall.Start.{append_ruleset}
use nodogsplash.Netfilter.{
  Chain, Jump, Matcher, SetUp, Table, append_rule, by_target, chain_eq, config_rule, delete_chain,
  delete_number, filter_table, flush_chain, insert_rule, new_chain,
}

pub rules_after-appended :
    (t : Table) (c : Chain) (rules : List ChainRule) (cmds : List SetUp)
    → only_appends t c cmds ≡ true
    → rules_after t c rules cmds ≡ rules ++ appended t c cmds
unfolding rules_after only_appends appended
rules_after-appended t c rules [] h = sym (append-nil rules)
rules_after-appended t c rules (new_chain t' c' ∷ cmds) h = rules_after-appended t c rules cmds h
rules_after-appended t c rules (append_rule t' c' m j ∷ cmds) h =
    elim (Bool-cases (table_eq t t' && chain_eq c c')) [
      | inl same ↦ rw same (
          rules_after-appended t c (rules ++ (m, j) ∷ []) cmds h
          ∙ append_assoc rules ((m, j) ∷ []) (appended t c cmds))
      | inr other ↦ rw other (rules_after-appended t c rules cmds h)
    ]
rules_after-appended t c rules (insert_rule t' c' n m j ∷ cmds) h =
    elim (Bool-cases (table_eq t t' && chain_eq c c')) [
      | inl same ↦ cc (rw same at h)
      | inr other ↦ rw other (rules_after-appended t c rules cmds (ground (arith, other)))
    ]
rules_after-appended t c rules (delete_number t' c' n ∷ cmds) h =
    elim (Bool-cases (table_eq t t' && chain_eq c c')) [
      | inl same ↦ cc (rw same at h)
      | inr other ↦ rw other (rules_after-appended t c rules cmds (ground (arith, other)))
    ]
rules_after-appended t c rules (flush_chain t' c' ∷ cmds) h =
    elim (Bool-cases (table_eq t t' && chain_eq c c')) [
      | inl same ↦ cc (rw same at h)
      | inr other ↦ rw other (rules_after-appended t c rules cmds (ground (arith, other)))
    ]
rules_after-appended t c rules (delete_chain t' c' ∷ cmds) h = rules_after-appended t c rules cmds h

both_still : (a : Bool) {x y : Bool} → a && x ≡ true → (x ≡ true → y ≡ true) → a && y ≡ true
both_still true h f = f h
both_still false h f = h

module _ (t : Table) (c : Chain) where
  pub appended-append :
      (xs ys : List SetUp) → appended t c (xs ++ ys) ≡ appended t c xs ++ appended t c ys
  unfolding appended
  appended-append [] ys = refl
  appended-append (new_chain t' c' ∷ xs) ys = appended-append xs ys
  appended-append (append_rule t' c' m j ∷ xs) ys =
      elim (Bool-cases (table_eq t t' && chain_eq c c')) [
        | inl same ↦ rw same (ap (λ l. (m, j) ∷ l) (appended-append xs ys))
        | inr other ↦ rw other (appended-append xs ys)
      ]
  appended-append (insert_rule t' c' n m j ∷ xs) ys = appended-append xs ys
  appended-append (delete_number t' c' n ∷ xs) ys = appended-append xs ys
  appended-append (flush_chain t' c' ∷ xs) ys = appended-append xs ys
  appended-append (delete_chain t' c' ∷ xs) ys = appended-append xs ys

  pub only_appends-append :
      (xs ys : List SetUp)
      → only_appends t c xs ≡ true
      → only_appends t c ys ≡ true
      → only_appends t c (xs ++ ys) ≡ true
  unfolding only_appends
  only_appends-append [] ys h k = k
  only_appends-append (new_chain t' c' ∷ xs) ys h k = only_appends-append xs ys h k
  only_appends-append (append_rule t' c' m j ∷ xs) ys h k = only_appends-append xs ys h k
  only_appends-append (insert_rule t' c' n m j ∷ xs) ys h k =
      both_still (not (table_eq t t' && chain_eq c c')) h (λ h'. only_appends-append xs ys h' k)
  only_appends-append (delete_number t' c' n ∷ xs) ys h k =
      both_still (not (table_eq t t' && chain_eq c c')) h (λ h'. only_appends-append xs ys h' k)
  only_appends-append (flush_chain t' c' ∷ xs) ys h k =
      both_still (not (table_eq t t' && chain_eq c c')) h (λ h'. only_appends-append xs ys h' k)
  only_appends-append (delete_chain t' c' ∷ xs) ys h k = only_appends-append xs ys h k

  pub only_appends-ruleset :
      (t' : Table) (rs : List FirewallRule) (c' : Chain)
      → only_appends t c (append_ruleset t' rs c') ≡ true
  unfolding append_ruleset only_appends
  only_appends-ruleset t' [] c' = refl
  only_appends-ruleset t' (r ∷ rs) c' = only_appends-ruleset t' rs c'

-- A configured ruleset in a chain.
abbrev pub ruleset_rules : List FirewallRule → List ChainRule
ruleset_rules rs = map (λ r. (config_rule r, by_target r.target)) rs

pub appended-ruleset :
    (c c' : Chain) (rs : List FirewallRule)
    → appended filter_table c (append_ruleset filter_table rs c')
      ≡ (if chain_eq c c' then ruleset_rules rs else [])
unfolding appended append_ruleset table_eq
appended-ruleset c c' [] = ground arith
appended-ruleset c c' (r ∷ rs) =
    let rest = appended-ruleset c c' rs in
    elim (Bool-cases (chain_eq c c')) [
      | inl same ↦ rw same (ap (λ l. (config_rule r, by_target r.target) ∷ l) (rw same at rest))
      | inr other ↦ rw other (rw other at rest)
    ]

-- A ruleset and a last rule behind it, in a chain of their own.
module _ (c own : Chain) (rs : List FirewallRule) (m : Matcher) (j : Jump) where
  abbrev pub chain_commands : List SetUp
  chain_commands = append_ruleset filter_table rs own ++ append_rule filter_table own m j ∷ []

  pub appended-chain_commands-own :
      chain_eq c own ≡ true
      → appended filter_table c chain_commands ≡ ruleset_rules rs ++ (m, j) ∷ []
  unfolding appended table_eq
  appended-chain_commands-own at =
      appended-append filter_table c (append_ruleset filter_table rs own) _
      ∙ rw (appended-ruleset c own rs, at) refl

  pub appended-chain_commands-off :
      chain_eq c own ≡ false → appended filter_table c chain_commands ≡ []
  unfolding appended table_eq
  appended-chain_commands-off off =
      appended-append filter_table c (append_ruleset filter_table rs own) _
      ∙ rw (appended-ruleset c own rs, off) refl
