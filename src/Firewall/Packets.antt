-- ===== src/Firewall/Packets.antt =====
-- What iptables documents of its tables, as a specification: the rules that a list of commands of
-- src/fw_iptables.c leaves in a chain, and what a chain does with a packet.
use nodogsplash.Prelude.{
  Bool, List, Option, [], ap, drop, false, if◌then◌else◌, none, not, refl, some, take, true, ℕ,
  ◌&&◌, ◌++◌, ◌-◌, ◌∷◌, ◌≡◌,
}
use nodogsplash.CString.{CString, codes, str_eq}
use nodogsplash.Conf.Rulesets.{
  FirewallRule, Target, target_accept, target_drop, target_log, target_reject, target_ulog,
}
use nodogsplash.Netfilter.{
  Chain, Jump, Matcher, SetUp, Table, accept_packet, append_rule, bogus_syn, by_policy, by_target,
  chain_eq, clamp_mss, comes_from, config_rule, delete_chain, delete_number, drop_packet,
  established_state, every_packet, filter_table, flush_chain, goes_to, has_mark, insert_rule,
  invalid_state, mangle_table, mark_packet, nat_table, new_chain, reject_packet, return_packet,
  set_mss_to, tcp_port, tcp_syn, to_address, to_chain,
}

unfoldable pub table_eq : Table → Table → Bool
table_eq mangle_table mangle_table = true
table_eq nat_table nat_table = true
table_eq filter_table filter_table = true
table_eq _ _ = false

abbrev pub ChainRule : Type 0
ChainRule = Matcher × Jump

-- What one command makes of the rules of a chain.
pub command_effect : Table → Chain → List ChainRule → SetUp → List ChainRule
unfolding table_eq chain_eq
command_effect t c rules (new_chain t' c') = rules
command_effect t c rules (append_rule t' c' m j) =
    if table_eq t t' && chain_eq c c' then rules ++ (m, j) ∷ [] else rules
command_effect t c rules (insert_rule t' c' n m j) =
    if table_eq t t' && chain_eq c c'
    then take (n - 1) rules ++ (m, j) ∷ drop (n - 1) rules
    else rules
command_effect t c rules (delete_number t' c' n) =
    if table_eq t t' && chain_eq c c' then take (n - 1) rules ++ drop n rules else rules
command_effect t c rules (flush_chain t' c') = if table_eq t t' && chain_eq c c' then [] else rules
command_effect t c rules (delete_chain t' c') = rules

unfoldable pub rules_after : Table → Chain → List ChainRule → List SetUp → List ChainRule
unfolding command_effect
rules_after t c rules [] = rules
rules_after t c rules (cmd ∷ cmds) = rules_after t c (command_effect t c rules cmd) cmds

pub data Verdict : Type 0 where
  accepted dropped rejected redirected : Verdict

-- A packet by the tests that the rules make of it.
pub record Packet : Type 0 where
  pub comes : CString → CString → Bool
  pub goes : CString → CString → Bool
  pub carries : ℕ → Option ℕ → Bool
  pub invalid : Bool
  pub established : Bool
  pub bogus : Bool
  pub syn : Bool
  pub to_port : ℕ → Bool
  pub fits : FirewallRule → Bool

unfoldable pub matches : Packet → Matcher → Bool
matches p (comes_from i r) = p.comes i r
matches p (goes_to i r) = p.goes i r
matches p (has_mark m mask) = p.carries m mask
matches p invalid_state = p.invalid
matches p established_state = p.established
matches p bogus_syn = p.bogus
matches p tcp_syn = p.syn
matches p every_packet = true
matches p (tcp_port n) = p.to_port n
matches p (config_rule r) = p.fits r

-- The three policies; another word is no target, and iptables refuses the rule.
unfoldable pub policy_verdict : Option CString → Option Verdict → Option Verdict → Option Verdict
policy_verdict none leave rest = rest
policy_verdict (some word) leave rest =
    if str_eq word (codes "ACCEPT")
    then some accepted
    else if str_eq word (codes "REJECT")
    then some rejected
    else if str_eq word (codes "RETURN")
    then leave
    else rest

unfoldable pub target_verdict : Target → Option Verdict → Option Verdict
target_verdict target_drop rest = some dropped
target_verdict target_reject rest = some rejected
target_verdict target_accept rest = some accepted
target_verdict target_log rest = rest
target_verdict target_ulog rest = rest

-- A chain without a verdict is left, and the next rule behind the jump is tried.
unfoldable pub after_chain : Option Verdict → Option Verdict → Option Verdict
after_chain none rest = rest
after_chain (some v) rest = some v

-- What a matching rule does: `sub` is what the other chains do, `leave` the verdict behind this
-- chain, `rest` that of the rules that follow.
unfoldable pub act :
    (Chain → Option Verdict) → Option Verdict → Jump → Option Verdict → Option Verdict
unfolding policy_verdict target_verdict after_chain
act sub leave accept_packet rest = some accepted
act sub leave drop_packet rest = some dropped
act sub leave return_packet rest = leave
act sub leave clamp_mss rest = rest
act sub leave (reject_packet b) rest = some rejected
act sub leave (to_chain c) rest = after_chain (sub c) rest
act sub leave (by_policy word) rest = policy_verdict word leave rest
act sub leave (by_target t) rest = target_verdict t rest
act sub leave (to_address a) rest = some redirected
act sub leave (set_mss_to n) rest = rest
act sub leave (mark_packet b m) rest = rest

-- The rules in order; `end` is the verdict where they end.
unfoldable pub walk :
    (Chain → Option Verdict)
    → Packet
    → Option Verdict
    → Option Verdict
    → List ChainRule
    → Option Verdict
unfolding act matches
walk sub p leave end [] = end
walk sub p leave end ((m, j) ∷ rules) =
    let rest = walk sub p leave end rules in if matches p m then act sub leave j rest else rest

pub walk-append :
    (sub : Chain → Option Verdict) (p : Packet) (leave end : Option Verdict)
    (xs ys : List ChainRule)
    → walk sub p leave end (xs ++ ys) ≡ walk sub p leave (walk sub p leave end ys) xs
unfolding walk
walk-append sub p leave end [] ys = refl
walk-append sub p leave end ((m, j) ∷ xs) ys =
    ap (λ r. if matches p m then act sub leave j r else r) (walk-append sub p leave end xs ys)

-- The rules that commands of the kind -A add to a chain.
unfoldable pub appended : Table → Chain → List SetUp → List ChainRule
unfolding table_eq chain_eq
appended t c [] = []
appended t c (append_rule t' c' m j ∷ cmds) =
    let rest = appended t c cmds in if table_eq t t' && chain_eq c c' then (m, j) ∷ rest else rest
appended t c (_ ∷ cmds) = appended t c cmds

-- No command but -A is about the chain.
unfoldable pub only_appends : Table → Chain → List SetUp → Bool
unfolding table_eq chain_eq
only_appends t c [] = true
only_appends t c (insert_rule t' c' n m j ∷ cmds) =
    not (table_eq t t' && chain_eq c c') && only_appends t c cmds
only_appends t c (delete_number t' c' n ∷ cmds) =
    not (table_eq t t' && chain_eq c c') && only_appends t c cmds
only_appends t c (flush_chain t' c' ∷ cmds) =
    not (table_eq t t' && chain_eq c c') && only_appends t c cmds
only_appends t c (_ ∷ cmds) = only_appends t c cmds
