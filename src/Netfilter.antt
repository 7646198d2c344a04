-- ===== src/Netfilter.antt =====
-- The parts of the iptables commands by which src/fw_iptables.c sets the firewall up and tears it
-- down: tables, chains, what a rule matches, where it jumps.
use nodogsplash.Prelude.{Bool, Option, ℕ, ◌==◌}
use nodogsplash.CString.{CString}
use nodogsplash.Conf.Rulesets.{FirewallRule, Target}

pub data Table : Type 0 where
  mangle_table nat_table filter_table : Table

-- The built-in chains, and the CHAIN_ names of src/fw_iptables.h.
pub data Chain : Type 0 where
  prerouting postrouting input_chain forward_chain : Chain
  to_internet to_router trusted_to_router outgoing incoming authenticated_users : Chain
  blocked_users allowed_users trusted_users : Chain

-- -i and -s, -o and -d, the mark with its mask (none where the kernel supports no masks), the states
-- of a connection, a SYN without the MSS option, TCP to a port, TCP with SYN and no RST, and a rule
-- of the configuration.
pub data Matcher : Type 0 where
  comes_from : CString → CString → Matcher
  goes_to : CString → CString → Matcher
  has_mark : ℕ → Option ℕ → Matcher
  invalid_state established_state bogus_syn tcp_syn every_packet : Matcher
  tcp_port : ℕ → Matcher
  config_rule : FirewallRule → Matcher

-- ACCEPT, DROP, RETURN, REJECT with a port-unreachable of ICMP or ICMP6, a chain, the policy of an
-- empty ruleset, the targets of a configured rule, DNAT, TCPMSS, and MARK with --or-mark or
-- --set-mark.
pub data Jump : Type 0 where
  accept_packet drop_packet return_packet clamp_mss : Jump
  reject_packet : Bool → Jump
  to_chain : Chain → Jump
  by_policy : Option CString → Jump
  by_target : Target → Jump
  to_address : CString → Jump
  set_mss_to : ℕ → Jump
  mark_packet : Bool → ℕ → Jump

-- -N, -A, -I with its position, -D with its position, -F and -X.
pub data SetUp : Type 0 where
  new_chain : Table → Chain → SetUp
  append_rule : Table → Chain → Matcher → Jump → SetUp
  insert_rule : Table → Chain → ℕ → Matcher → Jump → SetUp
  delete_number : Table → Chain → ℕ → SetUp
  flush_chain : Table → Chain → SetUp
  delete_chain : Table → Chain → SetUp

unfoldable pub chain_number : Chain → ℕ
chain_number prerouting = 0
chain_number postrouting = 1
chain_number input_chain = 2
chain_number forward_chain = 3
chain_number to_internet = 4
chain_number to_router = 5
chain_number trusted_to_router = 6
chain_number outgoing = 7
chain_number incoming = 8
chain_number authenticated_users = 9
chain_number blocked_users = 10
chain_number allowed_users = 11
chain_number trusted_users = 12

unfoldable pub chain_eq : Chain → Chain → Bool
unfolding chain_number
chain_eq a b = chain_number a == chain_number b
