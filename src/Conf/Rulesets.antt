-- ===== src/Conf/Rulesets.antt =====
-- src/conf.c, src/conf.h: the firewall rulesets of the configuration, and the parser of a rule.
-- exit(1) is `none`.
use nodogsplash.Prelude.{
  Bool, List, Option, [], false, if◌then◌else◌, map, none, not, some, true, ◌&&◌, ◌++◌, ◌==◌, ◌||◌,
  ◌∷◌,
}
use nodogsplash.CString.{CString, codes, has_prefix, str_case_eq, str_eq, to_lower}
use nodogsplash.Conf.DebugLevel.{is_digit}
use nodogsplash.Conf.Lines.{Words, next_word}

pub data Target : Type 0 where
  target_drop target_reject target_accept target_log target_ulog : Target

pub record FirewallRule : Type 0 where
  pub target : Target
  pub protocol : Option CString
  pub port : Option CString
  pub mask : CString
  pub ipset : Option CString

pub record Ruleset : Type 0 where
  pub name : CString
  pub emptyrulesetpolicy : Option CString
  pub rules : List FirewallRule

unfoldable pub get_ruleset : List Ruleset → CString → Option Ruleset
get_ruleset [] name = none
get_ruleset (r ∷ rs) name = if str_eq r.name name then some r else get_ruleset rs name

abbrev blank_ruleset : CString → Ruleset
blank_ruleset name = record { name = name; emptyrulesetpolicy = none; rules = [] }

-- A new one is placed at the head.
unfoldable pub add_ruleset : List Ruleset → CString → List Ruleset
unfolding get_ruleset
add_ruleset rs name = elim (get_ruleset rs name) [ none ↦ blank_ruleset name ∷ rs | some r ↦ rs ]

-- A write through the pointer that get_ruleset returned.
unfoldable pub update_ruleset : CString → (Ruleset → Ruleset) → List Ruleset → List Ruleset
update_ruleset name f [] = []
update_ruleset name f (r ∷ rs) =
    if str_eq r.name name then f r ∷ rs else r ∷ update_ruleset name f rs

abbrev pub rules_of : Option Ruleset → List FirewallRule
rules_of none = []
rules_of (some r) = r.rules

abbrev pub get_ruleset_list : List Ruleset → CString → List FirewallRule
get_ruleset_list rs name = rules_of (get_ruleset rs name)

unfoldable pub is_empty_ruleset : List Ruleset → CString → Bool
is_empty_ruleset rs name = elim (get_ruleset_list rs name) [ [] ↦ true | r ∷ rest ↦ false ]

abbrev pub policy_of : Option Ruleset → Option CString
policy_of none = none
policy_of (some r) = r.emptyrulesetpolicy

abbrev pub get_empty_ruleset_policy : List Ruleset → CString → Option CString
get_empty_ruleset_policy rs name = policy_of (get_ruleset rs name)

-- The first word of a rule.
unfoldable pub read_target : CString → Option Target
read_target token =
    if str_case_eq token (codes "block")
    then some target_reject
    else if str_case_eq token (codes "drop")
    then some target_drop
    else if str_case_eq token (codes "allow")
    then some target_accept
    else if str_case_eq token (codes "log")
    then some target_log
    else if str_case_eq token (codes "ulog")
    then some target_ulog
    else none

-- The words are recognised by their first letters.
unfoldable pub starts_protocol : CString → Bool
starts_protocol s =
    has_prefix s (codes "tcp")
    || (has_prefix s (codes "udp") || (has_prefix s (codes "all") || has_prefix s (codes "icmp")))

unfoldable pub read_protocol : Words → Option CString × Words
unfolding next_word starts_protocol
read_protocol w =
    if starts_protocol w.left
    then (let (protocol, w') = next_word w in (some protocol, w'))
    else (none, w)

unfoldable pub has_ports : Option CString → Bool
has_ports none = false
has_ports (some s) = has_prefix s (codes "tcp") || has_prefix s (codes "udp")

-- Only digits or a colon, and only digits, dots or slashes.
unfoldable pub is_port : CString → Bool
unfolding is_digit
is_port [] = true
is_port (c ∷ s) = (is_digit c || c == b':') && is_port s

unfoldable pub is_mask : CString → Bool
unfolding is_digit
is_mask [] = true
is_mask (c ∷ s) = (is_digit c || (c == b'.' || c == b'/')) && is_mask s

unfoldable pub read_port : Option CString → Words → Option (Option CString × Words)
unfolding next_word has_ports is_port
read_port protocol w =
    if has_prefix w.left (codes "port")
    then (if has_ports protocol
        then (let (port, w') = next_word (next_word w).1 in
            if is_port port then some (some port, w') else none)
        else none)
    else some (none, w)

unfoldable pub read_ipset : Words → Option CString × Words
unfolding next_word
read_ipset w =
    if has_prefix w.left (codes "ipset")
    then (let (ipset, w') = next_word (next_word w).1 in (some ipset, w'))
    else (none, w)

abbrev pub any_address : CString
any_address = codes "0.0.0.0/0"

unfoldable pub read_mask : Words → Option CString
unfolding next_word is_mask
read_mask w =
    if w.finished
    then some any_address
    else (let (other_kw, w') = next_word w in
        if not (str_eq other_kw (codes "to")) || w'.finished
        then none
        else (let mask = (next_word w').0 in if is_mask mask then some mask else none))

unfoldable pub read_rest : Target → Words → Option FirewallRule
unfolding read_protocol read_port read_ipset read_mask
read_rest target w =
    let (protocol, w1) = read_protocol w in
    elim (read_port protocol w1) [
      | none ↦ none
      | some (port, w2) ↦
          let (ipset, w3) = read_ipset w2 in
          elim (read_mask w3) [
            | none ↦ none
            | some mask ↦ some (record {
              target = target;
              protocol = protocol;
              port = port;
              mask = mask;
              ipset = ipset;
            })
          ]
    ]

-- _parse_firewall_rule up to the record; tolower is applied to every character before.
unfoldable pub read_rule : CString → Option FirewallRule
unfolding read_target read_rest next_word
read_rule leftover =
    let (token, w) = next_word (record { left = map to_lower leftover; finished = false }) in
    elim (read_target token) [ none ↦ none | some target ↦ read_rest target w ]

-- The rule is added at the end.
unfoldable pub parse_firewall_rule : List Ruleset → CString → CString → Option (List Ruleset)
unfolding read_rule update_ruleset
parse_firewall_rule rs name leftover = elim (read_rule leftover) [
  | none ↦ none
  | some rule ↦ some (update_ruleset name (λ r. record r { rules = r.rules ++ rule ∷ [] }) rs)
]
