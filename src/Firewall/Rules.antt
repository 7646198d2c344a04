-- ===== src/Firewall/Rules.antt =====
-- src/fw_iptables.c: _iptables_compile, the text of the command for a configured rule, and the totals.
use nodogsplash.Prelude.{
  List, Option, [], ap, append-nil, arith, if◌then◌else◌, length, none, refl, some, suc, sym, take,
  zero, ℕ, ◌++◌, ◌-◌, ◌∷◌, ◌≡◌,
}
use nodogsplash.CString.{CString, codes, str_eq}
use nodogsplash.Conf.Rulesets.{
  FirewallRule, Target, target_accept, target_drop, target_log, target_reject, target_ulog,
}

unfoldable pub target_name : Target → CString
target_name target_drop = codes "DROP"
target_name target_reject = codes "REJECT"
target_name target_accept = codes "ACCEPT"
target_name target_log = codes "LOG"
target_name target_ulog = codes "ULOG"

-- snprintf behind what the buffer of 4096 bytes holds.
unfoldable pub print_behind : CString → CString → CString
print_behind command piece = command ++ take (4095 - length command) piece

unfoldable pub print_option : CString → CString → Option CString → CString → CString
unfolding print_behind
print_option command before none after = command
print_option command before (some word) after = print_behind command (before ++ word ++ after)

unfoldable pub iptables_compile : CString → CString → FirewallRule → CString
unfolding print_behind print_option target_name
iptables_compile table chain rule =
    let c0 = take 4095 (codes "-t " ++ table ++ codes " -A " ++ chain ++ codes " ") in
    let c1 = print_behind c0 (codes "-d " ++ rule.mask ++ codes " ") in
    let c2 = print_option c1 (codes "-p ") rule.protocol (codes " ") in
    let c3 = print_option c2 (codes "--dport ") rule.port (codes " ") in
    let c4 = print_option c3 (codes "-m set --match-set ") rule.ipset (codes " dst ") in
    print_behind c4 (codes "-j " ++ target_name rule.target)

-- The counter of the first line with the target; a line is one on which fscanf reads both fields, and
-- `none` is a listing that could not be read.
find_total : CString → List (ℕ × CString) → ℕ
find_total chain [] = 0
find_total chain ((counter, target) ∷ lines) =
    if str_eq target chain then counter else find_total chain lines

unfoldable pub iptables_fw_total_upload : Option (List (ℕ × CString)) → ℕ
unfolding find_total
iptables_fw_total_upload none = 0
iptables_fw_total_upload (some lines) = find_total (codes "ndsOUT") lines

unfoldable pub iptables_fw_total_download : Option (List (ℕ × CString)) → ℕ
unfolding find_total
iptables_fw_total_download none = 0
iptables_fw_total_download (some lines) = find_total (codes "ndsINC") lines

take-behind : (n : ℕ) (a b : CString) → take n a ++ take (n - length (take n a)) b ≡ take n (a ++ b)
take-behind zero a b = refl
take-behind (suc n) [] b = let same : suc n - 0 ≡ suc n = omega arith in rw same refl
take-behind (suc n) (x ∷ a) b =
    let room : suc n - suc (length (take n a)) ≡ n - length (take n a) = omega arith in
    rw room (ap (λ l. x ∷ l) (take-behind n a b))

-- Printing in pieces is printing the whole, cut to the buffer.
print_behind-take : (a b : CString) → print_behind (take 4095 a) b ≡ take 4095 (a ++ b)
unfolding print_behind
print_behind-take a b = take-behind 4095 a b

-- The command as a text, without a buffer.
unfoldable pub option_text : CString → Option CString → CString → CString
option_text before none after = []
option_text before (some word) after = before ++ word ++ after

unfoldable pub rule_text : CString → CString → FirewallRule → CString
unfolding option_text target_name
rule_text table chain rule =
    let head = codes "-t " ++ table ++ codes " -A " ++ chain ++ codes " " in
    let mask = codes "-d " ++ rule.mask ++ codes " " in
    let protocol = option_text (codes "-p ") rule.protocol (codes " ") in
    let port = option_text (codes "--dport ") rule.port (codes " ") in
    let ipset = option_text (codes "-m set --match-set ") rule.ipset (codes " dst ") in
    let mode = codes "-j " ++ target_name rule.target in
    ((((head ++ mask) ++ protocol) ++ port) ++ ipset) ++ mode

print_option-take :
    (a before after : CString) (o : Option CString)
    → print_option (take 4095 a) before o after ≡ take 4095 (a ++ option_text before o after)
unfolding print_option option_text
print_option-take a before after none = ap (λ l. take 4095 l) (sym (append-nil a))
print_option-take a before after (some word) = print_behind-take a (before ++ word ++ after)

print_pieces :
    (head mask mode b1 a1 b2 a2 b3 a3 : CString) (o1 o2 o3 : Option CString)
    → print_behind
        (print_option
          (print_option (print_option (print_behind (take 4095 head) mask) b1 o1 a1) b2 o2 a2)
          b3
          o3
          a3)
        mode
      ≡ take 4095 (
          ((((head ++ mask) ++ option_text b1 o1 a1) ++ option_text b2 o2 a2)
            ++ option_text b3 o3 a3)
          ++ mode)
print_pieces head mask mode b1 a1 b2 a2 b3 a3 o1 o2 o3 =
    rw
      (
        print_behind-take head mask,
        print_option-take (head ++ mask) b1 a1 o1,
        print_option-take ((head ++ mask) ++ option_text b1 o1 a1) b2 a2 o2,
        print_option-take (((head ++ mask) ++ option_text b1 o1 a1) ++ option_text b2 o2 a2) b3 a3
            o3,
      )
      (print_behind-take
        ((((head ++ mask) ++ option_text b1 o1 a1) ++ option_text b2 o2 a2) ++ option_text b3 o3 a3)
        mode)

-- The command for a configured rule is its text, cut to the 4095 characters that fit.
pub iptables_compile_lem :
    (table chain : CString) (rule : FirewallRule)
    → iptables_compile table chain rule ≡ take 4095 (rule_text table chain rule)
unfolding iptables_compile rule_text
iptables_compile_lem table chain rule =
    print_pieces (codes "-t " ++ table ++ codes " -A " ++ chain ++ codes " ")
      (codes "-d " ++ rule.mask ++ codes " ") (codes "-j " ++ target_name rule.target) (codes "-p ")
      (codes " ") (codes "--dport ") (codes " ") (codes "-m set --match-set ") (codes " dst ")
      rule.protocol rule.port rule.ipset
