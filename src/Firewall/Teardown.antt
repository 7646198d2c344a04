-- ===== src/Firewall/Teardown.antt =====
-- src/fw_iptables.c: iptables_fw_destroy and iptables_fw_destroy_mention.
-- strstr
use nodogsplash.Prelude.{
  Bool, List, Option, [], and_then, drop, if◌then◌else◌, map, map_option, none, some, suc, take,
  zero, ℕ, ◌&&◌, ◌++◌, ◌==◌, ◌||◌, ◌∷◌,
}
use nodogsplash.Prelude.Int32.{minus_one}
use nodogsplash.CString.{CString, codes, has_prefix}
use nodogsplash.Conf.DebugLevel.{read_digits, starts_digit}
use nodogsplash.Firewall.{iptables_do_command}
use nodogsplash.Firewall.Queues.{tc_destroy_tc}
use nodogsplash.Firewall.Start.{run_set_up}
use nodogsplash.Netfilter.{
  Chain, SetUp, Table, allowed_users, authenticated_users, blocked_users, delete_chain,
  delete_number, filter_table, flush_chain, forward_chain, incoming, input_chain, mangle_table,
  nat_table, outgoing, postrouting, prerouting, to_internet, to_router, trusted_to_router,
  trusted_users,
}
use nodogsplash.World.{Env, World, set_up}

unfoldable pub contains : CString → CString → Bool
contains [] word = has_prefix [] word
contains (c ∷ s) word = has_prefix (c ∷ s) word || contains s word

-- The CHAIN_ names.
unfoldable pub chain_name : Chain → CString
chain_name prerouting = codes "PREROUTING"
chain_name postrouting = codes "POSTROUTING"
chain_name input_chain = codes "INPUT"
chain_name forward_chain = codes "FORWARD"
chain_name to_internet = codes "ndsNET"
chain_name to_router = codes "ndsRTR"
chain_name trusted_to_router = codes "ndsTRT"
chain_name outgoing = codes "ndsOUT"
chain_name incoming = codes "ndsINC"
chain_name authenticated_users = codes "ndsAUT"
chain_name blocked_users = codes "ndsBLK"
chain_name allowed_users = codes "ndsALW"
chain_name trusted_users = codes "ndsTRU"

-- sscanf(line, "%9[0-9]", rulenum), as the number that iptables reads.
unfoldable pub rule_number : CString → ℕ
unfolding read_digits
rule_number line = (read_digits 0 (take 9 line)).0

-- The number of the first line with the mention and a number.
unfoldable pub find_mention : CString → List CString → Option ℕ
unfolding contains rule_number starts_digit
find_mention word [] = none
find_mention word (line ∷ lines) =
    if contains line word && starts_digit line
    then some (rule_number line)
    else find_mention word lines

-- The rules of a chain that a mention is found in.
unfoldable pub mentions : CString → List CString → ℕ
unfolding contains starts_digit
mentions word [] = 0
mentions word (line ∷ lines) =
    let rest = mentions word lines in
    if contains line word && starts_digit line then suc rest else rest

unfoldable pub flush_and_delete : Table → List Chain → List SetUp
flush_and_delete t chains = map (flush_chain t) chains ++ map (delete_chain t) chains

unfoldable pub mangle_mentions : List (Chain × Chain)
mangle_mentions =
    (prerouting, trusted_users)
    ∷ (prerouting, blocked_users)
    ∷ (prerouting, allowed_users)
    ∷ (prerouting, outgoing)
    ∷ (postrouting, incoming)
    ∷ []

-- `listed` is what the lines of `iptables -L chain -n --line-numbers -v` are, `none` if it cannot be
-- run.
module _ (env : Env) (listed : World → Table → Chain → Option (List CString)) where
  -- The lines behind the first two.
  unfoldable pub entries : World → Table → Chain → List CString
  entries w t c = elim (listed w t c) [ none ↦ [] | some lines ↦ drop 2 lines ]

  -- retval is 0 if a rule was found.
  unfoldable pub iptables_fw_destroy_mention :
      ℕ → World → Table → Chain → CString → Option (World × ℕ)
  unfolding find_mention entries
  iptables_fw_destroy_mention zero w t c word = none
  iptables_fw_destroy_mention (suc fuel) w t c word = elim (find_mention word (entries w t c)) [
    | none ↦ some (w, minus_one)
    | some n ↦
        map_option (λ r. (r.0, 0))
          (iptables_fw_destroy_mention fuel
            (iptables_do_command env w (set_up (delete_number t c n))).0 t c word)
  ]

  unfoldable pub destroy_mentions : ℕ → World → Table → List (Chain × Chain) → Option World
  unfolding chain_name
  destroy_mentions fuel w t [] = some w
  destroy_mentions fuel w t ((c, mention) ∷ more) =
      and_then (iptables_fw_destroy_mention fuel w t c (chain_name mention))
        (λ r. destroy_mentions fuel r.0 t more)

  unfoldable pub destroy_table :
      ℕ → World → Table → List (Chain × Chain) → List Chain → Option World
  unfolding destroy_mentions flush_and_delete
  destroy_table fuel w t mentions chains =
      and_then (destroy_mentions fuel w t mentions)
        (λ w1. some (run_set_up env w1 (flush_and_delete t chains)).0)

  unfoldable pub destroy_mangle : ℕ → World → Option World
  unfolding destroy_table mangle_mentions
  destroy_mangle fuel w =
      destroy_table fuel w mangle_table mangle_mentions
        (trusted_users ∷ blocked_users ∷ allowed_users ∷ outgoing ∷ incoming ∷ [])

  -- IPv4 only
  unfoldable pub destroy_nat : ℕ → World → Option World
  unfolding destroy_table
  destroy_nat fuel w =
      if w.config.ip6 == 0
      then destroy_table fuel w nat_table ((prerouting, outgoing) ∷ []) (outgoing ∷ [])
      else some w

  unfoldable pub destroy_filter : ℕ → World → Option World
  unfolding destroy_table
  destroy_filter fuel w =
      destroy_table fuel w filter_table
        ((input_chain, to_router) ∷ (forward_chain, to_internet) ∷ [])
        (to_router ∷ to_internet ∷ authenticated_users ∷ trusted_users ∷ trusted_to_router ∷ [])

  unfoldable pub iptables_fw_destroy : ℕ → World → Option (World × ℕ)
  unfolding destroy_mangle destroy_nat destroy_filter
  iptables_fw_destroy fuel w =
      let w0 = if w.config.traffic_control == 0 then w else (tc_destroy_tc env w).0 in
      and_then (destroy_mangle fuel w0) (λ w1.
        and_then (destroy_nat fuel w1)
          (λ w2. and_then (destroy_filter fuel w2) (λ w3. some (w3, 0))))
