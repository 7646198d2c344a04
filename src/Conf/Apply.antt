-- ===== src/Conf/Apply.antt =====
-- src/conf.c: parse_empty_ruleset_policy, and the switch of config_read. exit is `none`.
use nodogsplash.Prelude.{
  Bool, List, Option, [], false, if◌then◌else◌, ltb, none, not, some, ℕ, ◌==◌, ◌||◌, ◌∷◌,
}
use nodogsplash.Prelude.Int32.{is_neg, is_pos, minus_one}
use nodogsplash.CString.{CString, codes, str_case_eq}
use nodogsplash.Conf.Lines.{drop_until, is_blank, skip_blanks, take_until}
use nodogsplash.Conf.MacList.{
  parse_allowed_mac_list, parse_blocked_mac_list, parse_trusted_mac_list,
}
use nodogsplash.Conf.Options.{Opcode, Settings}
use nodogsplash.Conf.Rulesets.{Ruleset, get_ruleset, update_ruleset}
use nodogsplash.Conf.Scan.{parse_boolean, scan_d, scan_i, scan_u, scan_x}
use nodogsplash.Config.{Config, mac_allow, mac_block}
use nodogsplash.World.{Env}

-- The three words of the file, and the iptables targets they stand for.
unfoldable pub read_policy : CString → Option CString
read_policy policy =
    if str_case_eq policy (codes "passthrough")
    then some (codes "RETURN")
    else if str_case_eq policy (codes "allow")
    then some (codes "ACCEPT")
    else if str_case_eq policy (codes "block")
    then some (codes "REJECT")
    else none

-- The text behind the name, which a NUL replaced; a name that ends the string had a NUL already,
-- and the pointer then moves on to what the buffer holds behind it.
unfoldable pub behind_name : CString → CString → CString
behind_name [] behind = behind
behind_name (c ∷ s) behind = s

unfoldable pub parse_empty_ruleset_policy : List Ruleset → CString → CString → Option (List Ruleset)
unfolding read_policy behind_name take_until drop_until skip_blanks is_blank
parse_empty_ruleset_policy rs ptr behind =
    let start = skip_blanks ptr in
    let name = take_until is_blank start in
    let rest = behind_name (drop_until is_blank start) behind in
    elim (get_ruleset rs name) [
      | none ↦ none
      | some r ↦ elim (read_policy (take_until is_blank (skip_blanks rest))) [
        | none ↦ none
        | some policy ↦
            some (update_ruleset name (λ r. record r { emptyrulesetpolicy = some policy }) rs)
      ]
    ]

-- sscanf gave a number, and the number is not refused.
unfoldable pub number_option : Option ℕ → (ℕ → Bool) → (ℕ → Settings) → Option Settings
number_option none refuse set = none
number_option (some n) refuse set = if refuse n then none else some (set n)

pub any_number : ℕ → Bool
any_number n = false

-- MACmechanism
read_mechanism : CString → Option ℕ
read_mechanism arg =
    if str_case_eq (codes "allow") arg
    then some mac_allow
    else if str_case_eq (codes "block") arg
    then some mac_block
    else none

-- while((p2 = strrchr(p1,'/')) == (p1 + strlen(p1) - 1)) *p2 = '\0';
keep_or_cut_slash : ℕ → CString → CString
keep_or_cut_slash c [] = if c == b'/' then [] else c ∷ []
keep_or_cut_slash c (d ∷ s) = c ∷ d ∷ s

unfoldable pub strip_slashes : CString → CString
unfolding keep_or_cut_slash
strip_slashes [] = []
strip_slashes (c ∷ s) = keep_or_cut_slash c (strip_slashes s)

unfoldable pub with_rulesets : Settings → Option (List Ruleset) → Option Settings
with_rulesets s none = none
with_rulesets s (some rs) = some (record s { rulesets = rs })

unfoldable pub with_config : Settings → Option Config → Option Settings
with_config s none = none
with_config s (some config) = some (record s { config = config })

-- A daemon option on the command line wins.
set_daemon : Settings → Option ℕ → Settings
set_daemon s none = s
set_daemon s (some value) = if s.daemon == minus_one then record s { daemon = value } else s

-- `sscanf(...) < 0` holds for no argument: without a number the old value stays.
set_limit_block : Settings → Option ℕ → Settings
set_limit_block s none = s
set_limit_block s (some n) = record s { config = record s.config { session_limit_block = n } }

cap_level : ℕ → ℕ
cap_level n = if ltb 3 n then 3 else n

module _ (env : Env) (executable : CString → Bool) (behind : CString) (s : Settings) where
  -- One option; a ruleset is read by parse_firewall_ruleset, and FirewallRule has no case.
  unfoldable pub apply_option : Opcode → CString → Option Settings
  unfolding parse_empty_ruleset_policy number_option any_number read_mechanism strip_slashes
      with_rulesets with_config set_daemon set_limit_block cap_level scan_d scan_u scan_x scan_i
      parse_boolean
  apply_option Opcode.bad_option arg = none
  apply_option Opcode.session_timeout arg =
      number_option (scan_d arg) is_neg
        (λ n. record s { config = record s.config { session_timeout = n } })
  apply_option Opcode.session_timeout_block arg =
      number_option (scan_u arg) any_number
        (λ n. record s { config = record s.config { session_timeout_block = n } })
  apply_option Opcode.session_limit_block arg = some (set_limit_block s (scan_u arg))
  apply_option Opcode.daemon arg = some (set_daemon s (parse_boolean arg))
  apply_option Opcode.debug_level arg =
      number_option (scan_d arg) is_neg
        (λ n. record s { config = record s.config { debuglevel = cap_level n } })
  apply_option Opcode.max_clients arg =
      number_option (scan_d arg) (λ n. not (is_pos n))
        (λ n. record s { config = record s.config { maxclients = n } })
  apply_option Opcode.gateway_name arg =
      some (record s { config = record s.config { gw_name = arg } })
  apply_option Opcode.gateway_domain_name arg = some (record s { gw_domain = some arg })
  apply_option Opcode.gateway_interface arg =
      some (record s { config = record s.config { gw_interface = some arg } })
  apply_option Opcode.gateway_ip_range arg = some (record s { gw_iprange = arg })
  apply_option Opcode.gateway_ip arg = some (record s { gw_ip = some arg })
  apply_option Opcode.gateway_address arg = some (record s { gw_ip = some arg })
  apply_option Opcode.gateway_port arg =
      number_option (scan_u arg) any_number (λ n. record s { gw_port = n })
  apply_option Opcode.web_root arg = some (record s { webroot = strip_slashes arg })
  apply_option Opcode.splash_page arg =
      some (record s { config = record s.config { splashpage = arg } })
  apply_option Opcode.status_page arg =
      some (record s { config = record s.config { statuspage = arg } })
  apply_option Opcode.redirect_url arg =
      some (record s { config = record s.config { redirect_url = some arg } })
  apply_option Opcode.preauth_idle_timeout arg =
      number_option (scan_d arg) is_neg
        (λ n. record s { config = record s.config { preauth_idle_timeout = n } })
  apply_option Opcode.auth_idle_timeout arg =
      number_option (scan_d arg) is_neg
        (λ n. record s { config = record s.config { auth_idle_timeout = n } })
  apply_option Opcode.check_interval arg =
      number_option (scan_i arg) (λ n. not (is_pos n))
        (λ n. record s { config = record s.config { checkinterval = n } })
  apply_option Opcode.set_mss arg =
      number_option (parse_boolean arg) any_number (λ n. record s { set_mss = n })
  apply_option Opcode.mss_value arg =
      number_option (scan_d arg) any_number (λ n. record s { mss_value = n })
  apply_option Opcode.traffic_control arg =
      number_option (parse_boolean arg) any_number
        (λ n. record s { config = record s.config { traffic_control = n } })
  apply_option Opcode.download_limit arg =
      number_option (scan_d arg) is_neg
        (λ n. record s { config = record s.config { download_limit = n } })
  apply_option Opcode.upload_limit arg =
      number_option (scan_d arg) is_neg
        (λ n. record s { config = record s.config { upload_limit = n } })
  apply_option Opcode.upload_ifb arg =
      number_option (scan_d arg) is_neg
        (λ n. record s { config = record s.config { upload_ifb = n } })
  apply_option Opcode.ndsctl_socket arg = some (record s { ndsctl_sock = arg })
  apply_option Opcode.syslog_facility arg =
      number_option (scan_d arg) any_number (λ n. record s { syslog_facility = n })
  apply_option Opcode.firewall_rule arg = some s
  apply_option Opcode.firewall_ruleset arg = some s
  apply_option Opcode.empty_ruleset_policy arg =
      with_rulesets s (parse_empty_ruleset_policy s.rulesets arg behind)
  apply_option Opcode.mac_mechanism arg =
      number_option (read_mechanism arg) any_number
        (λ n. record s { config = record s.config { macmechanism = n } })
  apply_option Opcode.trusted_mac_list arg = with_config s (parse_trusted_mac_list env s.config arg)
  apply_option Opcode.blocked_mac_list arg = with_config s (parse_blocked_mac_list env s.config arg)
  apply_option Opcode.allowed_mac_list arg = with_config s (parse_allowed_mac_list env s.config arg)
  apply_option Opcode.fw_mark_authenticated arg =
      number_option (scan_x arg)
        (λ n. n == 0 || (n == s.config.fw_mark_blocked || n == s.config.fw_mark_trusted))
        (λ n. record s { config = record s.config { fw_mark_authenticated = n } })
  apply_option Opcode.fw_mark_trusted arg =
      number_option (scan_x arg)
        (λ n. n == 0 || (n == s.config.fw_mark_authenticated || n == s.config.fw_mark_blocked))
        (λ n. record s { config = record s.config { fw_mark_trusted = n } })
  apply_option Opcode.fw_mark_blocked arg =
      number_option (scan_x arg)
        (λ n. n == 0 || (n == s.config.fw_mark_authenticated || n == s.config.fw_mark_trusted))
        (λ n. record s { config = record s.config { fw_mark_blocked = n } })
  apply_option Opcode.bin_auth arg =
      if executable arg
      then some (record s { config = record s.config { binauth = some arg } })
      else none
  apply_option Opcode.pre_auth arg =
      if executable arg then some (record s { preauth = some arg }) else none
  apply_option Opcode.state_file arg = some (record s { statefile = arg })
