-- ===== src/Conf/Options.antt =====
-- src/conf.c: the options of the configuration file, and what each does to the configuration.
-- exit is `none`. `gw_address` and the names made from it are NULL until src/main.c sets them, and
-- nothing here reads them.
use nodogsplash.Prelude.{List, Option, [], if◌then◌else◌, ℕ, ◌∷◌}
use nodogsplash.CString.{CString, codes, str_case_eq}
use nodogsplash.Conf.Rulesets.{Ruleset}
use nodogsplash.Config.{Config}

pub data Opcode : Type 0 where
  bad_option session_timeout session_timeout_block session_limit_block daemon debug_level : Opcode
  max_clients gateway_name gateway_domain_name gateway_interface gateway_ip_range gateway_ip :
      Opcode
  gateway_address gateway_port web_root splash_page status_page redirect_url : Opcode
  preauth_idle_timeout auth_idle_timeout check_interval set_mss mss_value traffic_control : Opcode
  download_limit upload_limit upload_ifb ndsctl_socket syslog_facility firewall_rule : Opcode
  firewall_ruleset empty_ruleset_policy mac_mechanism trusted_mac_list blocked_mac_list : Opcode
  allowed_mac_list fw_mark_authenticated fw_mark_trusted fw_mark_blocked bin_auth pre_auth : Opcode
  state_file : Opcode

abbrev pub keywords : List (CString × Opcode)
keywords =
    (codes "sessiontimeout", Opcode.session_timeout)
    ∷ (codes "sessiontimeoutblock", Opcode.session_timeout_block)
    ∷ (codes "sessionlimitblock", Opcode.session_limit_block)
    ∷ (codes "daemon", Opcode.daemon)
    ∷ (codes "debuglevel", Opcode.debug_level)
    ∷ (codes "maxclients", Opcode.max_clients)
    ∷ (codes "gatewayname", Opcode.gateway_name)
    ∷ (codes "gatewaydomainname", Opcode.gateway_domain_name)
    ∷ (codes "gatewayinterface", Opcode.gateway_interface)
    ∷ (codes "gatewayiprange", Opcode.gateway_ip_range)
    ∷ (codes "gatewayip", Opcode.gateway_ip)
    ∷ (codes "gatewayaddress", Opcode.gateway_address)
    ∷ (codes "gatewayport", Opcode.gateway_port)
    ∷ (codes "webroot", Opcode.web_root)
    ∷ (codes "splashpage", Opcode.splash_page)
    ∷ (codes "statuspage", Opcode.status_page)
    ∷ (codes "redirectURL", Opcode.redirect_url)
    ∷ (codes "preauthidletimeout", Opcode.preauth_idle_timeout)
    ∷ (codes "authidletimeout", Opcode.auth_idle_timeout)
    ∷ (codes "checkinterval", Opcode.check_interval)
    ∷ (codes "setmss", Opcode.set_mss)
    ∷ (codes "mssvalue", Opcode.mss_value)
    ∷ (codes "trafficcontrol", Opcode.traffic_control)
    ∷ (codes "downloadlimit", Opcode.download_limit)
    ∷ (codes "uploadlimit", Opcode.upload_limit)
    ∷ (codes "ifb", Opcode.upload_ifb)
    ∷ (codes "syslogfacility", Opcode.syslog_facility)
    ∷ (codes "ndsctlsocket", Opcode.ndsctl_socket)
    ∷ (codes "firewallruleset", Opcode.firewall_ruleset)
    ∷ (codes "firewallrule", Opcode.firewall_rule)
    ∷ (codes "emptyrulesetpolicy", Opcode.empty_ruleset_policy)
    ∷ (codes "trustedmaclist", Opcode.trusted_mac_list)
    ∷ (codes "blockedmaclist", Opcode.blocked_mac_list)
    ∷ (codes "allowedmaclist", Opcode.allowed_mac_list)
    ∷ (codes "MACmechanism", Opcode.mac_mechanism)
    ∷ (codes "fw_mark_authenticated", Opcode.fw_mark_authenticated)
    ∷ (codes "fw_mark_trusted", Opcode.fw_mark_trusted)
    ∷ (codes "fw_mark_blocked", Opcode.fw_mark_blocked)
    ∷ (codes "binauth", Opcode.bin_auth)
    ∷ (codes "preauth", Opcode.pre_auth)
    ∷ (codes "statefile", Opcode.state_file)
    ∷ []

unfoldable pub find_keyword : CString → List (CString × Opcode) → Opcode
find_keyword cp [] = Opcode.bad_option
find_keyword cp ((name, op) ∷ l) = if str_case_eq cp name then op else find_keyword cp l

abbrev pub config_parse_opcode : CString → Opcode
config_parse_opcode cp = find_keyword cp keywords

-- The configuration, with what only the start of the daemon reads. `daemon` is an int.
pub record Settings : Type 0 where
  pub config : Config
  pub daemon : ℕ
  pub gw_iprange : CString
  pub gw_ip : Option CString
  pub gw_domain : Option CString
  pub gw_port : ℕ
  pub webroot : CString
  pub set_mss : ℕ
  pub mss_value : ℕ
  pub syslog_facility : ℕ
  pub log_syslog : ℕ
  pub ndsctl_sock : CString
  pub internal_sock : CString
  pub configfile : CString
  pub rulesets : List Ruleset
  pub preauth : Option CString
  pub statefile : CString
