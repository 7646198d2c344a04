-- ===== src/Conf/Startup.antt =====
-- src/conf.c: config_init, config_init_override and config_validate. exit is `none`.
use nodogsplash.Prelude.{
  Bool, List, Option, [], if◌then◌else◌, none, not, some, ℕ, ◌%◌, ◌&&◌, ◌*◌, ◌-◌, ◌/◌, ◌==◌, ◌^◌,
  ◌||◌,
}
use nodogsplash.Prelude.Int32.{int_lt, is_neg, is_pos, minus_one}
use nodogsplash.CString.{CString, codes}
use nodogsplash.Conf.Options.{Settings}
use nodogsplash.Conf.Rulesets.{Ruleset, add_ruleset, update_ruleset}
use nodogsplash.Config.{Config, mac_block}

abbrev default_policy : CString → List Ruleset → CString → List Ruleset
default_policy name rs policy =
    update_ruleset name (λ r. record r { emptyrulesetpolicy = some policy }) (add_ruleset rs name)

-- The five rulesets, and what an empty one does.
unfoldable pub default_rulesets : List Ruleset
unfolding update_ruleset add_ruleset
default_rulesets =
    let r1 = default_policy (codes "trusted-users") [] (codes "ACCEPT") in
    let r2 = default_policy (codes "trusted-users-to-router") r1 (codes "ACCEPT") in
    let r3 = default_policy (codes "users-to-router") r2 (codes "REJECT") in
    let r4 = default_policy (codes "authenticated-users") r3 (codes "RETURN") in
    default_policy (codes "preauthenticated-users") r4 (codes "REJECT")

abbrev default_config : Config
default_config = record {
  maxclients = 20;
  gw_name = codes "NoDogSplash";
  gw_interface = none;
  gw_address = [];
  gw_http_name = [];
  gw_http_name_port = [];
  splashpage = codes "splash.html";
  statuspage = codes "status.html";
  redirect_url = none;
  authdir = codes "nodogsplash_auth";
  denydir = codes "nodogsplash_deny";
  session_timeout = 0;
  session_timeout_block = 0;
  session_limit_block = 0;
  preauth_idle_timeout = 10;
  auth_idle_timeout = 120;
  checkinterval = 30;
  traffic_control = 0;
  download_limit = 0;
  upload_limit = 0;
  upload_ifb = 0;
  macmechanism = mac_block;
  trustedmaclist = [];
  blockedmaclist = [];
  allowedmaclist = [];
  fw_mark_authenticated = 0x30000;
  fw_mark_blocked = 0x10000;
  fw_mark_trusted = 0x20000;
  debuglevel = 1;
  ip6 = 0;
  binauth = none;
}

-- LOG_DAEMON is 24.
abbrev pub config_init : Settings
config_init = record {
  config = default_config;
  daemon = minus_one;
  gw_iprange = codes "0.0.0.0/0";
  gw_ip = none;
  gw_domain = none;
  gw_port = 2050;
  webroot = codes "/etc/nodogsplash/htdocs";
  set_mss = 1;
  mss_value = 0;
  syslog_facility = 24;
  log_syslog = 0;
  ndsctl_sock = codes "/tmp/ndsctl.sock";
  internal_sock = codes "/tmp/ndsctl.sock";
  configfile = codes "/etc/nodogsplash/nodogsplash.conf";
  rulesets = default_rulesets;
  preauth = none;
  statefile = codes "/tmp/nds.state";
}

unfoldable pub config_init_override : Settings → Settings
config_init_override s = if s.daemon == minus_one then record s { daemon = 1 } else s

-- x / 2 of an int, which rounds towards 0.
half : ℕ → ℕ
half x = if is_neg x then (2 ^ 32 - (2 ^ 32 - x) / 2) % 2 ^ 32 else x / 2

-- `timeout > 0 && checkinterval >= (60 * timeout) / 2` on ints.
too_slow : ℕ → ℕ → Bool
unfolding half
too_slow checkinterval timeout =
    is_pos timeout && not (int_lt checkinterval (half (60 * timeout % 2 ^ 32)))

-- config_validate: `none` is exit(1), and nothing is changed.
unfoldable pub config_validate : Config → Option Config
unfolding too_slow
config_validate config = elim config.gw_interface [
  | none ↦ none
  | some interface ↦
      if too_slow config.checkinterval config.preauth_idle_timeout
        || too_slow config.checkinterval config.auth_idle_timeout
      then none
      else some config
]
