-- ===== src/Examples.antt =====
-- A small configuration, clients and an environment, on which the theorems about src/ are applied and
-- the definitions run.
pub mod DaemonRuns
pub mod Clients
pub mod Access
pub mod Settings
pub mod Values
pub mod JsonValues
pub mod Starting
pub mod StateFiles
pub mod Configuration
pub mod Chains
pub mod Requests
use nodogsplash.Prelude.{List, [], arith, length, none, not, refl, some, ℕ, ◌*◌, ◌+◌, ◌==◌, ◌∷◌}
use nodogsplash.CString.{CString, codes}
use nodogsplash.Auth.FirewallSync.{IsInSync}
use nodogsplash.Auth.Transitions.{AreDistinct}
use nodogsplash.Client.{Client}
use nodogsplash.ClientList.{find_client}
use nodogsplash.ClientList.Shape.{IsWellFormed}
use nodogsplash.Config.{Config}
use nodogsplash.Firewall.Installed.{IsReliable, change, installed, rule_eq}
use nodogsplash.World.{Command, Env, Marks, World, append, mark_outgoing}

abbrev pub sample_config : Config
sample_config = record {
  maxclients = 20;
  gw_name = codes "NoDogSplash";
  gw_interface = some (codes "br-lan");
  gw_address = codes "192.168.1.1:2050";
  gw_http_name = codes "192.168.1.1:2050";
  gw_http_name_port = codes "192.168.1.1:2050";
  splashpage = codes "splash.html";
  statuspage = codes "status.html";
  redirect_url = none;
  authdir = codes "nodogsplash_auth";
  denydir = codes "nodogsplash_deny";
  session_timeout = 1200;
  session_timeout_block = 0;
  session_limit_block = 0;
  preauth_idle_timeout = 30;
  auth_idle_timeout = 120;
  checkinterval = 15;
  traffic_control = 1;
  download_limit = 1000;
  upload_limit = 500;
  upload_ifb = 0;
  macmechanism = 1;
  trustedmaclist = [];
  blockedmaclist = [];
  allowedmaclist = [];
  fw_mark_authenticated = 0x30000;
  fw_mark_blocked = 0x10000;
  fw_mark_trusted = 0x20000;
  debuglevel = 1;
  ip6 = 0;
  binauth = none;
}

abbrev pub sample_marks : Marks
sample_marks = record {
  preauthenticated = 0;
  authenticated = 0x30000;
  blocked = 0x10000;
  trusted = 0x20000;
}

-- Every command ends with status 0; a MAC address has 17 characters, an IP address some.
abbrev pub calm : Env
calm = record {
  time = λ n. 1000 + n;
  rand = λ n. 40000 * (n + 1);
  exit_status = λ history cmd. 0;
  valid_mac = λ s. length s == 17;
  valid_ip = λ s. not (length s == 0);
  valid_ip6 = λ s. not (length s == 0);
}

-- Every command fails.
abbrev pub broken : Env
broken = record calm { exit_status = λ history cmd. 1 }

abbrev pub mac_a : CString
mac_a = codes "aa:aa:aa:aa:aa:aa"

abbrev pub ip_a : CString
ip_a = codes "192.168.1.10"

abbrev pub sample_client : ℕ → ℕ → Client
sample_client state session_end = record {
  node = 0;
  ip = ip_a;
  mac = mac_a;
  token = codes "0123abcd";
  fw_connection_state = state;
  session_start = 100;
  session_end = session_end;
  counters = record { incoming = 10; outgoing = 10; last_updated = 900 };
  download_limit = 0;
  upload_limit = 0;
  id = 1;
}

abbrev pub waiting : Client
waiting = sample_client 0 0

abbrev pub logged_on : Client
logged_on = sample_client 0x30000 990

abbrev pub sample_world : Client → List (Command × ℕ) → World
sample_world c commands = record {
  clients = c ∷ [];
  client_count = 1;
  client_id = 2;
  next_node = 1;
  config = sample_config;
  marks = sample_marks;
  authenticated_since_start = 0;
  commands = commands;
  times_read = 0;
  rands_drawn = 0;
}

abbrev pub world_waiting : World
world_waiting = sample_world waiting []

abbrev pub world_logged_on : World
world_logged_on = sample_world logged_on ((append (mark_outgoing ip_a mac_a), 0) ∷ [])

pub calm-IsReliable : IsReliable calm
calm-IsReliable = record { succeeds = λ history cmd. refl }

pub sample_marks-AreDistinct : AreDistinct sample_marks
sample_marks-AreDistinct = record {
  pre_auth = omega arith;
  pre_blocked = omega arith;
  pre_trusted = omega arith;
  auth_blocked = omega arith;
  auth_trusted = omega arith;
  blocked_trusted = omega arith;
}

pub waiting-IsWellFormed : IsWellFormed world_waiting
unfolding find_client
waiting-IsWellFormed = record {
  counted = refl;
  bounded = omega arith;
  small = omega arith;
  ids = omega arith;
  nodes = omega arith;
  pairs = (refl, tt);
}

pub logged_on-IsWellFormed : IsWellFormed world_logged_on
unfolding find_client
logged_on-IsWellFormed = record {
  counted = refl;
  bounded = omega arith;
  small = omega arith;
  ids = omega arith;
  nodes = omega arith;
  pairs = (refl, tt);
}

pub logged_on-IsInSync : IsInSync world_logged_on
unfolding installed change rule_eq find_client
logged_on-IsInSync = record {
  shape = logged_on-IsWellFormed;
  distinct = sample_marks-AreDistinct;
  agrees = record { outgoing = λ mac ip. ground arith };
}
