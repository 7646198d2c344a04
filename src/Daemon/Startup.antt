-- ===== src/Daemon/Startup.antt =====
-- src/main.c from the configuration on to the start of the threads: the empty client list, the reset of
-- the firewall, and the import of the state file with what follows its failure.
use nodogsplash.Prelude.{
  Bool, List, Option, [], and_then, if◌then◌else◌, map_option, none, some, ℕ, ◌==◌,
}
use nodogsplash.Prelude.Int32.{is_neg}
use nodogsplash.CString.{CString}
use nodogsplash.ClientList.{client_list_flush, client_list_init}
use nodogsplash.Conf.Options.{Settings}
use nodogsplash.Config.{Config}
use nodogsplash.Daemon.{no_marks}
use nodogsplash.Firewall.Filter.{iptables_fw_init}
use nodogsplash.Firewall.Marks.{start_marks}
use nodogsplash.Firewall.Teardown.{iptables_fw_destroy}
use nodogsplash.Netfilter.{Chain, Table}
use nodogsplash.StateFile.{Stat, state_file_import}
use nodogsplash.StateFile.Json.{JsonC}
use nodogsplash.World.{Env, World}

-- What the start reads from outside: whether WITH_STATE_FILE is defined, stat and
-- json_object_from_file, the listings of iptables -L, which hold the rules that an earlier run may have
-- left, and the output of iptables -V. `fuel` bounds the rules that a chain may list.
pub record Surroundings (J : JsonC) : Type 0 where
  pub with_state_file : Bool
  pub stat : CString → Stat
  pub from_file : CString → Option J.Json
  pub listed : World → Table → Chain → Option (List CString)
  pub version : Option CString
  pub fuel : ℕ

-- client_list_init, before any command. FW_MARK_MASK is 0 until the firewall is initialised.
unfoldable pub before_start : Config → World
before_start config = client_list_init (record {
  clients = [];
  client_count = 0;
  client_id = 1;
  next_node = 0;
  config = config;
  marks = no_marks;
  authenticated_since_start = 0;
  commands = [];
  times_read = 0;
  rands_drawn = 0;
})

module _ (J : JsonC) (env : Env) (around : Surroundings J) (s : Settings) where
  -- iptables_fw_destroy and iptables_fw_init, with FW_MARK_MASK before and after. Where the
  -- initialisation fails the program exits.
  unfoldable pub reset_firewall : World → ℕ → Option (World × ℕ)
  reset_firewall w mask = and_then (iptables_fw_destroy env around.listed around.fuel w) (λ r.
      let settings = record s { config = r.0.config } in
      let init = iptables_fw_init env r.0 settings mask around.version in
      if init.1 == 0 then some (init.0, (start_marks r.0.config r.0.marks mask).0.1) else none)

  -- What follows the import: a result below 0 resets the firewall and drops the clients.
  unfoldable pub after_import : World × ℕ → ℕ → Option World
  unfolding reset_firewall
  after_import (w, result) mask =
      if is_neg result
      then map_option (λ r. client_list_flush r.0) (reset_firewall w mask)
      else some w

  -- The state that the threads are started on, where the web server, which runs already, took no
  -- request before.
  unfoldable pub start_daemon : Option World
  unfolding reset_firewall after_import
  start_daemon = and_then (reset_firewall (before_start s.config) 0) (λ r.
      if around.with_state_file
      then after_import (state_file_import J around.stat around.from_file env r.0 s.statefile) r.1
      else some r.0)
