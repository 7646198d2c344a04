-- ===== src/Examples/Starting.antt =====
-- The theorems about the start of the daemon and its runs, src/main.c, at a daemon that imports a file.
use mathlib.Core.Option.{none}
use nodogsplash.Prelude.{
  Bool, List, Option, [], ap, arith, false, inr, refl, some, subst, sym, true, ℕ, ◌∙◌, ◌∷◌, ◌≡◌,
}
use nodogsplash.CString.{codes, has_prefix, str_eq}
use nodogsplash.Auth.FirewallState.{rule_count}
use nodogsplash.ClientList.{client_list_find, client_list_init, initial_state}
use nodogsplash.ClientList.Shape.{IsWellFormed}
use nodogsplash.Conf.DebugLevel.{skip_spaces, strtol_int}
use nodogsplash.Conf.MacList.{has_entry, is_allowed_mac, is_blocked_mac, is_trusted_mac}
use nodogsplash.Conf.Options.{Settings}
use nodogsplash.Conf.Rulesets.{get_ruleset}
use nodogsplash.Conf.Startup.{config_init, default_rulesets}
use nodogsplash.Config.{Config}
use nodogsplash.Daemon.{Operation, check_timeouts, connect, control, run}
use nodogsplash.Daemon.Invariants.{run-IsWellFormed, run_grants_access}
use nodogsplash.Daemon.Restart.{reset_lem}
use nodogsplash.Daemon.Startup.{
  Surroundings, after_import, before_start, reset_firewall, start_daemon,
}
use nodogsplash.Examples.{
  calm, calm-IsReliable, ip_a, logged_on, logged_on-IsWellFormed, mac_a, sample_config,
  sample_marks, sample_marks-AreDistinct, world_logged_on, world_waiting,
}
use nodogsplash.Examples.JsonValues.{
  Value, add_item, array, item, member_of, member_value, no_item, put_member, text, value_is_array,
  values, values-IsDocumented,
}
use nodogsplash.Firewall.{iptables_do_command}
use nodogsplash.Firewall.Filter.{iptables_fw_init}
use nodogsplash.Firewall.Installed.{installed}
use nodogsplash.Firewall.Marks.{start_marks}
use nodogsplash.Firewall.Reset.{fw_destroy-Quietly}
use nodogsplash.Firewall.Start.{run_set_up}
use nodogsplash.Firewall.Teardown.{iptables_fw_destroy, iptables_fw_destroy_mention}
use nodogsplash.StateFile.{
  accessible, export_top, get_field, state_file_export_client, state_file_import,
}
use nodogsplash.StateFile.Numbered.{IsNumbered, IsNumberedFile}
use nodogsplash.StateFile.Roundtrip.{IsAcceptable, state_file_roundtrip}
use nodogsplash.StateFile.Saved.{IsInRange}
use nodogsplash.StateFile.Written.{export-IsNumbered}
use nodogsplash.World.{Command, Env, World, mark_outgoing, run_command}

-- A client connects, is let in by ndsctl, and is checked by the timer.
abbrev morning : List Operation
morning =
    connect mac_a ip_a
    ∷ control none none (codes "auth 192.168.1.10")
    ∷ check_timeouts (some []) (some [])
    ∷ []

-- The daemon starts with a state file of one client, which is logged on.
abbrev value_of : Option Value → Value
value_of none = text []
value_of (some v) = v

abbrev saved_state : Value
unfolding export_top
saved_state = value_of (export_top values (logged_on ∷ []))

abbrev around : Surroundings values
around = record {
  with_state_file = true;
  stat = λ path. accessible;
  from_file = λ path. some saved_state;
  listed = λ w t c. some [];
  version = some (codes "iptables v1.8.7");
  fuel = 5;
}

abbrev small_config : Config
small_config = record sample_config { traffic_control = 0 }

abbrev sample_settings : Settings
sample_settings = record config_init { config = small_config }

abbrev world_of : Option World → World
world_of none = world_waiting
world_of (some w) = w

abbrev started : Env → World
started env = world_of (start_daemon values env around sample_settings)

is_some {ℓ} : {A : Type ℓ} → Option A → Bool
is_some none = false
is_some (some a) = true

abbrev first_world : List (Command × ℕ) → World
first_world history = record (before_start small_config) { commands = history }

abbrev marked_world : List (Command × ℕ) → World
marked_world history = record (before_start small_config) {
  marks = sample_marks;
  commands = history;
}

destroy_test :
    is_some (iptables_fw_destroy calm around.listed around.fuel (before_start small_config)) ≡ true
unfolding is_some before_start iptables_fw_destroy client_list_init iptables_fw_destroy_mention
    run_set_up iptables_do_command run_command
destroy_test = refl

init_test :
    (history : List (Command × ℕ))
    → (iptables_fw_init calm (first_world history) sample_settings 0 around.version).1 ≡ 0
unfolding before_start iptables_fw_init client_list_init has_prefix skip_spaces strtol_int
    iptables_do_command run_command run_set_up get_ruleset default_rulesets str_eq
init_test history = refl

marked_world-IsAcceptable :
    (history : List (Command × ℕ)) → IsAcceptable calm (marked_world history) logged_on
unfolding initial_state is_blocked_mac is_allowed_mac is_trusted_mac has_entry before_start
    client_list_init
marked_world-IsAcceptable history = record {
  range = omega arith;
  good_mac = refl;
  good_ip = refl;
  unlisted = refl;
  reachable = inr refl;
}

import_test :
    (history : List (Command × ℕ))
    → (state_file_import values around.stat around.from_file calm
        (marked_world history)
        sample_settings.statefile).1
      ≡ 0
unfolding before_start client_list_init export_top state_file_export_client put_member
import_test history =
    (state_file_roundtrip values calm world_logged_on (marked_world history)
      sample_settings.statefile saved_state around.stat around.from_file values-IsDocumented
      logged_on-IsWellFormed (marked_world-IsAcceptable history, tt) sample_marks-AreDistinct refl
      refl (omega arith) (omega arith) refl refl refl).0

some_of {ℓ} : {A : Type ℓ} (o : Option A) → is_some o ≡ true → (a : A) × (o ≡ some a)
unfolding is_some
some_of none h = cc
some_of (some a) h = (a, refl)

first_reset_test :
    is_some (reset_firewall values calm around sample_settings (before_start small_config) 0) ≡ true
unfolding reset_firewall is_some before_start client_list_init
first_reset_test =
    let (d, gone) = some_of _ destroy_test in
    let ((history, same, quiet), rest) =
      fw_destroy-Quietly calm around.listed around.fuel (before_start small_config) d gone in
    let sets_up : (iptables_fw_init calm d.0 (record sample_settings { config = d.0.config }) 0
          around.version).1
        ≡ 0 =
      subst
        (λ x.
          (iptables_fw_init calm x (record sample_settings { config = x.config }) 0
            around.version).1
          ≡ 0)
        (sym same) (init_test history) in
    rw (reset_firewall, gone) (rw sets_up refl)

calm_starts : start_daemon values calm around sample_settings ≡ some (started calm)
unfolding start_daemon after_import start_marks before_start client_list_init is_some
calm_starts =
    let (r, e) = some_of _ first_reset_test in
    let (history, same, quiet) =
      reset_lem values calm around sample_settings (before_start small_config) 0 r e in
    let imported : (state_file_import values around.stat around.from_file calm r.0
          sample_settings.statefile).1
        ≡ 0 =
      subst
        (λ x.
          (state_file_import values around.stat around.from_file calm x sample_settings.statefile).1
          ≡ 0)
        (sym same) (import_test history) in
    let (w, begun) =
      some_of (start_daemon values calm around sample_settings)
        (rw (is_some, start_daemon, e) (rw imported refl)) in
    begun ∙ ap (λ o. some (world_of o)) (sym begun)

abbrev saved_clients : Value
saved_clients = array (item (value_of (state_file_export_client values logged_on)) no_item)

clients_test :
    get_field values saved_state (codes "clients") values.is_array (λ v. v) ≡ some saved_clients
unfolding export_top get_field put_member member_value value_is_array str_eq member_of add_item
    state_file_export_client
clients_test = refl

logged_on-IsInRange : IsInRange logged_on
logged_on-IsInRange = omega arith

wrote_test : export_top values world_logged_on.clients ≡ some saved_state
unfolding export_top state_file_export_client put_member
wrote_test = refl

export-IsNumbered_example : IsNumbered values 1 (values.items saved_clients)
export-IsNumbered_example =
    export-IsNumbered values world_logged_on saved_state values-IsDocumented logged_on-IsWellFormed
      refl (logged_on-IsInRange, tt) wrote_test saved_state saved_clients refl clients_test

saved_state-IsNumbered : around.with_state_file ≡ true → IsNumberedFile values (some saved_state)
saved_state-IsNumbered on =
    export-IsNumbered values world_logged_on saved_state values-IsDocumented logged_on-IsWellFormed
      refl (logged_on-IsInRange, tt) wrote_test

run_grants_access_example :
    installed (mark_outgoing ip_a mac_a) (run calm (started calm) morning).commands
    ≡ rule_count
        (run calm (started calm) morning).marks
        (client_list_find (run calm (started calm) morning) mac_a ip_a)
unfolding start_marks
run_grants_access_example =
    run_grants_access values calm around sample_settings (started calm) morning mac_a ip_a
      calm-IsReliable refl saved_state-IsNumbered calm_starts

run-IsWellFormed_example : IsWellFormed (run calm (started calm) morning)
run-IsWellFormed_example =
    run-IsWellFormed values calm around sample_settings (started calm) morning
      saved_state-IsNumbered calm_starts
