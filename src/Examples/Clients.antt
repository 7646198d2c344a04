-- ===== src/Examples/Clients.antt =====
-- The theorems about src/client_list.c and src/auth.c at concrete clients.
use nodogsplash.Prelude.{
  [], arith, false, if◌then◌else◌, none, refl, some, ◌<◌, ◌==◌, ◌↔◌, ◌∷◌, ◌≡◌, ◌≢◌, ◌⊎◌,
}
use nodogsplash.Prelude.Int32.{int_lt, minus_one}
use nodogsplash.CString.{CString, codes, str_eq}
use nodogsplash.Auth.{
  auth_change_state, auth_client_deauth_all, binauth_action, deauth_body, deauth_found,
  deauthenticate_branch, for_each_client, fw_refresh_client_list, refresh_client_list,
  refresh_found, session_over,
}
use nodogsplash.Auth.Refresh.{fw_refresh_ends_sessions}
use nodogsplash.Auth.Shutdown.{deauth_all_logs_out}
use nodogsplash.Auth.Transitions.{Allowed, change_state-Allowed}
use nodogsplash.Client.{Client}
use nodogsplash.ClientList.{
  client_list_add_client, client_list_delete, client_list_find, client_list_find_by_id,
  client_reset, find_client, format_04hx, new_client, reset_fields, update_node,
}
use nodogsplash.ClientList.Add.{add_client_fails, find-add_client}
use nodogsplash.ClientList.Delete.{find_by_id-delete}
use nodogsplash.ClientList.Shape.{IsWellFormed}
use nodogsplash.Conf.MacList.{has_entry, is_allowed_mac, is_blocked_mac, is_trusted_mac}
use nodogsplash.Examples.{
  broken, calm, logged_on, logged_on-IsWellFormed, sample_marks, sample_marks-AreDistinct, waiting,
  waiting-IsWellFormed, world_logged_on, world_waiting,
}
use nodogsplash.Firewall.{deauthenticate_tc, iptables_do_command, iptables_fw_deauthenticate}
use nodogsplash.Firewall.Counters.{each_line, iptables_fw_counters_update}
use nodogsplash.Tc.{detach_commands, tc_detach_client}
use nodogsplash.World.{World, read_time, run_command}

abbrev mac_b : CString
mac_b = codes "bb:bb:bb:bb:bb:bb"

abbrev ip_b : CString
ip_b = codes "192.168.1.11"

add_client_fails_example : ((client_list_add_client calm world_waiting mac_b ip_b).1 ≡ none) ↔ (
    (calm.valid_mac mac_b ≡ false)
    ⊎ ((calm.valid_ip ip_b ≡ false)
        ⊎ ((client_list_find world_waiting mac_b ip_b ≡ none) × (int_lt 1 20 ≡ false))))
add_client_fails_example = add_client_fails calm world_waiting mac_b ip_b

-- The new client: the two halves of its token are the upper bits of two random numbers.
abbrev newcomer : Client
newcomer = record {
  node = 1;
  ip = ip_b;
  mac = mac_b;
  token = codes "00010002";
  fw_connection_state = 0;
  session_start = 0;
  session_end = 0;
  counters = record { incoming = 0; outgoing = 0; last_updated = 1000 };
  download_limit = 0;
  upload_limit = 0;
  id = 2;
}

find-add_client_example :
    client_list_find (client_list_add_client calm world_waiting mac_b ip_b).0 mac_b ip_b
    ≡ some newcomer
unfolding client_list_add_client new_client find_client str_eq format_04hx is_blocked_mac
    is_allowed_mac is_trusted_mac has_entry
find-add_client_example = find-add_client calm world_waiting mac_b ip_b newcomer refl

find_by_id-delete_example :
    client_list_find_by_id (client_list_delete world_waiting 0) 1
    ≡ (if 1 == 1 then none else client_list_find_by_id world_waiting 1)
unfolding find_client
find_by_id-delete_example = find_by_id-delete world_waiting waiting 1 waiting-IsWellFormed refl

change_state-Allowed_example :
    ((auth_change_state broken world_waiting waiting 0x30000 none ≡ (world_waiting, minus_one))
      ⊎ (((auth_change_state broken world_waiting waiting 0x30000 none).1 ≡ 0)
          × Allowed sample_marks 0 0x30000))
    × (((auth_change_state broken world_waiting waiting 0x30000 none).1 ≡ 0)
        ↔ Allowed sample_marks 0 0x30000)
change_state-Allowed_example =
    change_state-Allowed broken world_waiting waiting 0x30000 none sample_marks-AreDistinct

-- A second client whose session goes on, after the round in which the first one's ends.
abbrev staying : Client
staying = record logged_on { node = 1; id = 2; mac = mac_b; ip = ip_b; session_end = 5000 }

abbrev world_two : World
world_two = record world_logged_on {
  clients = logged_on ∷ staying ∷ [];
  client_count = 2;
  client_id = 3;
  next_node = 2;
}

world_two-IsWellFormed : IsWellFormed world_two
unfolding find_client str_eq
world_two-IsWellFormed = record {
  counted = refl;
  bounded = omega arith;
  small = omega arith;
  ids = omega arith;
  nodes = omega arith;
  pairs = (refl, (refl, tt));
}

fw_refresh_ends_sessions_example : (staying.session_end ≡ 0) ⊎ (1000 < staying.session_end)
unfolding fw_refresh_client_list iptables_fw_counters_update each_line refresh_client_list
    find_client auth_change_state for_each_client refresh_found session_over deauthenticate_branch
    binauth_action iptables_fw_deauthenticate iptables_do_command client_reset reset_fields
    update_node format_04hx read_time run_command deauthenticate_tc tc_detach_client detach_commands
fw_refresh_ends_sessions_example =
    fw_refresh_ends_sessions calm world_two [] [] 2 staying world_two-IsWellFormed
      sample_marks-AreDistinct refl refl

abbrev logged_off : Client
logged_off = record logged_on {
  token = codes "00010002";
  fw_connection_state = 0;
  session_start = 0;
  session_end = 0;
  counters = record { incoming = 0; outgoing = 0; last_updated = 1000 };
}

deauth_all_logs_out_example : logged_off.fw_connection_state ≢ sample_marks.authenticated
unfolding auth_client_deauth_all find_client auth_change_state for_each_client deauth_body
    deauth_found deauthenticate_branch binauth_action iptables_fw_deauthenticate iptables_do_command
    client_reset reset_fields update_node format_04hx read_time run_command deauthenticate_tc
    tc_detach_client detach_commands
deauth_all_logs_out_example =
    deauth_all_logs_out calm world_logged_on 1 logged_off logged_on-IsWellFormed
      sample_marks-AreDistinct refl
