-- ===== src/Examples/StateFiles.antt =====
-- The theorems about src/state_file.c at the file of a daemon with one client.
use nodogsplash.Prelude.{List, Option, [], arith, inl, inr, none, refl, some, ◌++◌, ◌∷◌, ◌≡◌}
use nodogsplash.CString.{CString, codes, str_eq}
use nodogsplash.Auth.{auth_change_state}
use nodogsplash.Client.{Client}
use nodogsplash.ClientList.{
  client_list_add_client, client_list_find_by_id, find_client, format_04hx, has_node, initial_state,
  new_client, reset_fields, reset_inputs, update_node,
}
use nodogsplash.ClientList.Fresh.{IsAddable, added_client}
use nodogsplash.Conf.MacList.{has_entry, is_allowed_mac, is_blocked_mac, is_trusted_mac}
use nodogsplash.Examples.{
  calm, logged_on, logged_on-IsWellFormed, sample_marks-AreDistinct, sample_world, waiting,
  world_logged_on,
}
use nodogsplash.Examples.JsonValues.{
  Value, member_of, member_value, put_member, text, value_get_int, value_get_int64, value_get_text,
  value_get_uint64, value_is_int, value_is_object, value_is_text, values, values-IsDocumented,
}
use nodogsplash.StateFile.{
  Stat, accessible, export_counters, export_top, import_clients, minus_einval,
  state_file_export_client, state_file_import, state_file_import_client,
}
use nodogsplash.StateFile.Failures.{bad_entry_is_success, imported_id_is_given_again}
use nodogsplash.StateFile.Restore.{IsRestorable}
use nodogsplash.StateFile.Roundtrip.{IsAcceptable, renumber, state_file_roundtrip}
use nodogsplash.StateFile.Saved.{IsSaved, export_client-IsSaved}
use nodogsplash.World.{World}

-- A daemon that has just started.
abbrev pub fresh_world : World
fresh_world = record (sample_world waiting []) { clients = []; client_count = 0; client_id = 1 }

abbrev value_of : Option Value → Value
value_of none = text []
value_of (some v) = v

abbrev saved_client : Client → Value
unfolding state_file_export_client
saved_client c = value_of (state_file_export_client values c)

abbrev saved_counters : Client → Value
unfolding export_counters
saved_counters c = value_of (export_counters values c)

abbrev saved_list : List Client → Value
unfolding export_top
saved_list cs = value_of (export_top values cs)

abbrev always : Stat → CString → Stat
always s path = s

abbrev holds : Option Value → CString → Option Value
holds o path = o

abbrev state_path : CString
state_path = codes "/tmp/nodogsplash.state"

logged_on-IsAcceptable : IsAcceptable calm fresh_world logged_on
unfolding initial_state is_blocked_mac is_allowed_mac is_trusted_mac has_entry
logged_on-IsAcceptable = record {
  range = omega arith;
  good_mac = refl;
  good_ip = refl;
  unlisted = refl;
  reachable = inr refl;
}

state_file_roundtrip_example :
    ((state_file_import values
        (always accessible)
        (holds (some (saved_list (logged_on ∷ []))))
        calm
        fresh_world
        state_path).1
      ≡ 0)
    × ((state_file_import values
          (always accessible)
          (holds (some (saved_list (logged_on ∷ []))))
          calm
          fresh_world
          state_path).0.clients
        ≡ renumber 1 (logged_on ∷ []))
unfolding export_top state_file_export_client put_member
state_file_roundtrip_example =
    state_file_roundtrip values calm world_logged_on fresh_world state_path
      (saved_list (logged_on ∷ [])) (always accessible) (holds (some (saved_list (logged_on ∷ []))))
      values-IsDocumented logged_on-IsWellFormed (logged_on-IsAcceptable, tt)
      sample_marks-AreDistinct refl refl (omega arith) (omega arith) refl refl refl

first_is_imported :
    (import_clients values calm fresh_world minus_einval (saved_client waiting ∷ [])).1 ≡ 0
unfolding import_clients state_file_import_client state_file_export_client put_member member_value
    member_of value_is_object value_is_text value_is_int value_get_text value_get_int64
    value_get_uint64 value_get_int str_eq client_list_add_client find_client new_client reset_inputs
    initial_state is_blocked_mac is_allowed_mac is_trusted_mac has_entry update_node
    auth_change_state reset_fields format_04hx
first_is_imported = refl

bad_entry_is_success_example :
    import_clients values calm fresh_world minus_einval
      (saved_client waiting ∷ [] ++ text [] ∷ saved_client logged_on ∷ [])
    ≡ ((import_clients values calm fresh_world minus_einval (saved_client waiting ∷ [])).0, 0)
unfolding value_is_object
bad_entry_is_success_example =
    bad_entry_is_success values calm fresh_world (saved_client waiting) (text []) []
      (saved_client logged_on ∷ []) refl first_is_imported

-- A client whose identifier is the one after the next.
abbrev second : Client
second = record waiting { id = 2 }

abbrev mac_c : CString
mac_c = codes "cc:cc:cc:cc:cc:cc"

abbrev ip_c : CString
ip_c = codes "192.168.1.12"

second-IsRestorable : IsRestorable calm fresh_world second
unfolding find_client has_node initial_state is_blocked_mac has_entry is_allowed_mac is_trusted_mac
second-IsRestorable = record {
  addable = record { new_pair = refl; good_mac = refl; good_ip = refl; room = refl };
  new_id = refl;
  fresh = refl;
  unlisted = refl;
  reachable = inl refl;
}

second_counters : (counters : Value) × IsSaved values (saved_client second) counters second
unfolding state_file_export_client put_member
second_counters =
    export_client-IsSaved values values-IsDocumented second (saved_client second) (omega arith) refl

third-IsAddable :
    IsAddable calm
      (state_file_import_client values calm fresh_world (saved_client second)).0
      mac_c
      ip_c
unfolding import_clients state_file_import_client state_file_export_client put_member member_value
    member_of value_is_object value_is_text value_is_int value_get_text value_get_int64
    value_get_uint64 value_get_int str_eq client_list_add_client find_client new_client reset_inputs
    initial_state is_blocked_mac is_allowed_mac is_trusted_mac has_entry update_node
    auth_change_state reset_fields format_04hx
third-IsAddable = record { new_pair = refl; good_mac = refl; good_ip = refl; room = refl }

imported_id_is_given_again_example :
    ((added_client calm
        (state_file_import_client values calm fresh_world (saved_client second)).0
        mac_c
        ip_c).id
      ≡ 2)
    × ((client_list_add_client calm
          (state_file_import_client values calm fresh_world (saved_client second)).0
          mac_c
          ip_c).1
        ≡ some (
            added_client calm
              (state_file_import_client values calm fresh_world (saved_client second)).0
              mac_c
              ip_c))
    × (client_list_find_by_id
          (client_list_add_client calm
            (state_file_import_client values calm fresh_world (saved_client second)).0
            mac_c
            ip_c).0
          2
        ≡ some (record second { node = 1 }))
imported_id_is_given_again_example =
    imported_id_is_given_again values calm (saved_client second) second_counters.0 second
      fresh_world mac_c ip_c second_counters.1 (omega arith) sample_marks-AreDistinct
      second-IsRestorable refl third-IsAddable
