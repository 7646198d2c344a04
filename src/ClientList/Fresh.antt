-- ===== src/ClientList/Fresh.antt =====
-- client_list_add_client of src/client_list.c where it appends a client.
use nodogsplash.Prelude.{[], none, refl, some, suc, true, ◌++◌, ◌∷◌, ◌≡◌}
use nodogsplash.Prelude.Int32.{int_lt}
use nodogsplash.CString.{CString}
use nodogsplash.Client.{Client}
use nodogsplash.ClientList.{
  add_or_keep, client_list_add_client, client_list_append, client_list_find, initial_state,
  new_client, reset_inputs,
}
use nodogsplash.World.{Env, World}

-- The addresses are new and of the right format, and there is room.
pub record IsAddable (env : Env) (w : World) (mac ip : CString) : Type 0 where
  pub new_pair : client_list_find w mac ip ≡ none
  pub good_mac : env.valid_mac mac ≡ true
  pub good_ip : env.valid_ip ip ≡ true
  pub room : int_lt w.client_count w.config.maxclients ≡ true

-- The client and the state after the call.
unfoldable pub added_client : Env → World → CString → CString → Client
added_client env w mac ip =
    new_client (reset_inputs env w).0 mac ip (reset_inputs env w).1 (reset_inputs env w).2
      (reset_inputs env w).3

unfoldable pub added_world : Env → World → CString → CString → World
unfolding added_client
added_world env w mac ip = record (reset_inputs env w).0 {
  clients = w.clients ++ added_client env w mac ip ∷ [];
  next_node = suc w.next_node;
  client_id = suc w.client_id;
  client_count = suc w.client_count;
}

pub add_client-new :
    (env : Env) (w : World) (mac ip : CString)
    → IsAddable env w mac ip
    → client_list_add_client env w mac ip
      ≡ (added_world env w mac ip, some (added_client env w mac ip))
unfolding client_list_add_client add_or_keep client_list_append added_world added_client
add_client-new env w mac ip h = rw (h.good_mac, h.good_ip) (rw h.new_pair (rw h.room refl))

-- The fields of the new client.
pub added_client_fields :
    (env : Env) (w : World) (mac ip : CString)
    → ((added_client env w mac ip).node ≡ w.next_node)
      × ((added_client env w mac ip).mac ≡ mac)
      × ((added_client env w mac ip).ip ≡ ip)
      × ((added_client env w mac ip).id ≡ w.client_id)
      × ((added_client env w mac ip).fw_connection_state ≡ initial_state w mac)
unfolding added_client new_client initial_state reset_inputs
added_client_fields env w mac ip = (refl, refl, refl, refl, refl)
