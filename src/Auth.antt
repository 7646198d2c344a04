-- ===== src/Auth.antt =====
-- src/auth.c: the authentication states of a client, their transitions, the periodic check, and the
-- entry points of the other parts. Every operation runs under `client_list_mutex`, so it is one
-- step; `debug` calls are left out. A `t_client *` argument is the record at the call.
pub mod Effects
pub mod Frame
pub mod Transitions
pub mod Invariant
pub mod FirewallState
pub mod Loops
pub mod FirewallSync
pub mod FirewallLoops
pub mod Timeouts
pub mod Shutdown
pub mod Refresh
pub mod MacOps
pub mod Logins
use nodogsplash.Prelude.{
  Bool, List, Option, [], if◌then◌else◌, leb, ltb, map, none, some, ℕ, ◌%◌, ◌&&◌, ◌*◌, ◌+◌, ◌/◌,
  ◌==◌, ◌∷◌,
}
use nodogsplash.Prelude.Int32.{int_to_u64, is_pos, minus_one, u32_mod}
use nodogsplash.CString.{CString, codes}
use nodogsplash.Client.{Client}
use nodogsplash.ClientList.{client_list_delete, client_list_find_by_id, client_reset, update_node}
use nodogsplash.Conf.MacList.{
  add_to_allowed_mac_list, add_to_blocked_mac_list, add_to_trusted_mac_list,
  remove_from_allowed_mac_list, remove_from_blocked_mac_list, remove_from_trusted_mac_list,
}
use nodogsplash.Config.{Config}
use nodogsplash.Firewall.{
  iptables_allow_mac, iptables_block_mac, iptables_fw_authenticate, iptables_fw_deauthenticate,
  iptables_trust_mac, iptables_unallow_mac, iptables_unblock_mac, iptables_untrust_mac,
}
use nodogsplash.Firewall.Counters.{Line, iptables_fw_counters_update}
use nodogsplash.World.{Env, World, read_time, run_binauth, run_command}

unfoldable pub binauth_action : Env → World → Client → Option CString → World
binauth_action env w c reason = elim w.config.binauth [
  | none ↦ w
  | some binauth ↦ (run_command env w (run_binauth binauth reason c)).0
]

-- The pattern of auth_client_trust and its kind: change the list, and only if that gave 0 run the
-- command; the result is 0 if both gave 0, else -1.
pub with_list : (Config × ℕ) → (World → World × ℕ) → World → World × ℕ
with_list (config, rc) iptables w =
    let (w', rc') = iptables (record w { config = config }) in
    if rc == 0
    then (w', if rc' == 0 then 0 else minus_one)
    else (record w { config = config }, minus_one)

unfoldable pub auth_client_trust : Env → World → CString → World × ℕ
unfolding with_list
auth_client_trust env w mac =
    with_list (add_to_trusted_mac_list env w.config mac) (λ v. iptables_trust_mac env v mac) w

unfoldable pub auth_client_untrust : Env → World → CString → World × ℕ
unfolding with_list
auth_client_untrust env w mac =
    with_list (remove_from_trusted_mac_list env w.config mac) (λ v. iptables_untrust_mac env v mac)
      w

unfoldable pub auth_client_allow : Env → World → CString → World × ℕ
unfolding with_list
auth_client_allow env w mac =
    with_list (add_to_allowed_mac_list env w.config mac) (λ v. iptables_allow_mac env v mac) w

unfoldable pub auth_client_unallow : Env → World → CString → World × ℕ
unfolding with_list
auth_client_unallow env w mac =
    with_list (remove_from_allowed_mac_list env w.config mac) (λ v. iptables_unallow_mac env v mac)
      w

unfoldable pub auth_client_block : Env → World → CString → World × ℕ
unfolding with_list
auth_client_block env w mac =
    with_list (add_to_blocked_mac_list env w.config mac) (λ v. iptables_block_mac env v mac) w

unfoldable pub auth_client_unblock : Env → World → CString → World × ℕ
unfolding with_list
auth_client_unblock env w mac =
    with_list (remove_from_blocked_mac_list env w.config mac) (λ v. iptables_unblock_mac env v mac)
      w

-- client->fw_connection_state = new_state
unfoldable pub set_state : World → ℕ → ℕ → World
set_state w node new_state = record w {
  clients = update_node node (λ c. record c { fw_connection_state = new_state }) w.clients;
}

-- The three branches of auth_change_state that act.
unfoldable pub authenticate_branch : Env → World → Client → Option CString → World
unfolding set_state
authenticate_branch env w c reason =
    let w1 = (iptables_fw_authenticate env w c).0 in
    let w2 = binauth_action env w1 c reason in set_state w2 c.node w.marks.authenticated

unfoldable pub deauthenticate_branch : Env → World → Client → Option CString → World
unfolding set_state
deauthenticate_branch env w c reason =
    let w1 = (iptables_fw_deauthenticate env w c).0 in
    let w2 = binauth_action env w1 c reason in
    let w3 = client_reset env w2 c.node in set_state w3 c.node w.marks.preauthenticated

unfoldable pub block_branch : Env → World → Client → Option CString → World
block_branch env w c reason =
    let w1 = (iptables_fw_deauthenticate env w c).0 in
    let w2 = binauth_action env w1 c reason in
    let w3 = (auth_client_block env w2 c.mac).0 in client_list_delete w3 c.node

unfoldable pub auth_change_state : Env → World → Client → ℕ → Option CString → World × ℕ
auth_change_state env w c new_state reason =
    if c.fw_connection_state == new_state
    then (w, minus_one)
    else if c.fw_connection_state == w.marks.preauthenticated
    then (if new_state == w.marks.authenticated
        then (authenticate_branch env w c reason, 0)
        else (w, minus_one))
    else if c.fw_connection_state == w.marks.authenticated
    then (if new_state == w.marks.preauthenticated
        then (deauthenticate_branch env w c reason, 0)
        else if new_state == w.marks.blocked
        then (block_branch env w c reason, 0)
        else (w, minus_one))
    else (w, minus_one)

-- A pointer that the search left NULL, or the client to act on.
unfoldable pub deauth_found : Env → World → Option CString → Option Client → World × ℕ
deauth_found env w reason none = (w, minus_one)
deauth_found env w reason (some c) = auth_change_state env w c w.marks.preauthenticated reason

unfoldable pub auth_client_deauth : Env → World → ℕ → Option CString → World × ℕ
unfolding deauth_found
auth_client_deauth env w id reason = deauth_found env w reason (client_list_find_by_id w id)

-- authenticated_since_start is an unsigned int.
count_authentication : World × ℕ → World × ℕ
count_authentication (w, rc) =
    if rc == 0
    then (record w { authenticated_since_start = (w.authenticated_since_start + 1) % u32_mod }, rc)
    else (w, rc)

auth_found : Env → World → Option CString → Option Client → World × ℕ
unfolding count_authentication
auth_found env w reason none = (w, minus_one)
auth_found env w reason (some c) =
    count_authentication (auth_change_state env w c w.marks.authenticated reason)

unfoldable pub auth_client_auth_nolock : Env → World → ℕ → Option CString → World × ℕ
unfolding auth_found
auth_client_auth_nolock env w id reason = auth_found env w reason (client_list_find_by_id w id)

abbrev pub auth_client_auth : Env → World → ℕ → Option CString → World × ℕ
auth_client_auth = auth_client_auth_nolock

-- fw_refresh_client_list: what is done to one client, found again by its identifier.
unfoldable pub session_over : ℕ → Client → Bool
session_over now c = ltb 0 c.session_end && leb c.session_end now

-- cp1->counters.incoming / 1000 > config->session_limit_block * 1000
limit_reached : World → Client → Bool
limit_reached w c =
    is_pos w.config.session_limit_block
    && ltb (int_to_u64 (w.config.session_limit_block * 1000 % u32_mod)) (c.counters.incoming / 1000)

-- timeout > 0 && conn_state == mark && (last_updated + timeout) <= now, for 60 * minutes
idle_too_long : ℕ → ℕ → ℕ → Client → Bool
idle_too_long minutes mark now c =
    is_pos (60 * minutes % u32_mod)
    && (c.fw_connection_state == mark && leb (c.counters.last_updated + 60 * minutes % u32_mod) now)

refresh_client : Env → World → ℕ → Client → World
unfolding session_over limit_reached idle_too_long
refresh_client env w now c =
    if session_over now c
    then (if is_pos w.config.session_timeout_block
        then (auth_change_state env w c w.marks.blocked (some (codes "timeout_deauth_block"))).0
        else (auth_change_state env w c w.marks.preauthenticated (some (codes "timeout_deauth"))).0)
    else if limit_reached w c
    then (auth_change_state env w c w.marks.blocked (some (codes "limitout_deauth_block"))).0
    else if idle_too_long w.config.preauth_idle_timeout w.marks.preauthenticated now c
    then client_list_delete w c.node
    else if idle_too_long w.config.auth_idle_timeout w.marks.authenticated now c
    then (auth_change_state env w c w.marks.preauthenticated (some (codes "idle_deauth"))).0
    else w

unfoldable pub refresh_found : Env → World → ℕ → Option Client → World
unfolding refresh_client
refresh_found env w now none = w
refresh_found env w now (some c) = refresh_client env w now c

-- The loops `for (cp1 = cp2 = first; cp1; cp1 = cp2)` over the list, whose body finds the client
-- again by its identifier. `cp2 = cp1->next` is read before the client is handled, and handling it
-- frees or changes only the node that the identifier finds, the first one with it; so the nodes
-- still to come, and their identifiers, are those of the list at the start.
unfoldable pub for_each_client : (World → Option Client → World) → World → List ℕ → World
for_each_client body w [] = w
for_each_client body w (id ∷ ids) = for_each_client body (body w (client_list_find_by_id w id)) ids

-- The part of fw_refresh_client_list after the counters are updated, `now` being read before.
unfoldable pub refresh_client_list : Env → World → ℕ → World
refresh_client_list env w now =
    for_each_client (λ v o. refresh_found env v now o) w (map (λ c. c.id) w.clients)

-- -1 from iptables_fw_counters_update ends the round.
after_counters : Env → ℕ → World × ℕ → World
after_counters env now (w, rc) = if rc == minus_one then w else refresh_client_list env w now

-- fw_refresh_client_list, the output of the two iptables listings being given.
unfoldable pub fw_refresh_client_list :
    Env → World → Option (List Line) → Option (List Line) → World
unfolding after_counters
fw_refresh_client_list env w outgoing incoming =
    let (w', now) = read_time env w in
    after_counters env now (iptables_fw_counters_update env w' outgoing incoming)

unfoldable pub deauth_body : Env → World → Option Client → World
unfolding deauth_found
deauth_body env w o = (deauth_found env w (some (codes "shutdown_deauth")) o).0

unfoldable pub auth_client_deauth_all : Env → World → World
auth_client_deauth_all env w = for_each_client (deauth_body env) w (map (λ c. c.id) w.clients)
