-- ===== src/Control.antt =====
-- src/ndsctl_thread.c: the requests of ndsctl on the control socket. The handler starts from the bytes
-- that were read into its buffer of MAX_BUF bytes; Reading has the loop that reads them. An
-- argument is a pointer into the buffer, so it is the C string that starts there, beyond a NUL too.
-- A report updates the counters (src/util.c); its text is not modelled, nor the sockets.
pub mod Keeps
pub mod Replies
pub mod Reading
use nodogsplash.Prelude.{List, Option, [], if◌then◌else◌, none, some, suc, zero, ℕ, ◌==◌, ◌||◌, ◌∷◌}
use nodogsplash.Prelude.Int32.{minus_one}
use nodogsplash.CString.{CString, codes, has_prefix}
use nodogsplash.Auth.{
  auth_client_allow, auth_client_auth_nolock, auth_client_block, auth_client_deauth,
  auth_client_trust, auth_client_unallow, auth_client_unblock, auth_client_untrust,
}
use nodogsplash.Client.{Client}
use nodogsplash.ClientList.{client_list_find_by_any}
use nodogsplash.Conf.DebugLevel.{set_debuglevel}
use nodogsplash.Firewall.Counters.{Line, iptables_fw_counters_update}
use nodogsplash.World.{Env, World, read_time}

-- What is written to the socket.
pub data Reply : Type 0 where
  yes no no_reply : Reply
  status_report clients_report : Reply
  json_report : CString → Reply

-- The C string at an offset of the buffer: the bytes up to a NUL.
unfoldable pub c_string : CString → CString
c_string [] = []
c_string (b ∷ bs) = let rest = c_string bs in if b == 0 then [] else b ∷ rest

unfoldable pub argument_at : ℕ → CString → CString
unfolding c_string
argument_at zero buffer = c_string buffer
argument_at (suc n) [] = []
argument_at (suc n) (b ∷ bs) = argument_at n bs

-- if (request[i] == '\r' || request[i] == '\n') request[i] = '\0';
unfoldable pub end_line : CString → CString
end_line [] = []
end_line (b ∷ bs) = (if b == b'\r' || b == b'\n' then 0 else b) ∷ end_line bs

-- if (rc == 0) "Yes" else "No"
unfoldable pub answer : World × ℕ → World × Reply
answer (w, rc) = (w, if rc == 0 then yes else no)

-- client ? client->id : 0
pub id_of : Option Client → ℕ
id_of none = 0
id_of (some c) = c.id

pub ndsctl_auth : Env → World → CString → World × Reply
unfolding answer id_of
ndsctl_auth env w arg =
    let id = id_of (client_list_find_by_any w (some arg) (some arg) (some arg)) in
    answer (
      if id == 0
      then (w, minus_one)
      else auth_client_auth_nolock env w id (some (codes "ndsctl_auth")))

pub ndsctl_deauth : Env → World → CString → World × Reply
unfolding answer id_of
ndsctl_deauth env w arg =
    let id = id_of (client_list_find_by_any w (some arg) (some arg) (some arg)) in
    answer (
      if id == 0
      then (w, minus_one)
      else auth_client_deauth env w id (some (codes "ndsctl_deauth")))

pub ndsctl_block : Env → World → CString → World × Reply
unfolding answer
ndsctl_block env w arg = answer (auth_client_block env w arg)

pub ndsctl_unblock : Env → World → CString → World × Reply
unfolding answer
ndsctl_unblock env w arg = answer (auth_client_unblock env w arg)

pub ndsctl_allow : Env → World → CString → World × Reply
unfolding answer
ndsctl_allow env w arg = answer (auth_client_allow env w arg)

pub ndsctl_unallow : Env → World → CString → World × Reply
unfolding answer
ndsctl_unallow env w arg = answer (auth_client_unallow env w arg)

pub ndsctl_trust : Env → World → CString → World × Reply
unfolding answer
ndsctl_trust env w arg = answer (auth_client_trust env w arg)

pub ndsctl_untrust : Env → World → CString → World × Reply
unfolding answer
ndsctl_untrust env w arg = answer (auth_client_untrust env w arg)

pub ndsctl_debuglevel : World → CString → World × Reply
ndsctl_debuglevel w arg =
    let (config, rc) = set_debuglevel w.config arg in
    (record w { config = config }, if rc == 0 then yes else no)

-- The state change of ndsctl_status, ndsctl_clients and ndsctl_json: now = time(NULL), and the
-- counters, given the output of the two listings.
pub report : Env → World → Option (List Line) → Option (List Line) → Reply → World × Reply
report env w outgoing incoming reply =
    ((iptables_fw_counters_update env (read_time env w).0 outgoing incoming).0, reply)

-- The chain of tests on the request, and the branch that it selects with its argument.
pub data Request : Type 0 where
  status_request clients_request stop_request unknown_request : Request
  json_request block_request unblock_request allow_request unallow_request : CString → Request
  trust_request untrust_request auth_request deauth_request level_request : CString → Request

unfoldable pub select_request : CString → Request
select_request request =
    if has_prefix request (codes "status")
    then status_request
    else if has_prefix request (codes "clients")
    then clients_request
    else if has_prefix request (codes "json")
    then json_request (argument_at 5 request)
    else if has_prefix request (codes "stop")
    then stop_request
    else if has_prefix request (codes "block")
    then block_request (argument_at 6 request)
    else if has_prefix request (codes "unblock")
    then unblock_request (argument_at 8 request)
    else if has_prefix request (codes "allow")
    then allow_request (argument_at 6 request)
    else if has_prefix request (codes "unallow")
    then unallow_request (argument_at 8 request)
    else if has_prefix request (codes "trust")
    then trust_request (argument_at 6 request)
    else if has_prefix request (codes "untrust")
    then untrust_request (argument_at 8 request)
    else if has_prefix request (codes "auth")
    then auth_request (argument_at 5 request)
    else if has_prefix request (codes "deauth")
    then deauth_request (argument_at 7 request)
    else if has_prefix request (codes "debuglevel")
    then level_request (argument_at 11 request)
    else unknown_request

-- What the branch does: the new state, the reply, and what the handler returns.
pub perform_request :
    Env → World → Option (List Line) → Option (List Line) → Request → (World × Reply) × ℕ
unfolding ndsctl_auth ndsctl_deauth ndsctl_block ndsctl_unblock ndsctl_allow ndsctl_unallow
    ndsctl_trust ndsctl_untrust ndsctl_debuglevel report
perform_request env w outgoing incoming status_request =
    (report env w outgoing incoming status_report, 0)
perform_request env w outgoing incoming clients_request =
    (report env w outgoing incoming clients_report, 0)
perform_request env w outgoing incoming (json_request arg) =
    (report env w outgoing incoming (json_report arg), 0)
perform_request env w outgoing incoming stop_request = ((w, no_reply), 1)
perform_request env w outgoing incoming (block_request arg) = (ndsctl_block env w arg, 0)
perform_request env w outgoing incoming (unblock_request arg) = (ndsctl_unblock env w arg, 0)
perform_request env w outgoing incoming (allow_request arg) = (ndsctl_allow env w arg, 0)
perform_request env w outgoing incoming (unallow_request arg) = (ndsctl_unallow env w arg, 0)
perform_request env w outgoing incoming (trust_request arg) = (ndsctl_trust env w arg, 0)
perform_request env w outgoing incoming (untrust_request arg) = (ndsctl_untrust env w arg, 0)
perform_request env w outgoing incoming (auth_request arg) = (ndsctl_auth env w arg, 0)
perform_request env w outgoing incoming (deauth_request arg) = (ndsctl_deauth env w arg, 0)
perform_request env w outgoing incoming (level_request arg) = (ndsctl_debuglevel w arg, 0)
perform_request env w outgoing incoming unknown_request = ((w, no_reply), 0)

-- ndsctl_handler once the bytes are read.
unfoldable pub ndsctl_handler :
    Env → World → Option (List Line) → Option (List Line) → CString → (World × Reply) × ℕ
unfolding select_request perform_request end_line
ndsctl_handler env w outgoing incoming bytes =
    perform_request env w outgoing incoming (select_request (end_line bytes))
