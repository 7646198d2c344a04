-- ===== src/Examples/DaemonRuns.antt =====
-- The theorems about the operations of the threads of src/main.c, at concrete states.
use mathlib.Core.Option.{none}
use nodogsplash.Prelude.{[], refl, some, true, ◌↔◌, ◌∷◌, ◌≡◌}
use nodogsplash.CString.{CString, codes, has_prefix, str_eq}
use nodogsplash.Auth.{auth_client_auth}
use nodogsplash.Auth.FirewallState.{is_logged_in}
use nodogsplash.ClientList.{
  client_list_add_client, client_list_find_by_any, client_list_find_by_id, find_client, new_client,
}
use nodogsplash.Conf.MacList.{has_entry, is_allowed_mac, is_blocked_mac, is_trusted_mac}
use nodogsplash.Control.{ndsctl_auth, ndsctl_handler, yes}
use nodogsplash.Control.Replies.{auth_answers, handler_stops}
use nodogsplash.Examples.{
  calm, ip_a, logged_on-IsWellFormed, sample_config, sample_marks, sample_marks-AreDistinct,
  waiting, waiting-IsWellFormed, world_logged_on, world_waiting,
}
use nodogsplash.Web.{Visit, check_authdir_match, get_host, is_foreign_hosts}
use nodogsplash.Web.Handlers.{authenticate_client, do_binauth, libmicrohttpd_cb, same_token}
use nodogsplash.Web.Handlers.Limits.{limits_come_late}
use nodogsplash.Web.Handlers.Login.{login_needs_token}
use nodogsplash.World.{World, read_time}

-- A visit without a token from a client that is not known, to the login page.
abbrev sample_visit : CString → Visit
sample_visit url = record {
  method = codes "GET";
  url = url;
  headers = (codes "Host", codes "192.168.1.1:2050") ∷ [];
  arguments = [];
  argument = λ key. none;
  client_ip = some (codes "192.168.1.11");
  client_mac = λ ip. some (codes "bb:bb:bb:bb:bb:bb");
  binauth_output = λ user password. none;
  can_serve = λ name. true;
}

login_needs_token_example :
    is_logged_in sample_marks (client_list_find_by_id world_logged_on 1) ≡ true
unfolding libmicrohttpd_cb same_token find_client str_eq client_list_add_client new_client
    is_blocked_mac is_allowed_mac is_trusted_mac has_entry is_foreign_hosts check_authdir_match
    get_host has_prefix
login_needs_token_example =
    login_needs_token calm world_logged_on (sample_visit (codes "/nodogsplash_auth/")) 1
      logged_on-IsWellFormed sample_marks-AreDistinct (λ mac ip c at_ip at_mac found. refl) refl

handler_stops_example :
    ((ndsctl_handler calm world_waiting none none (codes "stop")).1 ≡ 1)
    ↔ (has_prefix (codes "stop") (codes "stop") ≡ true)
handler_stops_example = handler_stops calm world_waiting none none (codes "stop")

auth_answers_example :
    ((ndsctl_auth calm world_waiting ip_a).1 ≡ yes)
    ↔ (waiting.fw_connection_state ≡ sample_marks.preauthenticated)
unfolding client_list_find_by_any find_client str_eq
auth_answers_example =
    auth_answers calm world_waiting ip_a waiting waiting-IsWellFormed sample_marks-AreDistinct refl

-- The script asks for an hour with limits, which the commands of the login do not carry.
abbrev with_script : World
with_script = record world_waiting {
  config = record sample_config { binauth = some (codes "/bin/auth") };
}

abbrev paid_visit : Visit
paid_visit = record (sample_visit (codes "/nodogsplash_auth/")) {
  binauth_output = λ user password. some (3600 ∷ 64 ∷ 128 ∷ []);
}

limits_come_late_example :
    (authenticate_client calm with_script paid_visit none waiting).0.commands
    ≡ (auth_client_auth calm
        (read_time calm with_script).0
        1
        (some (codes "client_auth"))).0.commands
unfolding do_binauth
limits_come_late_example =
    limits_come_late calm with_script paid_visit none waiting (codes "/bin/auth") (3600, 64, 128)
      refl refl
