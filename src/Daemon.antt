-- ===== src/Daemon.antt =====
-- The daemon as a whole: its start, and the operations that the threads of src/main.c start on the
-- shared state, in any order. Each runs under the mutexes, so a run is a list of them; ndsctl_deauth
-- and the timer, which release a mutex and take it again, are also covered as the two operations they
-- consist of.
pub mod Invariants
pub mod Restart
pub mod Restored
pub mod Startup
use nodogsplash.Prelude.{List, Option, [], ℕ, ◌∷◌}
use nodogsplash.CString.{CString}
use nodogsplash.Auth.{
  auth_client_auth, auth_client_deauth, auth_client_deauth_all, fw_refresh_client_list,
}
use nodogsplash.ClientList.{client_list_add_client}
use nodogsplash.Control.{ndsctl_handler}
use nodogsplash.Firewall.Counters.{Line}
use nodogsplash.Web.{Visit}
use nodogsplash.Web.Handlers.{libmicrohttpd_cb}
use nodogsplash.World.{Env, Marks, World}

-- The FW_MARK_ variables before they are set.
abbrev pub no_marks : Marks
no_marks = record { preauthenticated = 0; authenticated = 0; blocked = 0; trusted = 0 }

-- What is done once the threads are started: a request to the web server, or the insertion, the login
-- and the logout that it consists of, a request on the control socket, a round of the timer, and the
-- shutdown. The listings are what iptables prints at that time.
pub data Operation : Type 0 where
  serve_visit : Visit → Operation
  connect : CString → CString → Operation
  log_in_client : ℕ → Option CString → Operation
  log_out_client : ℕ → Option CString → Operation
  control : Option (List Line) → Option (List Line) → CString → Operation
  check_timeouts : Option (List Line) → Option (List Line) → Operation
  shut_down : Operation

pub perform : Env → World → Operation → World
perform env w (serve_visit visit) = (libmicrohttpd_cb env w visit).0
perform env w (connect mac ip) = (client_list_add_client env w mac ip).0
perform env w (log_in_client id reason) = (auth_client_auth env w id reason).0
perform env w (log_out_client id reason) = (auth_client_deauth env w id reason).0
perform env w (control outgoing incoming request) =
    (ndsctl_handler env w outgoing incoming request).0.0
perform env w (check_timeouts outgoing incoming) = fw_refresh_client_list env w outgoing incoming
perform env w shut_down = auth_client_deauth_all env w

unfoldable pub run : Env → World → List Operation → World
unfolding perform
run env w [] = w
run env w (op ∷ ops) = run env (perform env w op) ops
