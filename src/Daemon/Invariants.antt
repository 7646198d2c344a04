-- ===== src/Daemon/Invariants.antt =====
-- What holds after the start of the daemon in src/main.c and every sequence of operations.
use nodogsplash.Prelude.{List, [], some, true, ◌∷◌, ◌≡◌}
use nodogsplash.CString.{CString}
use nodogsplash.Auth.FirewallLoops.{
  add_client-IsInSync, auth-IsInSync, deauth-IsInSync, deauth_all-IsInSync,
}
use nodogsplash.Auth.FirewallState.{rule_count}
use nodogsplash.Auth.FirewallSync.{IsInSync}
use nodogsplash.Auth.Invariant.{auth-IsWellFormed, deauth_id-IsWellFormed}
use nodogsplash.Auth.Refresh.{fw_refresh-IsInSync, fw_refresh-IsWellFormed}
use nodogsplash.Auth.Shutdown.{deauth_all-IsWellFormed}
use nodogsplash.ClientList.{client_list_find}
use nodogsplash.ClientList.Add.{add_client-IsWellFormed}
use nodogsplash.ClientList.Shape.{IsWellFormed}
use nodogsplash.Conf.Options.{Settings}
use nodogsplash.Control.Keeps.{handler-IsInSync, handler-IsWellFormed}
use nodogsplash.Daemon.{
  Operation, check_timeouts, connect, control, log_in_client, log_out_client, no_marks, perform,
  run, serve_visit, shut_down,
}
use nodogsplash.Daemon.Restart.{start_daemon-IsInSync, start_daemon-IsWellFormed}
use nodogsplash.Daemon.Startup.{Surroundings, start_daemon}
use nodogsplash.Firewall.Installed.{IsReliable, installed}
use nodogsplash.Firewall.Marks.{start_marks}
use nodogsplash.StateFile.Json.{JsonC}
use nodogsplash.StateFile.Numbered.{IsNumberedFile}
use nodogsplash.Web.Handlers.Keeps.{cb-IsInSync, cb-IsWellFormed}
use nodogsplash.World.{Env, World, mark_outgoing}

pub perform-IsWellFormed :
    (env : Env) (w : World) (op : Operation) → IsWellFormed w → IsWellFormed (perform env w op)
unfolding perform
perform-IsWellFormed env w (serve_visit visit) h = cb-IsWellFormed env w visit h
perform-IsWellFormed env w (connect mac ip) h = add_client-IsWellFormed env w mac ip h
perform-IsWellFormed env w (log_in_client id reason) h = auth-IsWellFormed env w id reason h
perform-IsWellFormed env w (log_out_client id reason) h = deauth_id-IsWellFormed env w id reason h
perform-IsWellFormed env w (control outgoing incoming request) h =
    handler-IsWellFormed env w outgoing incoming request h
perform-IsWellFormed env w (check_timeouts outgoing incoming) h =
    fw_refresh-IsWellFormed env w outgoing incoming h
perform-IsWellFormed env w shut_down h = deauth_all-IsWellFormed env w h

pub perform-IsInSync :
    (env : Env) (w : World) (op : Operation)
    → IsReliable env
    → IsInSync w
    → IsInSync (perform env w op)
unfolding perform
perform-IsInSync env w (serve_visit visit) rel s = cb-IsInSync env w visit rel s
perform-IsInSync env w (connect mac ip) rel s = add_client-IsInSync env w mac ip s
perform-IsInSync env w (log_in_client id reason) rel s = auth-IsInSync env w id reason rel s
perform-IsInSync env w (log_out_client id reason) rel s = deauth-IsInSync env w id reason rel s
perform-IsInSync env w (control outgoing incoming request) rel s =
    handler-IsInSync env w outgoing incoming request rel s
perform-IsInSync env w (check_timeouts outgoing incoming) rel s =
    fw_refresh-IsInSync env w outgoing incoming rel s
perform-IsInSync env w shut_down rel s = deauth_all-IsInSync env w rel s

keep_running :
    (env : Env) (P : World → Type 0)
    → ((w : World) (op : Operation) → P w → P (perform env w op))
    → (w : World) (ops : List Operation) → P w
    → P (run env w ops)
unfolding run
keep_running env P keep w [] p = p
keep_running env P keep w (op ∷ ops) p =
    keep_running env P keep (perform env w op) ops (keep w op p)

-- If the program gets as far as starting its threads and the web server took no request before, then
-- from there on, after every sequence of operations and whatever the results of the external commands,
-- the client list is sound: its counter is its length and within `maxclients`, the identifiers and
-- nodes are distinct and below the next ones, and no pair of addresses stands twice. Where a state file
-- is imported, its clients must be numbered from 1 on in their order.
pub run-IsWellFormed :
    (J : JsonC) (env : Env) (around : Surroundings J) (s : Settings) (w : World)
    (ops : List Operation)
    → (around.with_state_file ≡ true → IsNumberedFile J (around.from_file s.statefile))
    → start_daemon J env around s ≡ some w
    → IsWellFormed (run env w ops)
run-IsWellFormed J env around s w ops numbered started =
    keep_running env IsWellFormed (λ v op h. perform-IsWellFormed env v op h) w ops
      (start_daemon-IsWellFormed J env around s w numbered started)

-- If the program gets as far as starting its threads, the web server took no request before, the
-- configured marks pass the check at the start, no external command fails, and the clients of a state
-- file that is imported are numbered from 1 on in their order, then after every sequence of operations
-- the rule that marks the packets of a pair of addresses as authenticated is installed exactly once if
-- the client with these addresses is authenticated, and not at all if it is not or if there is none.
pub run_grants_access :
    (J : JsonC) (env : Env) (around : Surroundings J) (s : Settings) (w : World)
    (ops : List Operation) (mac ip : CString)
    → IsReliable env
    → (start_marks s.config no_marks 0).1 ≡ 0
    → (around.with_state_file ≡ true → IsNumberedFile J (around.from_file s.statefile))
    → start_daemon J env around s ≡ some w
    → installed (mark_outgoing ip mac) (run env w ops).commands
      ≡ rule_count (run env w ops).marks (client_list_find (run env w ops) mac ip)
run_grants_access J env around s w ops mac ip rel ok numbered started =
    (keep_running env IsInSync (λ v op h. perform-IsInSync env v op rel h) w ops
        (start_daemon-IsInSync J env around s w rel ok numbered started)).agrees.outgoing
      mac ip
