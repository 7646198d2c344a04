-- ===== src/Control/Keeps.antt =====
-- The invariants through the requests of src/ndsctl_thread.c.
use nodogsplash.Prelude.{Bool, List, Option, arith, false, if◌then◌else◌, true, ℕ}
use nodogsplash.Prelude.Int32.{minus_one}
use nodogsplash.CString.{CString}
use nodogsplash.Auth.{auth_client_auth, auth_client_deauth}
use nodogsplash.Auth.FirewallLoops.{auth-IsInSync, deauth-IsInSync}
use nodogsplash.Auth.FirewallSync.{IsInSync}
use nodogsplash.Auth.Invariant.{auth-IsWellFormed, deauth_id-IsWellFormed}
use nodogsplash.Auth.MacOps.{
  auth_client_op, auth_client_op-IsInSync, auth_client_op-IsWellFormed, config_only-IsWellFormed,
}
use nodogsplash.Auth.Refresh.{grown-IsInSync, timed-IsInSync, timed-IsWellFormed}
use nodogsplash.ClientList.Shape.{IsWellFormed}
use nodogsplash.Conf.DebugLevel.{set_debuglevel, set_debuglevel_cases}
use nodogsplash.Conf.MacList.Unique.{MacOp, adding, allowed, blocked, removing, trusted}
use nodogsplash.Control.{
  Request, allow_request, answer, auth_request, block_request, clients_request, deauth_request,
  end_line, json_request, level_request, ndsctl_allow, ndsctl_auth, ndsctl_block, ndsctl_deauth,
  ndsctl_debuglevel, ndsctl_handler, ndsctl_trust, ndsctl_unallow, ndsctl_unblock, ndsctl_untrust,
  perform_request, report, select_request, status_request, stop_request, trust_request,
  unallow_request, unblock_request, unknown_request, untrust_request,
}
use nodogsplash.Firewall.Counters.{Line, iptables_fw_counters_update}
use nodogsplash.Firewall.Counters.Grow.{grown-IsWellFormed}
use nodogsplash.Firewall.Counters.Update.{counters_update_grows}
use nodogsplash.Firewall.Installed.{IsReliable}
use nodogsplash.World.{Env, World, read_time}

module _ (P : World → Type 0) (env : Env) (w : World) (outgoing incoming : Option (List Line))
    (same : P w)
    (counted : P (iptables_fw_counters_update env (read_time env w).0 outgoing incoming).0)
    (op_keeps : (op : MacOp) (arg : CString) → P (auth_client_op env op w arg).0)
    (auth_keeps : (id : ℕ) (reason : Option CString) → P (auth_client_auth env w id reason).0)
    (deauth_keeps : (id : ℕ) (reason : Option CString) → P (auth_client_deauth env w id reason).0)
    (level_keeps : (arg : CString)
      → P (record w { config = (set_debuglevel w.config arg).0 })) where
  search_keeps : (b : Bool) (r : World × ℕ) → P r.0 → P (if b then (w, minus_one) else r).0
  search_keeps true r p = same
  search_keeps false r p = p

  -- What the operations keep, each request keeps.
  request_keeps : (r : Request) → P (perform_request env w outgoing incoming r).0.0
  unfolding perform_request ndsctl_auth ndsctl_deauth ndsctl_block ndsctl_unblock ndsctl_allow
      ndsctl_unallow ndsctl_trust ndsctl_untrust ndsctl_debuglevel report answer auth_client_op
  request_keeps status_request = counted
  request_keeps clients_request = counted
  request_keeps (json_request arg) = counted
  request_keeps stop_request = same
  request_keeps (block_request arg) = op_keeps (adding blocked) arg
  request_keeps (unblock_request arg) = op_keeps (removing blocked) arg
  request_keeps (allow_request arg) = op_keeps (adding allowed) arg
  request_keeps (unallow_request arg) = op_keeps (removing allowed) arg
  request_keeps (trust_request arg) = op_keeps (adding trusted) arg
  request_keeps (untrust_request arg) = op_keeps (removing trusted) arg
  request_keeps (auth_request arg) = search_keeps _ _ (auth_keeps _ _)
  request_keeps (deauth_request arg) = search_keeps _ _ (deauth_keeps _ _)
  request_keeps (level_request arg) = level_keeps arg
  request_keeps unknown_request = same

level-IsWellFormed :
    (w : World) (arg : CString)
    → IsWellFormed w
    → IsWellFormed (record w { config = (set_debuglevel w.config arg).0 })
level-IsWellFormed w arg h =
    config_only-IsWellFormed w _ (ground (arith, set_debuglevel_cases w.config arg)) h

level-IsInSync :
    (w : World) (arg : CString)
    → IsInSync w
    → IsInSync (record w { config = (set_debuglevel w.config arg).0 })
level-IsInSync w arg s = record {
  shape = level-IsWellFormed w arg s.shape;
  distinct = s.distinct;
  agrees = record { outgoing = s.agrees.outgoing };
}

counted-IsWellFormed :
    (env : Env) (w : World) (outgoing incoming : Option (List Line))
    → IsWellFormed w
    → IsWellFormed (iptables_fw_counters_update env (read_time env w).0 outgoing incoming).0
counted-IsWellFormed env w outgoing incoming h =
    let h' = timed-IsWellFormed env w h in
    grown-IsWellFormed _ _ (counters_update_grows env (read_time env w).0 outgoing incoming h') h'

counted-IsInSync :
    (env : Env) (w : World) (outgoing incoming : Option (List Line))
    → IsInSync w
    → IsInSync (iptables_fw_counters_update env (read_time env w).0 outgoing incoming).0
counted-IsInSync env w outgoing incoming s =
    let s' = timed-IsInSync env w s in
    grown-IsInSync _ _ (counters_update_grows env (read_time env w).0 outgoing incoming s'.shape) s'

-- Whatever the bytes of a request, handling it keeps the client list sound.
pub handler-IsWellFormed :
    (env : Env) (w : World) (outgoing incoming : Option (List Line)) (request : CString)
    → IsWellFormed w
    → IsWellFormed (ndsctl_handler env w outgoing incoming request).0.0
unfolding ndsctl_handler
handler-IsWellFormed env w outgoing incoming request h =
    request_keeps IsWellFormed env w outgoing incoming h
      (counted-IsWellFormed env w outgoing incoming h)
      (λ op arg. auth_client_op-IsWellFormed env op w arg h)
      (λ id reason. auth-IsWellFormed env w id reason h)
      (λ id reason. deauth_id-IsWellFormed env w id reason h) (λ arg. level-IsWellFormed w arg h)
      (select_request (end_line request))

-- Whatever the bytes of a request, handling it keeps the firewall in agreement with the list as long
-- as no command fails.
pub handler-IsInSync :
    (env : Env) (w : World) (outgoing incoming : Option (List Line)) (request : CString)
    → IsReliable env
    → IsInSync w
    → IsInSync (ndsctl_handler env w outgoing incoming request).0.0
unfolding ndsctl_handler
handler-IsInSync env w outgoing incoming request rel s =
    request_keeps IsInSync env w outgoing incoming s (counted-IsInSync env w outgoing incoming s)
      (λ op arg. auth_client_op-IsInSync env op w arg rel s)
      (λ id reason. auth-IsInSync env w id reason rel s)
      (λ id reason. deauth-IsInSync env w id reason rel s) (λ arg. level-IsInSync w arg s)
      (select_request (end_line request))
