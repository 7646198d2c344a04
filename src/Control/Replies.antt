-- ===== src/Control/Replies.antt =====
-- What ndsctl_handler of src/ndsctl_thread.c answers.
use nodogsplash.Prelude.{
  List, Option, [], arith, refl, some, sym, true, ◌==◌, ◌↔◌, ◌∙◌, ◌∷◌, ◌≡◌, ◌≤◌,
}
use nodogsplash.CString.{CString, codes, has_prefix}
use nodogsplash.Auth.Transitions.{AreDistinct, auth_result, deauth_result}
use nodogsplash.Client.{Client}
use nodogsplash.ClientList.{client_list_find_by_any, client_list_find_by_id}
use nodogsplash.ClientList.Members.{IsMember, any-IsMember, find_id-IsMember}
use nodogsplash.ClientList.Shape.{IsWellFormed, find-in_range}
use nodogsplash.Control.{
  Request, allow_request, answer, auth_request, block_request, clients_request, deauth_request,
  end_line, id_of, json_request, level_request, ndsctl_auth, ndsctl_deauth, ndsctl_handler,
  perform_request, select_request, status_request, stop_request, trust_request, unallow_request,
  unblock_request, unknown_request, untrust_request, yes,
}
use nodogsplash.Firewall.Counters.{Line}
use nodogsplash.World.{Env, World}

stop_select :
    (request : CString)
    → has_prefix request (codes "stop") ≡ true
    → select_request request ≡ stop_request
unfolding select_request has_prefix
stop_select [] e = cc
stop_select (a ∷ []) e = ground arith
stop_select (a ∷ b ∷ s) e = ground arith

select_stop :
    (request : CString)
    → select_request request ≡ stop_request
    → has_prefix request (codes "stop") ≡ true
unfolding select_request
select_stop request e = ground arith

perform_stop :
    (env : Env) (w : World) (outgoing incoming : Option (List Line)) (r : Request)
    → (perform_request env w outgoing incoming r).1 ≡ 1
    → r ≡ stop_request
unfolding perform_request
perform_stop env w outgoing incoming status_request e = cc
perform_stop env w outgoing incoming clients_request e = cc
perform_stop env w outgoing incoming (json_request arg) e = cc
perform_stop env w outgoing incoming stop_request e = refl
perform_stop env w outgoing incoming (block_request arg) e = cc
perform_stop env w outgoing incoming (unblock_request arg) e = cc
perform_stop env w outgoing incoming (allow_request arg) e = cc
perform_stop env w outgoing incoming (unallow_request arg) e = cc
perform_stop env w outgoing incoming (trust_request arg) e = cc
perform_stop env w outgoing incoming (untrust_request arg) e = cc
perform_stop env w outgoing incoming (auth_request arg) e = cc
perform_stop env w outgoing incoming (deauth_request arg) e = cc
perform_stop env w outgoing incoming (level_request arg) e = cc
perform_stop env w outgoing incoming unknown_request e = cc

-- The first four bytes are no line ends if they spell "stop".
stop-end_line :
    (bytes : CString) → has_prefix (end_line bytes) (codes "stop") ≡ has_prefix bytes (codes "stop")
unfolding end_line has_prefix
stop-end_line [] = refl
stop-end_line (a ∷ []) = ground arith
stop-end_line (a ∷ b ∷ []) = ground arith
stop-end_line (a ∷ b ∷ c ∷ []) = ground arith
stop-end_line (a ∷ b ∷ c ∷ d ∷ s) = ground arith

-- The handler tells its thread to stop on the requests that start with "stop", and on no other.
pub handler_stops :
    (env : Env) (w : World) (outgoing incoming : Option (List Line)) (request : CString)
    → ((ndsctl_handler env w outgoing incoming request).1 ≡ 1)
      ↔ (has_prefix request (codes "stop") ≡ true)
unfolding ndsctl_handler perform_request
handler_stops env w outgoing incoming request = (
  λ e.
      sym (stop-end_line request)
      ∙ select_stop (end_line request)
          (perform_stop env w outgoing incoming (select_request (end_line request)) e),
  λ e. rw (stop_select (end_line request) (stop-end_line request ∙ e)) refl,
)

id_positive : (w : World) (c : Client) → IsWellFormed w → IsMember c w.clients → 1 ≤ c.id
id_positive w c h m =
    ground
      (arith, find-in_range (λ d. d.id) (λ d. d.node == c.node) 1 w.client_id w.clients c m h.ids)

module _ (env : Env) (w : World) (arg : CString) (c : Client) (h : IsWellFormed w)
    (d : AreDistinct w.marks)
    (found : client_list_find_by_any w (some arg) (some arg) (some arg) ≡ some c) where
  member : IsMember c w.clients
  member = any-IsMember w arg arg arg c h found

  by_id : client_list_find_by_id w c.id ≡ some c
  by_id = find_id-IsMember 1 w.client_id w.clients c h.ids member

  -- On a sound list with distinct marks, "auth" answers Yes exactly if the client that its argument
  -- finds, by its token, else by its IP address, else by its MAC address, is preauthenticated.
  pub auth_answers :
      ((ndsctl_auth env w arg).1 ≡ yes) ↔ (c.fw_connection_state ≡ w.marks.preauthenticated)
  unfolding ndsctl_auth answer id_of
  auth_answers =
      let result = auth_result env w c (some (codes "ndsctl_auth")) d by_id in
      (
        λ e. ground (arith, e, found, id_positive w c h member, result),
        λ e. ground (arith, e, found, id_positive w c h member, result),
      )

  -- On a sound list with distinct marks, "deauth" answers Yes exactly if the client that its argument
  -- finds is authenticated.
  pub deauth_answers :
      ((ndsctl_deauth env w arg).1 ≡ yes) ↔ (c.fw_connection_state ≡ w.marks.authenticated)
  unfolding ndsctl_deauth answer id_of
  deauth_answers =
      let result = deauth_result env w c (some (codes "ndsctl_deauth")) d by_id in
      (
        λ e. ground (arith, e, found, id_positive w c h member, result),
        λ e. ground (arith, e, found, id_positive w c h member, result),
      )
