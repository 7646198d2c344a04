-- ===== src/Auth/Shutdown.antt =====
-- The deauthentication of all clients at shutdown, auth_client_deauth_all of src/auth.c.
use nodogsplash.Prelude.{Option, ap, arith, inl, inr, none, refl, some, sym, ℕ, ◌∙◌, ◌≡◌, ◌≢◌}
use nodogsplash.CString.{codes}
use nodogsplash.Auth.{auth_client_deauth_all, deauth_body}
use nodogsplash.Auth.Frame.{change_find_ne, change_find_self, marks_kept}
use nodogsplash.Auth.Invariant.{deauth-IsWellFormed}
use nodogsplash.Auth.Loops.{Handles, loop-IsWellFormed, loop_all, marks-loop}
use nodogsplash.Auth.Transitions.{AreDistinct, change_state_succeeds, log_out}
use nodogsplash.Client.{Client}
use nodogsplash.ClientList.{client_list_find_by_id}
use nodogsplash.ClientList.Shape.{IsWellFormed}
use nodogsplash.World.{Env, World}

-- The body of the shutdown loop: afterwards the client is not authenticated.
abbrev LoggedOut : World → ℕ → Type 0
LoggedOut w id =
    (c : Client)
    → client_list_find_by_id w id ≡ some c
    → c.fw_connection_state ≢ w.marks.authenticated

deauth_settles :
    (env : Env) (w : World) (c : Client)
    → IsWellFormed w
    → AreDistinct w.marks
    → client_list_find_by_id w c.id ≡ some c
    → LoggedOut (deauth_body env w (some c)) c.id
unfolding deauth_body
deauth_settles env w c h d found x f state =
    let reason = some (codes "shutdown_deauth") in
    let authentic : x.fw_connection_state ≡ w.marks.authenticated =
      state ∙ ap (λ m. m.authenticated) (marks_kept env w c w.marks.preauthenticated reason) in
    elim (change_find_self env w c w.marks.preauthenticated reason h found x f) [
      | inl (same, e) ↦ absurd (
          ground (
            arith,
            ap (λ r. r.1) same,
            change_state_succeeds env w c w.marks.authenticated w.marks.preauthenticated reason d
                (ground (arith, e, authentic)) (log_out refl refl),
          ))
      | inr e ↦ d.pre_auth (sym e ∙ authentic)
    ]

deauth_marks : (env : Env) (w : World) (o : Option Client) → (deauth_body env w o).marks ≡ w.marks
unfolding deauth_body
deauth_marks env w none = refl
deauth_marks env w (some c) = marks_kept env w c w.marks.preauthenticated _

deauth_handles : (env : Env) → Handles (deauth_body env) LoggedOut
unfolding deauth_body
deauth_handles env = record {
  sound = λ w o. deauth-IsWellFormed env w _ o;
  marks = λ w o. deauth_marks env w o;
  absent = λ w. refl;
  local = λ w c i h found ne. change_find_ne env w c w.marks.preauthenticated _ h found i ne;
  settles = λ w c h d found. deauth_settles env w c h d found;
  vacuous = λ w i e c f s. cc;
  depends = λ v w i e m q c f s. q c (sym e ∙ f) (s ∙ ap (λ k. k.authenticated) m);
}

-- The shutdown keeps the list sound.
pub deauth_all-IsWellFormed :
    (env : Env) (w : World) → IsWellFormed w → IsWellFormed (auth_client_deauth_all env w)
unfolding auth_client_deauth_all
deauth_all-IsWellFormed env w = loop-IsWellFormed _ _ (deauth_handles env) w _

-- After auth_client_deauth_all on a sound list with distinct marks, no client on the list is
-- authenticated.
pub deauth_all_logs_out :
    (env : Env) (w : World) (id : ℕ) (c : Client)
    → IsWellFormed w
    → AreDistinct w.marks
    → client_list_find_by_id (auth_client_deauth_all env w) id ≡ some c
    → c.fw_connection_state ≢ w.marks.authenticated
unfolding auth_client_deauth_all
deauth_all_logs_out env w id c h d found state =
    loop_all _ _ (deauth_handles env) w id h d c found
      (state ∙ sym (ap (λ k. k.authenticated) (marks-loop _ _ (deauth_handles env) w _)))
