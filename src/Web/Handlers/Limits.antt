-- ===== src/Web/Handlers/Limits.antt =====
-- The limits of a login in src/http_microhttpd.c.
use nodogsplash.Prelude.{Option, ap, arith, some, ℕ, ◌%◌, ◌*◌, ◌∙◌, ◌≡◌}
use nodogsplash.Prelude.Int32.{u32_mod}
use nodogsplash.CString.{CString, codes}
use nodogsplash.Auth.{auth_client_auth}
use nodogsplash.Client.{Client}
use nodogsplash.Web.{Visit}
use nodogsplash.Web.Handlers.{
  authenticate_client, do_binauth, finish_login, login_choice, login_with,
}
use nodogsplash.World.{Env, World, read_time}

finish_commands :
    (now : ℕ) (limits : ℕ × ℕ × ℕ) (node : ℕ) (url : Option CString) (r : World × ℕ)
    → (finish_login now limits node url r).0.commands ≡ r.0.commands
unfolding finish_login
finish_commands now limits node url (w, rc) = ground arith

-- If a binauth script is set and accepts a login, the limits that it gives reach no command of that
-- login: the commands that are run are those of auth_client_auth, whatever the script printed.
pub limits_come_late :
    (env : Env) (w : World) (visit : Visit) (url : Option CString) (c : Client) (script : CString)
    (limits : ℕ × ℕ × ℕ)
    → w.config.binauth ≡ some script
    → do_binauth visit (60 * w.config.session_timeout % u32_mod) ≡ some limits
    → (authenticate_client env w visit url c).0.commands
      ≡ (auth_client_auth env (read_time env w).0 c.id (some (codes "client_auth"))).0.commands
unfolding authenticate_client login_choice login_with
limits_come_late env w visit url c script limits on accepted =
    let (w', now) = read_time env w in
    let seconds = 60 * w.config.session_timeout % u32_mod in
    ap (λ o. (login_choice env w' visit c now seconds url o).0.commands) on
    ∙ (ap (λ o. (login_with env w' c now url o).0.commands) accepted
        ∙ finish_commands now limits c.node url _)
