-- ===== src/Web/Handlers/Keeps.antt =====
-- The invariants through the requests that src/http_microhttpd.c serves.
use nodogsplash.Prelude.{Bool-cases, Option, inl, inr, none, some, ℕ, ◌==◌, ◌||◌}
use nodogsplash.CString.{CString, codes, str_eq}
use nodogsplash.Auth.{auth_client_auth, auth_client_deauth}
use nodogsplash.Auth.FirewallLoops.{add_client-IsInSync, auth-IsInSync, deauth-IsInSync}
use nodogsplash.Auth.FirewallSync.{IsInSync}
use nodogsplash.Auth.Invariant.{auth-IsWellFormed, deauth_id-IsWellFormed}
use nodogsplash.Auth.Refresh.{timed-IsInSync, timed-IsWellFormed}
use nodogsplash.Client.{Client}
use nodogsplash.ClientList.{client_list_add_client, client_list_find, update_node}
use nodogsplash.ClientList.Add.{add_client-IsWellFormed}
use nodogsplash.ClientList.Shape.{IsWellFormed}
use nodogsplash.Firewall.Installed.{IsReliable}
use nodogsplash.Web.{Visit, check_authdir_match, get_host, is_foreign_hosts, is_splashpage}
use nodogsplash.Web.Handlers.{
  authenticate_client, authenticated_page, find_or_add, finish_login, libmicrohttpd_cb,
  login_choice, login_fields, login_with, login_without, preauthenticated_page, same_token,
  serve_addresses, serve_client, serve_ip,
}
use nodogsplash.Web.Handlers.Writes.{login_same, write-IsInSync, write-IsWellFormed}
use nodogsplash.World.{Env, World, read_time}

-- What a write, a login, a logout, an insertion and a reading of the clock keep, a request keeps.
module _ (P : World → Type 0) (env : Env)
    (write_keeps : (w : World) (node now : ℕ) (limits : ℕ × ℕ × ℕ)
      → P w
      → P (record w { clients = update_node node (login_fields now limits) w.clients }))
    (time_keeps : (w : World) → P w → P (read_time env w).0)
    (auth_keeps : (w : World) (id : ℕ) (reason : Option CString)
      → P w
      → P (auth_client_auth env w id reason).0)
    (deauth_keeps : (w : World) (id : ℕ) (reason : Option CString)
      → P w
      → P (auth_client_deauth env w id reason).0)
    (add_keeps : (w : World) (mac ip : CString)
      → P w
      → P (client_list_add_client env w mac ip).0) where
  finish_keeps :
      (now : ℕ) (limits : ℕ × ℕ × ℕ) (node : ℕ) (url : Option CString) (r : World × ℕ)
      → P r.0
      → P (finish_login now limits node url r).0
  unfolding finish_login
  finish_keeps now limits node url (w, rc) p = elim (Bool-cases (rc == 0)) [
    | inl ok ↦ rw ok (write_keeps w node now limits p)
    | inr failed ↦ rw failed p
  ]

  with_keeps :
      (w : World) (c : Client) (now : ℕ) (url : Option CString) (r : Option (ℕ × ℕ × ℕ))
      → P w
      → P (login_with env w c now url r).0
  unfolding login_with
  with_keeps w c now url none p = p
  with_keeps w c now url (some limits) p = finish_keeps _ _ _ _ _ (auth_keeps _ _ _ p)

  choice_keeps :
      (w : World) (visit : Visit) (c : Client) (now seconds : ℕ) (url script : Option CString)
      → P w
      → P (login_choice env w visit c now seconds url script).0
  unfolding login_choice login_without
  choice_keeps w visit c now seconds url none p = finish_keeps _ _ _ _ _ (auth_keeps _ _ _ p)
  choice_keeps w visit c now seconds url (some script) p = with_keeps w c now url _ p

  login_keeps :
      (w : World) (visit : Visit) (url : Option CString) (c : Client)
      → P w
      → P (authenticate_client env w visit url c).0
  unfolding authenticate_client
  login_keeps w visit url c p = choice_keeps _ visit c _ _ url _ (time_keeps w p)

  authenticated_keeps :
      (w : World) (visit : Visit) (c : Client) → P w → P (authenticated_page env w visit c).0
  unfolding authenticated_page
  authenticated_keeps w visit c p =
      elim (Bool-cases (is_foreign_hosts w.config (get_host visit.headers))) [
        | inl foreign ↦ rw foreign p
        | inr ours ↦ rw ours (elim (Bool-cases (check_authdir_match visit.url w.config.denydir)) [
          | inl deny ↦ rw deny (deauth_keeps w c.id _ p)
          | inr stay ↦ rw stay (elim (Bool-cases (check_authdir_match visit.url w.config.authdir)) [
            | inl again ↦ rw again p
            | inr other ↦ rw other p
          ])
        ])
      ]

  preauthenticated_keeps :
      (w : World) (visit : Visit) (c : Client) → P w → P (preauthenticated_page env w visit c).0
  unfolding preauthenticated_page
  preauthenticated_keeps w visit c p =
      elim (Bool-cases (is_foreign_hosts w.config (get_host visit.headers))) [
        | inl foreign ↦ rw foreign p
        | inr ours ↦ rw ours (elim (Bool-cases (check_authdir_match visit.url w.config.authdir)) [
          | inl login ↦ rw login (elim (Bool-cases (same_token c (visit.argument (codes "tok")))) [
            | inl valid ↦ rw valid (login_keeps w visit _ c p)
            | inr invalid ↦ rw invalid p
          ])
          | inr other ↦
              rw other
                (elim (Bool-cases (is_splashpage w.config (get_host visit.headers) visit.url)) [
                  | inl splash ↦ rw splash p
                  | inr nothing ↦ rw nothing p
                ])
        ])
      ]

  serve_keeps : (visit : Visit) (r : World × Option Client) → P r.0 → P (serve_client env visit r).0
  unfolding serve_client
  serve_keeps visit (w, none) p = p
  serve_keeps visit (w, some c) p =
      elim (Bool-cases (
        c.fw_connection_state == w.marks.authenticated
        || c.fw_connection_state == w.marks.trusted)) [
          | inl inside ↦ rw inside (authenticated_keeps w visit c p)
          | inr outside ↦ rw outside (preauthenticated_keeps w visit c p)
        ]

  find_keeps :
      (w : World) (mac ip : CString) (o : Option Client) → P w → P (find_or_add env w mac ip o).0
  unfolding find_or_add
  find_keeps w mac ip none p = add_keeps w mac ip p
  find_keeps w mac ip (some c) p = p

  addresses_keeps :
      (w : World) (visit : Visit) (ip : CString) (o : Option CString)
      → P w
      → P (serve_addresses env w visit ip o).0
  unfolding serve_addresses
  addresses_keeps w visit ip none p = p
  addresses_keeps w visit ip (some mac) p =
      serve_keeps visit (find_or_add env w mac ip (client_list_find w mac ip))
        (find_keeps w mac ip (client_list_find w mac ip) p)

  ip_keeps : (w : World) (visit : Visit) (o : Option CString) → P w → P (serve_ip env w visit o).0
  unfolding serve_ip
  ip_keeps w visit none p = p
  ip_keeps w visit (some ip) p = addresses_keeps w visit ip _ p

  pub cb_keeps : (w : World) (visit : Visit) → P w → P (libmicrohttpd_cb env w visit).0
  unfolding libmicrohttpd_cb
  cb_keeps w visit p = elim (Bool-cases (str_eq visit.method (codes "GET"))) [
    | inr other ↦ rw other p
    | inl get ↦ rw get (ip_keeps w visit _ p)
  ]

-- Whatever a request to the web server holds, serving it keeps the client list sound.
pub cb-IsWellFormed :
    (env : Env) (w : World) (visit : Visit)
    → IsWellFormed w
    → IsWellFormed (libmicrohttpd_cb env w visit).0
cb-IsWellFormed env =
    cb_keeps IsWellFormed env
      (λ w node now limits h.
        write-IsWellFormed (login_fields now limits) (login_same now limits) w node h)
      (λ w h. timed-IsWellFormed env w h) (λ w id reason h. auth-IsWellFormed env w id reason h)
      (λ w id reason h. deauth_id-IsWellFormed env w id reason h)
      (λ w mac ip h. add_client-IsWellFormed env w mac ip h)

-- Whatever a request to the web server holds, serving it keeps the firewall in agreement with the list
-- as long as no command fails.
pub cb-IsInSync :
    (env : Env) (w : World) (visit : Visit)
    → IsReliable env
    → IsInSync w
    → IsInSync (libmicrohttpd_cb env w visit).0
cb-IsInSync env w visit rel =
    cb_keeps IsInSync env
      (λ v node now limits s.
        write-IsInSync (login_fields now limits) (login_same now limits) v node s)
      (λ v s. timed-IsInSync env v s) (λ v id reason s. auth-IsInSync env v id reason rel s)
      (λ v id reason s. deauth-IsInSync env v id reason rel s)
      (λ v mac ip s. add_client-IsInSync env v mac ip s) w visit
