-- ===== src/Web/Handlers/Login.antt =====
-- Who is let in by a request to the web server of src/http_microhttpd.c.
use nodogsplash.Prelude.{
  Bool-cases, List, Option, [], ap, arith, false, if◌then◌else◌, inl, inr, none, refl, some, subst,
  sym, true, ℕ, ◌++◌, ◌==◌, ◌∙◌, ◌∷◌, ◌≡◌, ◌≢◌, ◌⊎◌,
}
use nodogsplash.CString.{CString, codes, str_eq}
use nodogsplash.Auth.{auth_client_deauth}
use nodogsplash.Auth.FirewallState.{is_logged_in}
use nodogsplash.Auth.Logins.{deauth_logged}
use nodogsplash.Auth.Transitions.{AreDistinct}
use nodogsplash.Client.{Client}
use nodogsplash.ClientList.{
  client_list_add_client, client_list_find, client_list_find_by_id, find_client,
}
use nodogsplash.ClientList.Add.{add_client-IsWellFormed, add_client_cases}
use nodogsplash.ClientList.Shape.{IsWellFormed}
use nodogsplash.Web.{Visit, send_error}
use nodogsplash.Web.Handlers.{
  authenticated_page, find_or_add, libmicrohttpd_cb, preauthenticated_page, same_token,
  serve_addresses, serve_client, serve_ip,
}
use nodogsplash.World.{Env, Marks, World}

-- The client that libmicrohttpd_cb serves, and the state once it is on the list.
unfoldable pub served : Env → World → Visit → CString → CString → World × Option Client
unfolding find_or_add
served env w visit mac ip = find_or_add env w mac ip (client_list_find w mac ip)

-- Without its token a request of a client leaves the state alone or logs the client out.
without_token :
    (env : Env) (w : World) (visit : Visit) (c : Client)
    → same_token c (visit.argument (codes "tok")) ≡ false
    → ((serve_client env visit (w, some c)).0 ≡ w)
      ⊎ ((serve_client env visit (w, some c)).0
          ≡ (auth_client_deauth env w c.id (some (codes "client_deauth"))).0)
unfolding serve_client authenticated_page preauthenticated_page
without_token env w visit c e = ground (arith, e)

append_logged :
    (marks : Marks) (c : Client) (id : ℕ) (cs : List Client)
    → c.fw_connection_state ≢ marks.authenticated
    → is_logged_in marks (find_client (λ x. x.id == id) (cs ++ c ∷ [])) ≡ true
    → is_logged_in marks (find_client (λ x. x.id == id) cs) ≡ true
unfolding find_client
append_logged marks c id [] other e = ground (arith, other, e)
append_logged marks c id (x ∷ xs) other e = ground (arith, append_logged marks c id xs other, e)

add_logged :
    (env : Env) (w : World) (mac ip : CString) (id : ℕ)
    → AreDistinct w.marks
    → is_logged_in w.marks (client_list_find_by_id (client_list_add_client env w mac ip).0 id)
      ≡ true
    → is_logged_in w.marks (client_list_find_by_id w id) ≡ true
add_logged env w mac ip id d e = elim (add_client_cases env w mac ip) [
  | inl same ↦ ground (arith, e, same)
  | inr (c, new) ↦ ground (
    arith,
    new.clients,
    e,
    append_logged w.marks c id w.clients
        (λ s. ground (arith, s, new.state, d.pre_auth, d.auth_blocked, d.auth_trusted)),
  )
]

served_logged :
    (env : Env) (w : World) (visit : Visit) (mac ip : CString) (id : ℕ) (o : Option Client)
    → AreDistinct w.marks
    → is_logged_in w.marks (client_list_find_by_id (find_or_add env w mac ip o).0 id) ≡ true
    → is_logged_in w.marks (client_list_find_by_id w id) ≡ true
unfolding find_or_add
served_logged env w visit mac ip id none d e = add_logged env w mac ip id d e
served_logged env w visit mac ip id (some c) d e = e

find_or_add-marks :
    (env : Env) (w : World) (mac ip : CString) (o : Option Client)
    → (find_or_add env w mac ip o).0.marks ≡ w.marks
unfolding find_or_add
find_or_add-marks env w mac ip none = elim (add_client_cases env w mac ip) [
  | inl same ↦ ap (λ v. v.marks) same
  | inr (c, new) ↦ new.marks
]
find_or_add-marks env w mac ip (some c) = refl

find_or_add-IsWellFormed :
    (env : Env) (w : World) (mac ip : CString) (o : Option Client)
    → IsWellFormed w
    → IsWellFormed (find_or_add env w mac ip o).0
unfolding find_or_add
find_or_add-IsWellFormed env w mac ip none h = add_client-IsWellFormed env w mac ip h
find_or_add-IsWellFormed env w mac ip (some c) h = h

serve_logged :
    (env : Env) (visit : Visit) (v : World) (o : Option Client) (id : ℕ)
    → IsWellFormed v
    → AreDistinct v.marks
    → ((c : Client) → o ≡ some c → same_token c (visit.argument (codes "tok")) ≡ false)
    → is_logged_in v.marks (client_list_find_by_id (serve_client env visit (v, o)).0 id) ≡ true
    → is_logged_in v.marks (client_list_find_by_id v id) ≡ true
unfolding serve_client
serve_logged env visit v none id h d wrong e = e
serve_logged env visit v (some c) id h d wrong e =
    elim (without_token env v visit c (wrong c refl)) [
      | inl same ↦ ap (λ u. is_logged_in v.marks (client_list_find_by_id u id)) (sym same) ∙ e
      | inr out ↦
          deauth_logged env v (some (codes "client_deauth")) id h d c.id
            (ap (λ u. is_logged_in v.marks (client_list_find_by_id u id)) (sym out) ∙ e)
    ]

module _ (env : Env) (w : World) (visit : Visit) (id : ℕ) (h : IsWellFormed w)
    (d : AreDistinct w.marks)
    (wrong : (mac ip : CString) (c : Client)
      → visit.client_ip ≡ some ip
      → visit.client_mac ip ≡ some mac
      → (served env w visit mac ip).1 ≡ some c
      → same_token c (visit.argument (codes "tok")) ≡ false) where
  pair_logged :
      (mac ip : CString)
      → visit.client_ip ≡ some ip
      → visit.client_mac ip ≡ some mac
      → is_logged_in w.marks
          (client_list_find_by_id (serve_client env visit (served env w visit mac ip)).0 id)
        ≡ true
      → is_logged_in w.marks (client_list_find_by_id w id) ≡ true
  unfolding served
  pair_logged mac ip at_ip at_mac e =
      let o = client_list_find w mac ip in
      let r = find_or_add env w mac ip o in
      let same : r.0.marks ≡ w.marks = find_or_add-marks env w mac ip o in
      served_logged env w visit mac ip id o d (
        subst (λ m. is_logged_in m (client_list_find_by_id r.0 id) ≡ true) same
          (serve_logged env visit r.0 r.1 id (find_or_add-IsWellFormed env w mac ip o h)
            (subst AreDistinct (sym same) d) (λ c f. wrong mac ip c at_ip at_mac f)
            (subst
              (λ m. is_logged_in m (client_list_find_by_id (serve_client env visit r).0 id) ≡ true)
              (sym same) e)))

  mac_logged :
      (ip : CString) (o : Option CString)
      → visit.client_ip ≡ some ip
      → visit.client_mac ip ≡ o
      → is_logged_in w.marks (client_list_find_by_id (serve_addresses env w visit ip o).0 id) ≡ true
      → is_logged_in w.marks (client_list_find_by_id w id) ≡ true
  unfolding serve_addresses served
  mac_logged ip none at_ip at_mac e = e
  mac_logged ip (some mac) at_ip at_mac e = pair_logged mac ip at_ip at_mac e

  ip_logged :
      (o : Option CString)
      → visit.client_ip ≡ o
      → is_logged_in w.marks (client_list_find_by_id (serve_ip env w visit o).0 id) ≡ true
      → is_logged_in w.marks (client_list_find_by_id w id) ≡ true
  unfolding serve_ip
  ip_logged none at_ip e = e
  ip_logged (some ip) at_ip e = mac_logged ip (visit.client_mac ip) at_ip refl e

-- No request logs in a client without the token: if the argument "tok" is missing or is not the token
-- of the client that the request comes from, then every client that is authenticated afterwards was
-- authenticated before. This holds on a sound list with distinct marks, for every path, host and
-- method and whatever the commands do.
pub login_needs_token :
    (env : Env) (w : World) (visit : Visit) (id : ℕ)
    → IsWellFormed w
    → AreDistinct w.marks
    → ((mac ip : CString) (c : Client)
        → visit.client_ip ≡ some ip
        → visit.client_mac ip ≡ some mac
        → (served env w visit mac ip).1 ≡ some c
        → same_token c (visit.argument (codes "tok")) ≡ false)
    → is_logged_in w.marks (client_list_find_by_id (libmicrohttpd_cb env w visit).0 id) ≡ true
    → is_logged_in w.marks (client_list_find_by_id w id) ≡ true
unfolding libmicrohttpd_cb
login_needs_token env w visit id h d wrong e =
    elim (Bool-cases (str_eq visit.method (codes "GET"))) [
      | inr other ↦ ground (arith, other, e)
      | inl get ↦ ip_logged env w visit id h d wrong visit.client_ip refl (
          ap
            (λ b. is_logged_in w.marks (
              client_list_find_by_id
                (if b then serve_ip env w visit visit.client_ip else (w, send_error 503)).0 id))
            (sym get)
          ∙ e)
    ]
