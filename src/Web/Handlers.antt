-- ===== src/Web/Handlers.antt =====
-- The handlers of src/http_microhttpd.c that change the state: the login, the pages of an
-- authenticated client, those of any other, and libmicrohttpd_cb. Each locks the client list where it
-- changes it; a handler is one step here.
pub mod Writes
pub mod Keeps
pub mod Login
pub mod Limits
use nodogsplash.Prelude.{
  Bool, List, Option, [], false, if◌then◌else◌, none, some, take, ℕ, ◌%◌, ◌*◌, ◌++◌, ◌+◌, ◌==◌, ◌^◌,
  ◌||◌, ◌∷◌,
}
use nodogsplash.Prelude.Int32.{int_to_u64, is_pos, u32_mod}
use nodogsplash.CString.{CString, codes, str_eq}
use nodogsplash.Auth.{auth_client_auth, auth_client_deauth}
use nodogsplash.Client.{Client}
use nodogsplash.ClientList.{client_list_add_client, client_list_find, update_node}
use nodogsplash.Config.{Config}
use nodogsplash.Url.{uh_urlencode}
use nodogsplash.Web.{
  Response, Visit, check_authdir_match, encode_and_redirect_to_splashpage, get_host,
  is_foreign_hosts, is_splashpage, redirect, redirect_to_splashpage, refresh, send_error,
  serve_file, show_templated_page,
}
use nodogsplash.World.{Env, World, read_time}

-- MAX(x, 0) of an int
not_negative : ℕ → ℕ
not_negative x = if is_pos x then x else 0

-- The switch on what sscanf returned, its numbers in a list: seconds, upload, download.
assign_limits : ℕ → List ℕ → Option (ℕ × ℕ × ℕ)
unfolding not_negative
assign_limits seconds [] = some (seconds, 0, 0)
assign_limits seconds (s ∷ []) = some (not_negative s, 0, 0)
assign_limits seconds (s ∷ u ∷ []) = some (not_negative s, not_negative u, 0)
assign_limits seconds (s ∷ u ∷ d ∷ []) = some (not_negative s, not_negative u, not_negative d)
assign_limits seconds (s ∷ u ∷ d ∷ e ∷ more) = none

-- uh_urlencode into a buffer of 64 bytes, if the value is there
encode_value : Option CString → Option CString
encode_value none = some []
encode_value (some value) = uh_urlencode 64 value

with_output : ℕ → Option (List ℕ) → Option (ℕ × ℕ × ℕ)
unfolding assign_limits
with_output seconds none = none
with_output seconds (some numbers) = assign_limits seconds numbers

-- A failed step is -1; else the next one runs.
infixl 1 ◌>>=◌
◌>>=◌ : {A B : Type 0} → Option A → (A → Option B) → Option B
none >>= f = none
some a >>= f = f a

-- Seconds, upload and download limit, or none for -1.
unfoldable pub do_binauth : Visit → ℕ → Option (ℕ × ℕ × ℕ)
unfolding encode_value with_output ◌>>=◌
do_binauth visit seconds = do
  username ← encode_value (visit.argument (codes "username"))
  password ← encode_value (visit.argument (codes "password"))
  with_output seconds (visit.binauth_output username password)

-- What authenticate_client writes to the client.
pub login_fields : ℕ → ℕ × ℕ × ℕ → Client → Client
login_fields now (seconds, upload, download) c = record c {
  download_limit = download;
  upload_limit = upload;
  session_start = now;
  session_end = if seconds == 0 then 0 else (now + int_to_u64 seconds) % 2 ^ 64;
}

login_response : Option CString → Response
login_response none = send_error 200
login_response (some url) = redirect url

-- The part after auth_client_auth.
finish_login : ℕ → ℕ × ℕ × ℕ → ℕ → Option CString → World × ℕ → World × Response
unfolding login_fields login_response
finish_login now limits node redirect_url (w, rc) =
    if rc == 0
    then (
      record w { clients = update_node node (login_fields now limits) w.clients },
      login_response redirect_url,
    )
    else (w, send_error 503)

login_with : Env → World → Client → ℕ → Option CString → Option (ℕ × ℕ × ℕ) → World × Response
unfolding finish_login
login_with env w c now redirect_url none =
    (w, encode_and_redirect_to_splashpage w.config redirect_url)
login_with env w c now redirect_url (some limits) =
    finish_login now limits c.node redirect_url
      (auth_client_auth env w c.id (some (codes "client_auth")))

login_without : Env → World → Client → ℕ → ℕ → Option CString → World × Response
unfolding finish_login
login_without env w c now seconds redirect_url =
    finish_login now (seconds, 0, 0) c.node redirect_url (auth_client_auth env w c.id none)

login_choice :
    Env → World → Visit → Client → ℕ → ℕ → Option CString → Option CString → World × Response
unfolding login_with login_without
login_choice env w visit c now seconds redirect_url none =
    login_without env w c now seconds redirect_url
login_choice env w visit c now seconds redirect_url (some script) =
    login_with env w c now redirect_url (do_binauth visit seconds)

pub authenticate_client : Env → World → Visit → Option CString → Client → World × Response
unfolding login_choice
authenticate_client env w visit redirect_url c =
    let (w', now) = read_time env w in
    login_choice env w' visit c now (60 * w.config.session_timeout % u32_mod) redirect_url
      w.config.binauth

-- tok && !strcmp(client->token, tok)
unfoldable pub same_token : Client → Option CString → Bool
same_token c none = false
same_token c (some tok) = str_eq c.token tok

pub try_to_authenticate : Config → Visit → Client → Bool
unfolding same_token
try_to_authenticate config visit c =
    if check_authdir_match visit.url config.authdir
    then same_token c (visit.argument (codes "tok"))
    else false

pub authenticated_page : Env → World → Visit → Client → World × Response
authenticated_page env w visit c =
    if is_foreign_hosts w.config (get_host visit.headers)
    then (w, refresh)
    else if check_authdir_match visit.url w.config.denydir
    then (
      (auth_client_deauth env w c.id (some (codes "client_deauth"))).0,
      redirect (take 127 (codes "http://" ++ (w.config.gw_http_name ++ codes "/"))),
    )
    else if check_authdir_match visit.url w.config.authdir
    then (w, show_templated_page visit w.config.statuspage)
    else (w, serve_file visit)

-- config->redirectURL, else the argument "redir"
redirect_target : Config → Visit → Option CString
redirect_target config visit = elim config.redirect_url [
  | none ↦ visit.argument (codes "redir")
  | some url ↦ some url
]

pub preauthenticated_page : Env → World → Visit → Client → World × Response
unfolding try_to_authenticate redirect_target authenticate_client
preauthenticated_page env w visit c =
    if is_foreign_hosts w.config (get_host visit.headers)
    then (w, redirect_to_splashpage w.config visit (get_host visit.headers))
    else if check_authdir_match visit.url w.config.authdir
    then (if try_to_authenticate w.config visit c
        then authenticate_client env w visit (redirect_target w.config visit) c
        else (w, encode_and_redirect_to_splashpage w.config (redirect_target w.config visit)))
    else if is_splashpage w.config (get_host visit.headers) visit.url
    then (w, show_templated_page visit w.config.splashpage)
    else (w, serve_file visit)

serve_client : Env → Visit → World × Option Client → World × Response
unfolding authenticated_page preauthenticated_page
serve_client env visit (w, none) = (w, send_error 503)
serve_client env visit (w, some c) =
    if c.fw_connection_state == w.marks.authenticated || c.fw_connection_state == w.marks.trusted
    then authenticated_page env w visit c
    else preauthenticated_page env w visit c

find_or_add : Env → World → CString → CString → Option Client → World × Option Client
find_or_add env w mac ip none = client_list_add_client env w mac ip
find_or_add env w mac ip (some c) = (w, some c)

serve_addresses : Env → World → Visit → CString → Option CString → World × Response
unfolding serve_client find_or_add
serve_addresses env w visit ip none = (w, send_error 503)
serve_addresses env w visit ip (some mac) =
    serve_client env visit (find_or_add env w mac ip (client_list_find w mac ip))

serve_ip : Env → World → Visit → Option CString → World × Response
unfolding serve_addresses
serve_ip env w visit none = (w, send_error 503)
serve_ip env w visit (some ip) = serve_addresses env w visit ip (visit.client_mac ip)

unfoldable pub libmicrohttpd_cb : Env → World → Visit → World × Response
unfolding serve_ip
libmicrohttpd_cb env w visit =
    if str_eq visit.method (codes "GET")
    then serve_ip env w visit visit.client_ip
    else (w, send_error 503)
