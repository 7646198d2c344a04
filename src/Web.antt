-- ===== src/Web.antt =====
-- src/http_microhttpd.c: the requests to the web server. A Visit is one request with what the code
-- learns of it from outside: the values that libmicrohttpd hands out, the two addresses of the client,
-- what the binauth script prints, and whether the file that is asked for can be served. A response is
-- the call that queues it. The path is the one that buffer_path_simplify, copied from lighttpd, made.
pub mod Handlers
use nodogsplash.Prelude.{
  Bool, List, Option, [], drop, false, if◌then◌else◌, leb, length, none, some, true, ℕ, ◌++◌, ◌+◌,
  ◌-◌, ◌==◌, ◌||◌, ◌∷◌,
}
use nodogsplash.CString.{CString, codes, has_prefix, str_eq}
use nodogsplash.Config.{Config}
use nodogsplash.Url.{uh_urlencode}
use nodogsplash.Url.Bounds.{encoded}

pub record Visit : Type 0 where
  pub method : CString
  pub url : CString
  pub headers : List (CString × CString)
  pub arguments : List (CString × Option CString)
  -- MHD_lookup_connection_value of a GET argument
  pub argument : CString → Option CString
  -- get_client_ip and get_client_mac, none for -1
  pub client_ip : Option CString
  pub client_mac : CString → Option CString
  -- the numbers that sscanf reads from the output of the script, none if the script or sscanf fails
  pub binauth_output : CString → CString → Option (List ℕ)
  -- the file under the web root is there and can be read
  pub can_serve : CString → Bool

-- The status, or the target of a redirection; a page is a template or a file under the web root.
pub data Response : Type 0 where
  error : ℕ → Response
  redirect : CString → Response
  refresh : Response
  page : CString → Response
  file : CString → Response

-- send_error: the status that is queued for the code that is asked for
pub send_error : ℕ → Response
send_error code = error (if code == 503 then 500 else code)

-- get_host_value_callback over the headers
unfoldable pub get_host : List (CString × CString) → Option CString
get_host [] = none
get_host ((key, value) ∷ headers) =
    if str_eq (codes "Host") key then some value else get_host headers

unfoldable pub is_foreign_hosts : Config → Option CString → Bool
is_foreign_hosts config none = false
is_foreign_hosts config (some host) =
    if str_eq host config.gw_http_name
    then false
    else if str_eq host config.gw_http_name_port
    then false
    else true

is_root : CString → Bool
is_root url = str_eq url [] || str_eq (codes "/") url

unfoldable pub is_splashpage : Config → Option CString → CString → Bool
unfolding is_root is_foreign_hosts
is_splashpage config none url = is_root url
is_splashpage config (some host) url =
    if is_foreign_hosts config (some host)
    then false
    else if is_root url
    then true
    else str_eq config.splashpage (drop 1 url)

unfoldable pub check_authdir_match : CString → CString → Bool
check_authdir_match url authdir =
    if length url == 2 + length authdir then has_prefix (drop 1 url) authdir else false

-- One round of get_query_callback: the query so far, in a buffer of `capacity` bytes with its NUL.
query_value : Option CString → CString
query_value none = []
query_value (some value) = b'=' ∷ value

append_query : ℕ → CString → CString → Option CString → Option CString
unfolding query_value
append_query capacity query key value =
    let separator = if length query == 0 then b'?' else b'&' in
    let piece = separator ∷ key ++ query_value value in
    if leb (capacity - length query) (length piece) then none else some (query ++ piece)

unfoldable pub get_query : ℕ → CString → List (CString × Option CString) → Option CString
unfolding append_query
get_query capacity query [] = some query
get_query capacity query ((key, value) ∷ rest) = elim (append_query capacity query key value) [
  | none ↦ none
  | some longer ↦ get_query capacity longer rest
]

abbrev pub querymaxlen : ℕ
querymaxlen = 4096

splash_url : Config → CString → CString
splash_url config encoded =
    codes "http://"
    ++ (config.gw_http_name ++ (codes "/" ++ (config.splashpage ++ (codes "?redir=" ++ encoded))))

-- The third argument, the query string, is not used by the code.
pub encode_and_redirect_to_splashpage : Config → Option CString → Response
unfolding splash_url send_error
encode_and_redirect_to_splashpage config none = redirect (splash_url config [])
encode_and_redirect_to_splashpage config (some originurl) =
    elim (uh_urlencode querymaxlen originurl) [
      | none ↦ send_error 503
      | some encoded ↦ redirect (splash_url config encoded)
    ]

host_text : Option CString → CString
host_text none = codes "(null)"
host_text (some host) = host

pub redirect_to_splashpage : Config → Visit → Option CString → Response
unfolding get_query encode_and_redirect_to_splashpage host_text send_error
redirect_to_splashpage config visit host = elim (get_query querymaxlen [] visit.arguments) [
  | none ↦ send_error 503
  | some query ↦
      encode_and_redirect_to_splashpage config
        (some (codes "http://" ++ (host_text host ++ (visit.url ++ query))))
]

pub show_templated_page : Visit → CString → Response
unfolding send_error
show_templated_page visit name = if visit.can_serve name then page name else send_error 404

pub serve_file : Visit → Response
unfolding send_error
serve_file visit = if visit.can_serve visit.url then file visit.url else send_error 404
