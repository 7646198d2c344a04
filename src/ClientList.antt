-- ===== src/ClientList.antt =====
-- src/client_list.c: the list of the connected clients and its operations.
-- A `t_client *` is the address of a node; a function that returns one returns the record that
-- stands there. The callers hold `client_list_mutex`, so each operation is one step.
-- `client_id` and `client_count` are ints that do not overflow here: that is undefined in C.
pub mod Search
pub mod Shape
pub mod Members
pub mod Add
pub mod Fresh
pub mod Delete
use nodogsplash.Prelude.{
  Bool, List, Option, [], false, if◌then◌else◌, ltb, none, not, some, suc, ℕ, ◌%◌, ◌&&◌, ◌++◌, ◌+◌,
  ◌-◌, ◌/◌, ◌==◌, ◌^◌, ◌||◌, ◌∷◌,
}
use nodogsplash.Prelude.Int32.{int_lt}
use nodogsplash.CString.{CString, str_eq}
use nodogsplash.Client.{Client}
use nodogsplash.Conf.MacList.{is_allowed_mac, is_blocked_mac, is_trusted_mac}
use nodogsplash.World.{Env, World, read_time}

-- The loops `while (ptr) { if (test) return ptr; ptr = ptr->next; }`.
unfoldable pub find_client : (Client → Bool) → List Client → Option Client
find_client test [] = none
find_client test (c ∷ cs) = if test c then some c else find_client test cs

abbrev pub client_list_find : World → CString → CString → Option Client
client_list_find w mac ip = find_client (λ c. str_eq c.mac mac && str_eq c.ip ip) w.clients

abbrev pub client_list_find_by_id : World → ℕ → Option Client
client_list_find_by_id w id = find_client (λ c. c.id == id) w.clients

abbrev pub client_list_find_by_ip : World → CString → Option Client
client_list_find_by_ip w ip = find_client (λ c. str_eq c.ip ip) w.clients

abbrev pub client_list_find_by_mac : World → CString → Option Client
client_list_find_by_mac w mac = find_client (λ c. str_eq c.mac mac) w.clients

abbrev pub client_list_find_by_token : World → CString → Option Client
client_list_find_by_token w token = find_client (λ c. str_eq c.token token) w.clients

-- One of the three steps of the search: if nothing is found yet and the key is not NULL.
or_else_find : (CString → Option Client) → Option CString → Option Client → Option Client
or_else_find find key (some c) = some c
or_else_find find none none = none
or_else_find find (some key) none = find key

unfoldable pub client_list_find_by_any :
    World → Option CString → Option CString → Option CString → Option Client
unfolding or_else_find
client_list_find_by_any w mac ip token = or_else_find (client_list_find_by_mac w) mac (
    or_else_find (client_list_find_by_ip w) ip
      (or_else_find (client_list_find_by_token w) token none))

-- rand16 of src/util.c: (unsigned short) (rand() >> 15)
pub rand16 : Env → World → World × ℕ
rand16 env w =
    (record w { rands_drawn = suc w.rands_drawn }, env.rand w.rands_drawn / 2 ^ 15 % 2 ^ 16)

hex_digit : ℕ → ℕ
hex_digit d = if ltb d 10 then b'0' + d else b'a' + (d - 10)

-- "%04hx"
unfoldable pub format_04hx : ℕ → CString
unfolding hex_digit
format_04hx n =
    hex_digit (n / 2 ^ 12 % 16)
    ∷ hex_digit (n / 2 ^ 8 % 16)
    ∷ hex_digit (n / 2 ^ 4 % 16)
    ∷ hex_digit (n % 16)
    ∷ []

-- What client_reset writes, given the time and the two random numbers.
unfoldable pub reset_fields : Client → ℕ → ℕ → ℕ → Client
reset_fields c now r1 r2 = record c {
  counters = record { incoming = 0; outgoing = 0; last_updated = now };
  session_start = 0;
  session_end = 0;
  token = format_04hx r1 ++ format_04hx r2;
}

-- The values that client_reset reads.
unfoldable pub reset_inputs : Env → World → World × ℕ × ℕ × ℕ
unfolding rand16 read_time
reset_inputs env w =
    let (w1, now) = read_time env w in
    let (w2, r1) = rand16 env w1 in let (w3, r2) = rand16 env w2 in (w3, now, r1, r2)

-- A write through a pointer to a node of the list.
unfoldable pub update_node : ℕ → (Client → Client) → List Client → List Client
update_node node f [] = []
update_node node f (c ∷ cs) = if c.node == node then f c ∷ cs else c ∷ update_node node f cs

-- client_reset of a client that is on the list
unfoldable pub client_reset : Env → World → ℕ → World
unfolding reset_inputs reset_fields
client_reset env w node =
    let (w', now, r1, r2) = reset_inputs env w in
    record w' { clients = update_node node (λ c. reset_fields c now r1 r2) w'.clients }

-- The state of a new client, from the MAC lists.
unfoldable pub initial_state : World → CString → ℕ
initial_state w mac =
    if is_blocked_mac w.config mac
    then w.marks.blocked
    else if is_allowed_mac w.config mac || is_trusted_mac w.config mac
    then w.marks.trusted
    else w.marks.preauthenticated

-- A node from safe_malloc and memset(0), with the two addresses.
pub blank_client : ℕ → CString → CString → Client
blank_client node mac ip = record {
  node = node;
  ip = ip;
  mac = mac;
  token = [];
  fw_connection_state = 0;
  session_start = 0;
  session_end = 0;
  counters = record { incoming = 0; outgoing = 0; last_updated = 0 };
  download_limit = 0;
  upload_limit = 0;
  id = 0;
}

-- The node that _client_list_append links: reset, classified and numbered.
unfoldable pub new_client : World → CString → CString → ℕ → ℕ → ℕ → Client
unfolding reset_fields initial_state blank_client
new_client w mac ip now r1 r2 =
    let client = reset_fields (blank_client w.next_node mac ip) now r1 r2 in
    record client { fw_connection_state = initial_state w mac; id = w.client_id }

-- _client_list_append
pub client_list_append : Env → World → CString → CString → World × Option Client
unfolding reset_inputs
client_list_append env w mac ip =
    if not (int_lt w.client_count w.config.maxclients)
    then (w, none)
    else (let (w', now, r1, r2) = reset_inputs env w in
        let client = new_client w' mac ip now r1 r2 in
        (
          record w' {
            clients = w'.clients ++ client ∷ [];
            next_node = suc w'.next_node;
            client_id = suc w'.client_id;
            client_count = suc w'.client_count;
          },
          some client,
        ))

-- client_list_add_client once the formats are checked, on the outcome of the search
add_or_keep : Env → World → CString → CString → Option Client → World × Option Client
add_or_keep env w mac ip none = client_list_append env w mac ip
add_or_keep env w mac ip (some c) = (w, some c)

unfoldable pub client_list_add_client : Env → World → CString → CString → World × Option Client
unfolding add_or_keep client_list_append
client_list_add_client env w mac ip =
    if not (env.valid_mac mac)
    then (w, none)
    else if not (env.valid_ip ip)
    then (w, none)
    else add_or_keep env w mac ip (client_list_find w mac ip)

unfoldable pub has_node : ℕ → List Client → Bool
has_node node [] = false
has_node node (c ∷ cs) = c.node == node || has_node node cs

unfoldable pub unlink_node : ℕ → List Client → List Client
unlink_node node [] = []
unlink_node node (c ∷ cs) = if c.node == node then cs else c ∷ unlink_node node cs

-- An empty list, or a node that is not found, is only logged.
unfoldable pub client_list_delete : World → ℕ → World
client_list_delete w node =
    if has_node node w.clients
    then record w { clients = unlink_node node w.clients; client_count = w.client_count - 1 }
    else w

abbrev pub get_client_list_length : World → ℕ
get_client_list_length w = w.client_count

unfoldable pub client_list_init : World → World
client_list_init w = record w { clients = []; client_count = 0 }

unfoldable pub client_list_flush : World → World
client_list_flush w =
    if w.client_count == 0 then w else record w { clients = []; client_count = 0; client_id = 1 }
