-- ===== src/StateFile.antt =====
-- src/state_file.c: the client list written to a JSON file and read back. The file system and
-- json-c are parameters. A `goto err` keeps what was written before it.
pub mod Json
pub mod Keeps
pub mod Members
pub mod Numbered
pub mod Saved
pub mod Written
pub mod Export
pub mod Failures
pub mod Restore
pub mod Roundtrip
use nodogsplash.Prelude.{
  Bool, List, Option, [], false, if◌then◌else◌, none, not, some, ℕ, ◌%◌, ◌-◌, ◌==◌, ◌^◌, ◌∷◌,
}
use nodogsplash.Prelude.Int32.{int_to_u64, minus_one, u32_mod}
use nodogsplash.CString.{CString, codes, str_eq}
use nodogsplash.Auth.{auth_change_state}
use nodogsplash.Client.{Client}
use nodogsplash.ClientList.{
  client_list_add_client, client_list_find, client_list_find_by_id, find_client, update_node,
}
use nodogsplash.Conf.Options.{download_limit, upload_limit}
use nodogsplash.Netfilter.{incoming, outgoing}
use nodogsplash.StateFile.Json.{JsonC}
use nodogsplash.World.{Env, World}

-- The outcome of a step: an error label was reached, or the function goes on.
pub data Step {ℓ} (A : Type ℓ) : Type ℓ where
  stop : World → Step A
  next : World → A → Step A

abbrev pub M {ℓ} : Type ℓ → Type ℓ
M A = World → Step A

infixl 5 ◌>>=◌ ◌>>◌
abbrev pub ◌>>=◌ {ℓ κ} : {A : Type ℓ} {B : Type κ} → M A → (A → M B) → M B
◌>>=◌ m f w = elim (m w) [ stop w' ↦ stop w' | next w' a ↦ f a w' ]

abbrev pub ◌>>◌ {ℓ κ} : {A : Type ℓ} {B : Type κ} → M A → M B → M B
m >> k = m >>= λ _. k

-- A pointer that must be NULL: a client that would be a duplicate.
pub no_duplicate : (World → Option Client) → M (Unit {0})
no_duplicate find w = elim (find w) [ none ↦ next w tt | some c ↦ stop w ]

-- `client = client_list_add_client(mac, ip)`, with the node of the client.
pub add_client : Env → CString → CString → M ℕ
add_client env mac ip w =
    let (w', found) = client_list_add_client env w mac ip in
    elim found [ none ↦ stop w' | some c ↦ next w' c.node ]

-- A write through the pointer.
pub write_node : ℕ → (Client → Client) → M (Unit {0})
write_node node f w = next (record w { clients = update_node node f w.clients }) tt

-- auth_change_state(client, state, "import_state_file"), whose result is not read.
pub change_node : Env → ℕ → ℕ → M (Unit {0})
change_node env node state w = elim (find_client (λ c. c.node == node) w.clients) [
  | none ↦ next w tt
  | some c ↦ next (auth_change_state env w c state (some (codes "import_state_file"))).0 tt
]

-- What stat says of the path.
pub data Stat : Type 0 where
  accessible enoent inaccessible : Stat

abbrev pub json_export_version : ℕ
json_export_version = 1

-- -EINVAL and the result -3, as an int.
abbrev pub minus_einval : ℕ
minus_einval = 2 ^ 32 - 22

abbrev pub minus_three : ℕ
minus_three = 2 ^ 32 - 3

-- The results of the functions.
pub end_with : Step (Unit {0}) → World × ℕ
end_with (stop w) = (w, minus_one)
end_with (next w a) = (w, 0)

module _ (J : JsonC) where
  open J use {Json}

  -- json_object_object_add in a chain: an error of one call ends it.
  pub add_member : Option Json → CString → Json → Option Json
  add_member none name v = none
  add_member (some o) name v = J.object_add o name v

  unfoldable pub export_counters : Client → Option Json
  unfolding add_member
  export_counters c =
      let n1 = add_member J.new_object (codes "incoming") (J.new_uint64 c.counters.incoming) in
      let n2 = add_member n1 (codes "outgoing") (J.new_uint64 c.counters.outgoing) in
      add_member n2 (codes "last_updated") (J.new_uint64 c.counters.last_updated)

  pub add_counters : Option Json → Option Json → Option Json
  unfolding add_member
  add_counters cli none = none
  add_counters cli (some counters) = add_member cli (codes "counters") counters

  -- The members before the counters.
  pub export_fields : Client → Option Json
  unfolding add_member
  export_fields c =
      let m1 = add_member J.new_object (codes "ip") (J.new_string c.ip) in
      let m2 = add_member m1 (codes "mac") (J.new_string c.mac) in
      let m3 = add_member m2 (codes "token") (J.new_string c.token) in
      let m4 = add_member m3 (codes "fw_connection_state") (J.new_int64 c.fw_connection_state) in
      let m5 = add_member m4 (codes "session_start") (J.new_uint64 c.session_start) in
      let m6 = add_member m5 (codes "session_end") (J.new_uint64 c.session_end) in
      let m7 = add_member m6 (codes "download_limit") (J.new_int64 (int_to_u64 c.download_limit)) in
      let m8 = add_member m7 (codes "upload_limit") (J.new_int64 (int_to_u64 c.upload_limit)) in
      add_member m8 (codes "id") (J.new_uint64 c.id)

  unfoldable pub state_file_export_client : Client → Option Json
  unfolding export_fields export_counters add_counters
  state_file_export_client c = add_counters (export_fields c) (export_counters c)

  -- The loop over the list, which adds to the array.
  pub export_list : List Client → Json → Option Json
  export_list [] clist = some clist
  export_list (c ∷ cs) clist = elim (state_file_export_client c) [
    | none ↦ none
    | some client ↦ export_list cs (J.array_add clist client)
  ]

  pub export_array : List Client → Option Json
  unfolding export_list
  export_array cs = elim J.new_array [ none ↦ none | some clist ↦ export_list cs clist ]

  pub add_clients : Option Json → Option Json → Option Json
  unfolding add_member
  add_clients top none = none
  add_clients top (some clist) = add_member top (codes "clients") clist

  -- The tree that is written.
  unfoldable pub export_top : List Client → Option Json
  unfolding add_member export_array add_clients
  export_top cs =
      let t1 = add_member J.new_object (codes "version") (J.new_int64 json_export_version) in
      let t2 = add_member t1 (codes "name") (J.new_string (codes "nodogsplash")) in
      add_clients t2 (export_array cs)

  -- -ENOMEM where the first object cannot be made; `to_file` is json_object_to_file.
  abbrev pub minus_enomem : ℕ
  minus_enomem = 2 ^ 32 - 12

  pub state_file_export : (CString → Json → ℕ) → World → CString → ℕ
  unfolding export_top
  state_file_export to_file w path = elim J.new_object [
    | none ↦ minus_enomem
    | some top ↦ elim (export_top w.clients) [
      | none ↦ minus_einval
      | some tree ↦ if to_file path tree == 0 then 0 else minus_einval
    ]
  ]

  -- JSON_GET_FIELD and JSON_GET_FIELD_OBJECT: the member of the right type, read by `get`.
  unfoldable pub get_field {ℓ} :
      {A : Type ℓ} → Json → CString → (Json → Bool) → (Json → A) → Option A
  get_field o name is_type get = elim (J.object_get o name) [
    | none ↦ none
    | some v ↦ if is_type v then some (get v) else none
  ]

  pub field {ℓ} : {A : Type ℓ} → Json → CString → (Json → Bool) → (Json → A) → M A
  unfolding get_field
  field o name is_type get w = elim (get_field o name is_type get) [
    | none ↦ stop w
    | some a ↦ next w a
  ]

  -- What is written once the client is on the list.
  pub import_fields : Env → Json → ℕ → ℕ → M (Unit {0})
  unfolding field write_node change_node
  import_fields env cli id node = do
    token ← field cli (codes "token") J.is_string J.get_string
    write_node node (λ c. record c { token = token; id = id })
    began ← field cli (codes "session_start") J.is_int J.get_uint64
    write_node node (λ c. record c { session_start = began })
    over ← field cli (codes "session_end") J.is_int J.get_uint64
    write_node node (λ c. record c { session_end = over })
    down ← field cli (codes "download_limit") J.is_int J.get_int
    write_node node (λ c. record c { download_limit = down })
    up ← field cli (codes "upload_limit") J.is_int J.get_int
    write_node node (λ c. record c { upload_limit = up })
    counters ← field cli (codes "counters") J.is_object (λ v. v)
    received ← field counters (codes "incoming") J.is_int J.get_uint64
    write_node node (λ c. record c { counters = record c.counters { incoming = received } })
    sent ← field counters (codes "outgoing") J.is_int J.get_uint64
    write_node node (λ c. record c { counters = record c.counters { outgoing = sent } })
    seen ← field counters (codes "last_updated") J.is_int J.get_uint64
    write_node node (λ c. record c { counters = record c.counters { last_updated = seen } })
    state ← field cli (codes "fw_connection_state") J.is_int J.get_int64
    change_node env node (state % u32_mod)

  -- The steps once the key of the client is read.
  pub import_new : Env → Json → CString → CString → ℕ → M (Unit {0})
  unfolding import_fields no_duplicate add_client
  import_new env cli mac ip id = do
    no_duplicate (λ w. client_list_find w mac ip)
    no_duplicate (λ w. client_list_find_by_id w id)
    node ← add_client env mac ip
    import_fields env cli id node

  -- The identifier is an unsigned int.
  pub import_steps : Env → Json → M (Unit {0})
  unfolding import_new field
  import_steps env cli = do
    mac ← field cli (codes "mac") J.is_string J.get_string
    ip ← field cli (codes "ip") J.is_string J.get_string
    number ← field cli (codes "id") J.is_int J.get_uint64
    import_new env cli mac ip (number % u32_mod)

  unfoldable pub state_file_import_client : Env → World → Json → World × ℕ
  unfolding import_steps end_with
  state_file_import_client env w cli = end_with (import_steps env cli w)

  -- The loop over the array; `rc` is the variable, which an entry of another type leaves as it is.
  unfoldable pub import_clients : Env → World → ℕ → List Json → World × ℕ
  import_clients env w rc [] = (w, 0)
  import_clients env w rc (cli ∷ rest) =
      let (w', rc') = state_file_import_client env w cli in
      let go_on = import_clients env w' rc' rest in
      if not (J.is_object cli) then (w, rc) else if rc' == 0 then go_on else (w', minus_three)

  pub import_array : Env → World → Option Json → World × ℕ
  import_array env w none = (w, minus_einval)
  import_array env w (some clients) = import_clients env w minus_einval (J.items clients)

  -- The tests of the version and the name.
  unfoldable pub right_version : Json → Bool
  unfolding get_field
  right_version top = elim (get_field top (codes "version") J.is_int J.get_int64) [
    | none ↦ false
    | some version ↦ version == json_export_version
  ]

  pub right_name : Json → Bool
  unfolding get_field
  right_name top = elim (get_field top (codes "name") J.is_string J.get_string) [
    | none ↦ false
    | some name ↦ str_eq name (codes "nodogsplash")
  ]

  pub import_top : Env → World → Option Json → World × ℕ
  unfolding right_version right_name import_array import_clients get_field
  import_top env w none = (w, minus_one)
  import_top env w (some top) =
      if not (right_version top)
      then (w, minus_einval)
      else if not (right_name top)
      then (w, minus_einval)
      else import_array env w (get_field top (codes "clients") J.is_array (λ v. v))

  -- `stat` and json_object_from_file are given.
  pub state_file_import :
      (CString → Stat) → (CString → Option Json) → Env → World → CString → World × ℕ
  unfolding import_top
  state_file_import stat from_file env w path = elim (stat path) [
    | accessible ↦ import_top env w (from_file path)
    | enoent ↦ (w, 1)
    | inaccessible ↦ (w, 2)
  ]
