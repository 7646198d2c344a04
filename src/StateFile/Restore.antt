-- ===== src/StateFile/Restore.antt =====
-- state_file_import_client of src/state_file.c on an object that the export wrote.
use nodogsplash.Prelude.{
  Bool, List, Option, [], ap, arith, false, fun_ext, inl, inr, none, refl, some, suc, sym, ℕ, ◌%◌,
  ◌++◌, ◌<◌, ◌==◌, ◌^◌, ◌∙◌, ◌∷◌, ◌≡◌, ◌⊎◌,
}
use nodogsplash.Prelude.Int32.{minus_one, u32_mod}
use nodogsplash.CString.{CString, codes}
use nodogsplash.Auth.{auth_change_state, authenticate_branch, set_state}
use nodogsplash.Auth.Effects.{authenticate_branch_lem}
use nodogsplash.Auth.Transitions.{AreDistinct}
use nodogsplash.Client.{Client}
use nodogsplash.ClientList.{
  client_list_add_client, client_list_find, client_list_find_by_id, find_client, has_node,
  initial_state, new_client, reset_inputs, update_node,
}
use nodogsplash.ClientList.Fresh.{IsAddable, add_client-new, added_client, added_world}
use nodogsplash.StateFile.{
  M, Step, add_client, change_node, end_with, field, get_field, import_fields, import_new,
  import_steps, next, no_duplicate, state_file_import_client, stop, write_node, ◌>>=◌, ◌>>◌,
}
use nodogsplash.StateFile.Json.{JsonC}
use nodogsplash.StateFile.Saved.{IsInRange, IsSaved}
use nodogsplash.World.{Command, Env, World}

-- The last node of a list is written.
pub update_node-last :
    (node : ℕ) (f : Client → Client) (cs : List Client) (d : Client)
    → has_node node cs ≡ false
    → d.node ≡ node
    → update_node node f (cs ++ d ∷ []) ≡ cs ++ f d ∷ []
unfolding update_node has_node
update_node-last node f [] d absent e = ground (arith, e)
update_node-last node f (x ∷ xs) d absent e = ground (arith, update_node-last node f xs d)

pub find-last :
    (node : ℕ) (cs : List Client) (d : Client)
    → has_node node cs ≡ false
    → d.node ≡ node
    → find_client (λ c. c.node == node) (cs ++ d ∷ []) ≡ some d
unfolding find_client has_node
find-last node [] d absent e = ground (arith, e)
find-last node (x ∷ xs) d absent e = ground (arith, find-last node xs d)

-- The new client with what the file says of it.
abbrev pub filled : Client → Client → Client
filled d c = record c {
  node = d.node;
  ip = d.ip;
  mac = d.mac;
  fw_connection_state = d.fw_connection_state;
}

pub bind_next :
    {A B : Type 0} (m : M A) (f : A → M B) (w w' : World) (a : A)
    → m w ≡ next w' a
    → (m >>= f) w ≡ f a w'
bind_next m f w w' a e = rw (◌>>=◌, e) refl

pub no_duplicate_lem :
    (find : World → Option Client) (w : World) → find w ≡ none → no_duplicate find w ≡ next w tt
unfolding no_duplicate
no_duplicate_lem find w e = rw (no_duplicate, e) refl

pub add_client_lem :
    (env : Env) (w : World) (mac ip : CString) (w' : World) (d : Client)
    → client_list_add_client env w mac ip ≡ (w', some d)
    → add_client env mac ip w ≡ next w' d.node
unfolding add_client
add_client_lem env w mac ip w' d e = ap given e
  where
    given : World × Option Client → Step ℕ
    given (v, found) = elim found [ none ↦ stop v | some c ↦ next v c.node ]

module _ (J : JsonC) (env : Env) (cli counters : J.Json) (c : Client)
    (s : IsSaved J cli counters c) where
  field_found {ℓ} :
      {A : Type ℓ} (o : J.Json) (name : CString) (is_type : J.Json → Bool) (get : J.Json → A)
      (a : A)
      → get_field J o name is_type get ≡ some a
      → field J o name is_type get ≡ (λ w. next w a)
  unfolding field
  field_found o name is_type get a e = fun_ext λ w. rw (field, e) refl

  fields_written :
      (w : World) (cs : List Client) (d : Client)
      → w.clients ≡ cs ++ d ∷ []
      → has_node d.node cs ≡ false
      → import_fields J env cli c.id d.node w
        ≡ change_node env d.node
            (c.fw_connection_state % u32_mod)
            (record w { clients = cs ++ filled d c ∷ [] })
  unfolding import_fields write_node
  fields_written w cs d e absent = rw (field_found _ _ _ _ _ s.token) (
      rw (field_found _ _ _ _ _ s.starts) (
        rw (field_found _ _ _ _ _ s.over) (
          rw (field_found _ _ _ _ _ s.down) (
            rw (field_found _ _ _ _ _ s.up) (
              rw (field_found _ _ _ _ _ s.nested) (
                rw (field_found _ _ _ _ _ s.received) (
                  rw (field_found _ _ _ _ _ s.sent) (
                    rw (field_found _ _ _ _ _ s.seen) (
                      rw (field_found _ _ _ _ _ s.state) (
                        rw e (
                          simp (λ (f : Client → Client) (x : Client) (k : x.node ≡ d.node).
                            update_node-last d.node f cs x absent k))))))))))))

-- What the import of one client leaves: the client at the end of the list under a new node, the
-- counters moved on, and nothing else changed but the log of commands.
pub record Restored (w w' : World) (c : Client) : Type 0 where
  pub clients : w'.clients ≡ w.clients ++ record c { node = w.next_node } ∷ []
  pub config : w'.config ≡ w.config
  pub marks : w'.marks ≡ w.marks
  pub count : w'.client_count ≡ suc w.client_count
  pub next_id : w'.client_id ≡ suc w.client_id
  pub next_node : w'.next_node ≡ suc w.next_node

-- auth_change_state to the state that the client has, and from preauthenticated to authenticated.
same_state_kept :
    (env : Env) (w : World) (d : Client) (state : ℕ) (reason : Option CString)
    → d.fw_connection_state ≡ state
    → auth_change_state env w d state reason ≡ (w, minus_one)
unfolding auth_change_state
same_state_kept env w d state reason e = ground arith

login_taken :
    (env : Env) (w : World) (d : Client) (state : ℕ) (reason : Option CString)
    → AreDistinct w.marks
    → d.fw_connection_state ≡ w.marks.preauthenticated
    → state ≡ w.marks.authenticated
    → auth_change_state env w d state reason ≡ (authenticate_branch env w d reason, 0)
unfolding auth_change_state
login_taken env w d state reason m pre into = ground (arith, m.pre_auth)

-- The change of the state, on the client at the end of the list.
state_restored :
    (env : Env) (w : World) (cs : List Client) (d : Client) (state : ℕ)
    → AreDistinct w.marks
    → has_node d.node cs ≡ false
    → d.fw_connection_state ≡ w.marks.preauthenticated
    → (state ≡ w.marks.preauthenticated) ⊎ (state ≡ w.marks.authenticated)
    → (history : List (Command × ℕ)) × (change_node env d.node state
          (record w { clients = cs ++ d ∷ [] })
        ≡ next
            (record w {
              commands = history;
              clients = cs ++ record d { fw_connection_state = state } ∷ [];
            })
            tt)
unfolding change_node set_state
state_restored env w cs d state m fresh pre (inl same) =
    (w.commands, rw (change_node, find-last d.node cs d fresh refl) kept)
  where
    v : World
    v = record w { clients = cs ++ d ∷ [] }

    kept :
        ◌≡◌ {A = Step (Unit {0})}
          (next (auth_change_state env v d state (some (codes "import_state_file"))).0 tt)
          (next (record v { clients = cs ++ record d { fw_connection_state = state } ∷ [] }) tt)
    kept = rw (same_state_kept env v d state _ (pre ∙ sym same)) (
        ap (λ t. next (record v { clients = cs ++ record d { fw_connection_state = t } ∷ [] }) tt)
          (pre ∙ sym same))
state_restored env w cs d state m fresh pre (inr into) =
    let v = record w { clients = cs ++ d ∷ [] } in
    let (history, e) = authenticate_branch_lem env v d (some (codes "import_state_file")) in
    (
      history,
      rw (change_node, find-last d.node cs d fresh refl)
          (rw (login_taken env v d state _ m pre into) (
            rw e (
              ap (λ l. next (record w { commands = history; clients = l }) tt)
                (update_node-last d.node _ cs d fresh refl
                  ∙ ap (λ t. cs ++ record d { fw_connection_state = t } ∷ []) (sym into))))),
    )

-- The client may be added under its identifier, and its saved state is one that the import reaches.
pub record IsRestorable (env : Env) (w : World) (c : Client) : Type 0 where
  pub addable : IsAddable env w c.mac c.ip
  pub new_id : client_list_find_by_id w c.id ≡ none
  pub fresh : has_node w.next_node w.clients ≡ false
  pub unlisted : initial_state w c.mac ≡ w.marks.preauthenticated
  pub reachable :
      (c.fw_connection_state ≡ w.marks.preauthenticated)
      ⊎ (c.fw_connection_state ≡ w.marks.authenticated)

module _ (J : JsonC) (env : Env) (cli counters : J.Json) (c : Client)
    (s : IsSaved J cli counters c) where
  new_client_restored :
      (w : World)
      → IsRestorable env w c
      → import_new J env cli c.mac c.ip c.id w
        ≡ change_node env w.next_node
            (c.fw_connection_state % u32_mod)
            (record (added_world env w c.mac c.ip) {
              clients = w.clients ++ filled (added_client env w c.mac c.ip) c ∷ [];
            })
  unfolding import_new added_world added_client nodogsplash.ClientList.reset_inputs
      nodogsplash.ClientList.new_client
  new_client_restored w h =
      let fill = import_fields J env cli c.id in
      let add : M (Unit {0}) = add_client env c.mac c.ip >>= fill in
      let by_id = no_duplicate (λ v. client_list_find_by_id v c.id) in
      bind_next (no_duplicate (λ v. client_list_find v c.mac c.ip)) (λ x. by_id >> add) w w tt
        (no_duplicate_lem (λ v. client_list_find v c.mac c.ip) w h.addable.new_pair)
      ∙ bind_next by_id (λ x. add) w w tt
          (no_duplicate_lem (λ v. client_list_find_by_id v c.id) w h.new_id)
      ∙ bind_next (add_client env c.mac c.ip) fill w _ _
          (add_client_lem env w c.mac c.ip _ _ (add_client-new env w c.mac c.ip h.addable))
      ∙ fields_written J env cli counters c s (added_world env w c.mac c.ip) w.clients
          (added_client env w c.mac c.ip) refl h.fresh

  -- The steps up to the change of the state.
  steps_reach_change :
      (w : World)
      → c.id < 2 ^ 32
      → IsRestorable env w c
      → import_steps J env cli w
        ≡ change_node env w.next_node
            (c.fw_connection_state % u32_mod)
            (record (added_world env w c.mac c.ip) {
              clients = w.clients ++ filled (added_client env w c.mac c.ip) c ∷ [];
            })
  unfolding import_steps
  steps_reach_change w small h =
      let e : c.id % u32_mod ≡ c.id = omega arith in
      rw (field_found J env cli counters c s _ _ _ _ _ s.mac) (
        rw (field_found J env cli counters c s _ _ _ _ _ s.ip)
          (rw (field_found J env cli counters c s _ _ _ _ _ s.id) (rw e (new_client_restored w h))))

  pub import_client-Restored :
      (w : World)
      → IsInRange c
      → AreDistinct w.marks
      → IsRestorable env w c
      → ((state_file_import_client J env w cli).1 ≡ 0)
        × Restored w (state_file_import_client J env w cli).0 c
  unfolding state_file_import_client end_with added_world nodogsplash.ClientList.reset_inputs
      nodogsplash.ClientList.new_client
  import_client-Restored w r m h =
      let e : c.fw_connection_state % u32_mod ≡ c.fw_connection_state = omega (arith, r.state) in
      let (history, finished_it) =
        state_restored env (added_world env w c.mac c.ip) w.clients
          (filled (added_client env w c.mac c.ip) c) c.fw_connection_state m h.fresh h.unlisted
          h.reachable in
      rw (steps_reach_change w r.number h) (
        rw e (
          rw finished_it (
            refl,
            record {
              clients = refl;
              config = refl;
              marks = refl;
              count = refl;
              next_id = refl;
              next_node = refl;
            },
          )))
