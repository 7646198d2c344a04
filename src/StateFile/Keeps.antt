-- ===== src/StateFile/Keeps.antt =====
-- The steps of the import in src/state_file.c that follow the addition of a client, and an invariant
-- of the state that the writes, the additions and the changes of state keep.
use nodogsplash.Prelude.{
  Bool, List, Option, Option-cases, [], ap, false, inl, inr, none, refl, some, subst, sym, ℕ, ◌%◌,
  ◌++◌, ◌==◌, ◌∙◌, ◌∷◌, ◌≡◌, ◌⊎◌,
}
use nodogsplash.Prelude.Int32.{u32_mod}
use nodogsplash.CString.{CString, codes}
use nodogsplash.Auth.{auth_change_state}
use nodogsplash.Client.{Client}
use nodogsplash.ClientList.{client_list_add_client, find_client, has_node, update_node}
use nodogsplash.StateFile.{
  M, Step, change_node, field, get_field, import_fields, next, stop, write_node, ◌>>=◌, ◌>>◌,
}
use nodogsplash.StateFile.Json.{JsonC}
use nodogsplash.StateFile.Restore.{bind_next, update_node-last}
use nodogsplash.World.{Env, World}

Step-cases {ℓ} :
    {A : Type ℓ} (s : Step A)
    → ((w : World) × (s ≡ stop w)) ⊎ ((w : World) × (a : A) × (s ≡ next w a))
Step-cases (stop w) = inl (w, refl)
Step-cases (next w a) = inr (w, a, refl)

-- What each kind of step keeps. A write keeps the identity and the state of a client.
pub record IsKept (env : Env) (P : World → Type 0) : Type 0 where
  pub write :
      (f : Client → Client)
      → ((c : Client)
          → ((f c).id ≡ c.id)
            × ((f c).node ≡ c.node)
            × ((f c).mac ≡ c.mac)
            × ((f c).ip ≡ c.ip)
            × ((f c).fw_connection_state ≡ c.fw_connection_state))
      → (w : World) (node : ℕ) → P w
      → P (record w { clients = update_node node f w.clients })
  pub add : (w : World) (mac ip : CString) → P w → P (client_list_add_client env w mac ip).0
  pub fresh : (w : World) → P w → has_node w.next_node w.clients ≡ false
  pub change :
      (w : World) (c : Client) (node t : ℕ) (reason : Option CString)
      → find_client (λ d. d.node == node) w.clients ≡ some c
      → P w
      → P (auth_change_state env w c t reason).0
  pub number :
      (w : World) (c : Client) (t : ℕ) (reason : Option CString)
      → (auth_change_state env w c t reason).0.client_id ≡ w.client_id

-- After a step: the invariant, and on success the number that comes next.
unfoldable pub Holds {ℓ} : {A : Type ℓ} → (World → Type 0) → ℕ → Step A → Type 0
Holds P n (stop w) = P w
Holds P n (next w a) = P w × (w.client_id ≡ n)

module _ (J : JsonC) (env : Env) (P : World → Type 0) (kept : IsKept env P) where
  bind-Holds {ℓ κ} :
      {A : Type ℓ} {B : Type κ} (n : ℕ) (m : M A) (f : A → M B) (w : World)
      → Holds P n (m w)
      → ((v : World) (a : A) → P v → v.client_id ≡ n → Holds P n (f a v))
      → Holds P n ((m >>= f) w)
  unfolding Holds
  bind-Holds n m f w h k = elim (Step-cases (m w)) [
    | inl (v, e) ↦ rw (◌>>=◌, e) (rw e at h)
    | inr (v, a, e) ↦ let g : P v × (v.client_id ≡ n) = rw e at h in rw (◌>>=◌, e) (k v a g.0 g.1)
  ]

  field-Holds {ℓ} :
      {A : Type ℓ} (n : ℕ) (o : J.Json) (name : CString) (is_type : J.Json → Bool)
      (get : J.Json → A) (w : World)
      → P w
      → w.client_id ≡ n
      → Holds P n (field J o name is_type get w)
  unfolding field Holds
  field-Holds n o name is_type get w p e = elim (Option-cases (get_field J o name is_type get)) [
    | inl missing ↦ rw (field, missing) p
    | inr (a, found) ↦ rw (field, found) (p, e)
  ]

  -- A member that is read and written.
  member-Holds {ℓ κ} :
      {A : Type ℓ} {B : Type κ} (n : ℕ) (o : J.Json) (name : CString) (is_type : J.Json → Bool)
      (get : J.Json → A) (node : ℕ) (f : A → Client → Client) (k : M B) (w : World)
      → ((a : A) (c : Client)
          → ((f a c).id ≡ c.id)
            × ((f a c).node ≡ c.node)
            × ((f a c).mac ≡ c.mac)
            × ((f a c).ip ≡ c.ip)
            × ((f a c).fw_connection_state ≡ c.fw_connection_state))
      → P w
      → w.client_id ≡ n
      → ((v : World) → P v → v.client_id ≡ n → Holds P n (k v))
      → Holds P n ((field J o name is_type get >>= (λ a. write_node node (f a) >> k)) w)
  unfolding write_node
  member-Holds n o name is_type get node f k w same p e go =
      bind-Holds n (field J o name is_type get) (λ a. write_node node (f a) >> k) w
        (field-Holds n o name is_type get w p e)
        (λ v a q d.
          go (record v { clients = update_node node (f a) v.clients })
            (kept.write (f a) (same a) v node q) d)

  change_found :
      (node state : ℕ) (w : World) (o : Option Client)
      → find_client (λ c. c.node == node) w.clients ≡ o
      → change_node env node state w ≡ elim o [
        | none ↦ next w tt
        | some c ↦ next (auth_change_state env w c state (some (codes "import_state_file"))).0 tt
      ]
  unfolding change_node
  change_found node state w o e = rw (sym e) refl

  change-Holds :
      (n node state : ℕ) (w : World) (o : Option Client)
      → find_client (λ c. c.node == node) w.clients ≡ o
      → P w
      → w.client_id ≡ n
      → Holds P n (change_node env node state w)
  unfolding Holds
  change-Holds n node state w none found p e = rw (change_found node state w none found) (p, e)
  change-Holds n node state w (some c) found p e =
      rw (change_found node state w (some c) found)
        (kept.change w c node state _ found p, kept.number w c state _ ∙ e)

  -- What follows the token.
  later_fields : J.Json → ℕ → M (Unit {0})
  later_fields cli node = do
    began ← field J cli (codes "session_start") J.is_int J.get_uint64
    write_node node (λ c. record c { session_start = began })
    over ← field J cli (codes "session_end") J.is_int J.get_uint64
    write_node node (λ c. record c { session_end = over })
    down ← field J cli (codes "download_limit") J.is_int J.get_int
    write_node node (λ c. record c { download_limit = down })
    up ← field J cli (codes "upload_limit") J.is_int J.get_int
    write_node node (λ c. record c { upload_limit = up })
    counters ← field J cli (codes "counters") J.is_object (λ v. v)
    received ← field J counters (codes "incoming") J.is_int J.get_uint64
    write_node node (λ c. record c { counters = record c.counters { incoming = received } })
    sent ← field J counters (codes "outgoing") J.is_int J.get_uint64
    write_node node (λ c. record c { counters = record c.counters { outgoing = sent } })
    seen ← field J counters (codes "last_updated") J.is_int J.get_uint64
    write_node node (λ c. record c { counters = record c.counters { last_updated = seen } })
    state ← field J cli (codes "fw_connection_state") J.is_int J.get_int64
    change_node env node (state % u32_mod)

  later-Holds :
      (n : ℕ) (cli : J.Json) (node : ℕ) (w : World)
      → P w
      → w.client_id ≡ n
      → Holds P n (later_fields cli node w)
  unfolding later_fields
  later-Holds n cli node w p e =
      member-Holds n cli (codes "session_start") J.is_int J.get_uint64 node
        (λ began c. record c { session_start = began }) _ w (λ a c. (refl, refl, refl, refl, refl))
        p e
        (λ w1 p1 e1.
          member-Holds n cli (codes "session_end") J.is_int J.get_uint64 node
            (λ over c. record c { session_end = over }) _ w1 (λ a c. (refl, refl, refl, refl, refl))
            p1 e1
            (λ w2 p2 e2.
              member-Holds n cli (codes "download_limit") J.is_int J.get_int node
                (λ down c. record c { download_limit = down }) _ w2
                (λ a c. (refl, refl, refl, refl, refl)) p2 e2
                (λ w3 p3 e3.
                  member-Holds n cli (codes "upload_limit") J.is_int J.get_int node
                    (λ up c. record c { upload_limit = up }) _ w3
                    (λ a c. (refl, refl, refl, refl, refl)) p3 e3
                    (λ w4 p4 e4.
                      bind-Holds n (field J cli (codes "counters") J.is_object (λ v. v)) _ w4
                        (field-Holds n cli (codes "counters") J.is_object (λ v. v) w4 p4 e4)
                        (λ w5 counters p5 e5.
                          member-Holds n counters (codes "incoming") J.is_int J.get_uint64 node
                            (λ received c. record c {
                              counters = record c.counters { incoming = received };
                            })
                            _ w5 (λ a c. (refl, refl, refl, refl, refl)) p5 e5
                            (λ w6 p6 e6.
                              member-Holds n counters (codes "outgoing") J.is_int J.get_uint64 node
                                (λ sent c. record c {
                                  counters = record c.counters { outgoing = sent };
                                })
                                _ w6 (λ a c. (refl, refl, refl, refl, refl)) p6 e6
                                (λ w7 p7 e7.
                                  member-Holds n counters (codes "last_updated") J.is_int
                                    J.get_uint64 node
                                    (λ seen c. record c {
                                      counters = record c.counters { last_updated = seen };
                                    })
                                    _ w7 (λ a c. (refl, refl, refl, refl, refl)) p7 e7
                                    (λ w8 p8 e8.
                                      bind-Holds n
                                        (field J cli (codes "fw_connection_state") J.is_int
                                          J.get_int64)
                                        _ w8
                                        (field-Holds n cli (codes "fw_connection_state") J.is_int
                                          J.get_int64 w8 p8 e8)
                                        (λ w9 state p9 e9.
                                          change-Holds n node (state % u32_mod) w9 _ refl p9
                                            e9)))))))))

  pub bind_stop :
      {A B : Type 0} (m : M A) (f : A → M B) (w w' : World) → m w ≡ stop w' → (m >>= f) w ≡ stop w'
  bind_stop m f w w' e = rw (◌>>=◌, e) refl

  pub field_read :
      {A : Type 0} (o : J.Json) (name : CString) (is_type : J.Json → Bool) (get : J.Json → A)
      (w : World) (a : A)
      → get_field J o name is_type get ≡ some a
      → field J o name is_type get w ≡ next w a
  unfolding field
  field_read o name is_type get w a e = rw (field, e) refl

  pub field_missing :
      {A : Type 0} (o : J.Json) (name : CString) (is_type : J.Json → Bool) (get : J.Json → A)
      (w : World)
      → get_field J o name is_type get ≡ none
      → field J o name is_type get w ≡ stop w
  unfolding field
  field_missing o name is_type get w e = rw (field, e) refl

  -- The identifier is written to the last client, which has it.
  same_write :
      (token : CString) (id : ℕ) (cs : List Client) (d : Client)
      → has_node d.node cs ≡ false
      → d.id ≡ id
      → update_node d.node (λ c. record c { token = token; id = id }) (cs ++ d ∷ [])
        ≡ update_node d.node (λ c. record c { token = token }) (cs ++ d ∷ [])
  same_write token id cs d absent e =
      update_node-last d.node (λ c. record c { token = token; id = id }) cs d absent refl
      ∙ (ap (λ k. cs ++ record d { token = token; id = k } ∷ []) (sym e)
          ∙ sym (update_node-last d.node (λ c. record c { token = token }) cs d absent refl))

  pub fields-Holds :
      (n : ℕ) (cli : J.Json) (w : World) (cs : List Client) (d : Client) (id : ℕ)
      → w.clients ≡ cs ++ d ∷ []
      → has_node d.node cs ≡ false
      → d.id ≡ id
      → P w
      → w.client_id ≡ n
      → Holds P n (import_fields J env cli id d.node w)
  unfolding import_fields write_node Holds later_fields
  fields-Holds n cli w cs d id at_end absent same p e =
      elim (Option-cases (get_field J cli (codes "token") J.is_string J.get_string)) [
        | inl missing ↦
            rw
              (bind_stop (field J cli (codes "token") J.is_string J.get_string) _ w w
                (field_missing cli (codes "token") J.is_string J.get_string w missing))
              p
        | inr (token, found) ↦
            let f : Client → Client = λ c. record c { token = token } in
            rw
              (bind_next (field J cli (codes "token") J.is_string J.get_string) _ w w token
                (field_read cli (codes "token") J.is_string J.get_string w token found))
              (later-Holds n cli d.node
                (record w {
                  clients = update_node d.node (λ c. record c { token = token; id = id }) w.clients;
                })
                (subst (λ l. P (record w { clients = l }))
                  (sym (
                    ap (update_node d.node (λ c. record c { token = token; id = id })) at_end
                    ∙ (same_write token id cs d absent same
                        ∙ ap (update_node d.node f) (sym at_end))))
                  (kept.write f (λ c. (refl, refl, refl, refl, refl)) w d.node p))
                e)
      ]
