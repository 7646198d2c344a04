-- ===== src/StateFile/Saved.antt =====
-- The tree that state_file_export_client of src/state_file.c builds, read back member by member.
use nodogsplash.Prelude.{
  List, Option-cases, [], arith, inl, inr, refl, some, true, ℕ, ◌<◌, ◌^◌, ◌∷◌, ◌≡◌,
}
use nodogsplash.Prelude.Int32.{int_to_u64}
use nodogsplash.CString.{CString, codes, str_eq}
use nodogsplash.Client.{Client}
use nodogsplash.StateFile.{export_counters, get_field, state_file_export_client}
use nodogsplash.StateFile.Json.{IsDocumented, JsonC}
use nodogsplash.StateFile.Members.{add_all, built, find_member, get_field_lem}

-- The values of a client are those of their C types.
pub record IsInRange (c : Client) : Type 0 where
  pub state : c.fw_connection_state < 2 ^ 32
  pub starts : c.session_start < 2 ^ 64
  pub over : c.session_end < 2 ^ 64
  pub down : c.download_limit < 2 ^ 32
  pub up : c.upload_limit < 2 ^ 32
  pub number : c.id < 2 ^ 32
  pub received : c.counters.incoming < 2 ^ 64
  pub sent : c.counters.outgoing < 2 ^ 64
  pub seen : c.counters.last_updated < 2 ^ 64

module _ (J : JsonC) where
  -- The members of an object are the fields of a client.
  pub record IsSaved (cli counters : J.Json) (c : Client) : Type 0 where
    pub an_object : J.is_object cli ≡ true
    pub mac : get_field J cli (codes "mac") J.is_string J.get_string ≡ some c.mac
    pub ip : get_field J cli (codes "ip") J.is_string J.get_string ≡ some c.ip
    pub id : get_field J cli (codes "id") J.is_int J.get_uint64 ≡ some c.id
    pub token : get_field J cli (codes "token") J.is_string J.get_string ≡ some c.token
    pub starts :
        get_field J cli (codes "session_start") J.is_int J.get_uint64 ≡ some c.session_start
    pub over : get_field J cli (codes "session_end") J.is_int J.get_uint64 ≡ some c.session_end
    pub down : get_field J cli (codes "download_limit") J.is_int J.get_int ≡ some c.download_limit
    pub up : get_field J cli (codes "upload_limit") J.is_int J.get_int ≡ some c.upload_limit
    pub nested : get_field J cli (codes "counters") J.is_object (λ v. v) ≡ some counters
    pub received :
        get_field J counters (codes "incoming") J.is_int J.get_uint64 ≡ some c.counters.incoming
    pub sent :
        get_field J counters (codes "outgoing") J.is_int J.get_uint64 ≡ some c.counters.outgoing
    pub seen :
        get_field J counters (codes "last_updated") J.is_int J.get_uint64
        ≡ some c.counters.last_updated
    pub state :
        get_field J cli (codes "fw_connection_state") J.is_int J.get_int64
        ≡ some c.fw_connection_state

module _ (J : JsonC) (doc : IsDocumented J) where
  abbrev counter_members : Client → List (CString × J.Json)
  counter_members c =
      (codes "incoming", J.new_uint64 c.counters.incoming)
      ∷ (codes "outgoing", J.new_uint64 c.counters.outgoing)
      ∷ (codes "last_updated", J.new_uint64 c.counters.last_updated)
      ∷ []

  abbrev client_members : Client → J.Json → List (CString × J.Json)
  client_members c counters =
      (codes "ip", J.new_string c.ip)
      ∷ (codes "mac", J.new_string c.mac)
      ∷ (codes "token", J.new_string c.token)
      ∷ (codes "fw_connection_state", J.new_int64 c.fw_connection_state)
      ∷ (codes "session_start", J.new_uint64 c.session_start)
      ∷ (codes "session_end", J.new_uint64 c.session_end)
      ∷ (codes "download_limit", J.new_int64 (int_to_u64 c.download_limit))
      ∷ (codes "upload_limit", J.new_int64 (int_to_u64 c.upload_limit))
      ∷ (codes "id", J.new_uint64 c.id)
      ∷ (codes "counters", counters)
      ∷ []

  export_parts :
      (c : Client) (cli : J.Json)
      → state_file_export_client J c ≡ some cli
      → (counters : J.Json) × (add_all J J.new_object (counter_members c) ≡ some counters)
        × (add_all J J.new_object (client_members c counters) ≡ some cli)
  unfolding state_file_export_client add_all
  export_parts c cli h = elim (Option-cases (export_counters J c)) [
    | inl failed ↦ cc (rw failed at h)
    | inr (counters, made) ↦ (counters, made, rw made at h)
  ]

  -- What the export writes can be read.
  pub export_client-IsSaved :
      (c : Client) (cli : J.Json)
      → IsInRange c
      → state_file_export_client J c ≡ some cli
      → (counters : J.Json) × IsSaved J cli counters c
  unfolding find_member str_eq
  export_client-IsSaved c cli r h =
      let (counters, inner, outer) = export_parts c cli h in
      let (inner_type, inner_get) = built J doc (counter_members c) counters inner in
      let (outer_type, outer_get) = built J doc (client_members c counters) cli outer in
      (
        counters,
        record {
          an_object = outer_type;
          mac = string (outer_get _ _ (λ f. refl));
          ip = string (outer_get _ _ (λ f. refl));
          id = unsigned (outer_get _ _ (λ f. refl)) (omega (arith, r.number));
          token = string (outer_get _ _ (λ f. refl));
          starts = unsigned (outer_get _ _ (λ f. refl)) r.starts;
          over = unsigned (outer_get _ _ (λ f. refl)) r.over;
          down = limit (outer_get _ _ (λ f. refl)) r.down;
          up = limit (outer_get _ _ (λ f. refl)) r.up;
          nested =
              get_field_lem J doc cli counters _ J.is_object (λ v. v) counters
                (outer_get _ _ (λ f. refl)) inner_type refl;
          received = unsigned (inner_get _ _ (λ f. refl)) r.received;
          sent = unsigned (inner_get _ _ (λ f. refl)) r.sent;
          seen = unsigned (inner_get _ _ (λ f. refl)) r.seen;
          state = state (outer_get _ _ (λ f. refl)) r.state;
        },
      )
    where
      string :
          {o : J.Json} {name s : CString}
          → J.object_get o name ≡ some (J.new_string s)
          → get_field J o name J.is_string J.get_string ≡ some s
      string {o} {name} {s} found =
          get_field_lem J doc o (J.new_string s) name J.is_string J.get_string s found
            (doc.string_lem s).0 (doc.string_lem s).1

      unsigned :
          {o : J.Json} {name : CString} {n : ℕ}
          → J.object_get o name ≡ some (J.new_uint64 n)
          → n < 2 ^ 64
          → get_field J o name J.is_int J.get_uint64 ≡ some n
      unsigned {o} {name} {n} found small =
          get_field_lem J doc o (J.new_uint64 n) name J.is_int J.get_uint64 n found
            (doc.uint64_lem n small).0 (doc.uint64_lem n small).1

      limit :
          {o : J.Json} {name : CString} {n : ℕ}
          → J.object_get o name ≡ some (J.new_int64 (int_to_u64 n))
          → n < 2 ^ 32
          → get_field J o name J.is_int J.get_int ≡ some n
      limit {o} {name} {n} found small =
          get_field_lem J doc o (J.new_int64 (int_to_u64 n)) name J.is_int J.get_int n found
            (doc.int_lem n small).0 (doc.int_lem n small).1

      state :
          {o : J.Json} {name : CString} {n : ℕ}
          → J.object_get o name ≡ some (J.new_int64 n)
          → n < 2 ^ 32
          → get_field J o name J.is_int J.get_int64 ≡ some n
      state {o} {name} {n} found small =
          let fits : n < 2 ^ 63 = omega arith in
          get_field_lem J doc o (J.new_int64 n) name J.is_int J.get_int64 n found
            (doc.int64_lem n fits).0 (doc.int64_lem n fits).1
