-- ===== src/StateFile/Numbered.antt =====
-- The import of src/state_file.c from the entry of a client up to the whole file, and an invariant of
-- the state, for files whose clients are numbered.
use nodogsplash.Prelude.{
  Bool-cases, List, Option, Option-cases, [], ap, arith, inl, inr, none, refl, some, subst, suc, ℕ,
  ◌%◌, ◌==◌, ◌∙◌, ◌∷◌, ◌≡◌,
}
use nodogsplash.Prelude.Int32.{int_lt, u32_mod}
use nodogsplash.CString.{CString, codes}
use nodogsplash.Client.{Client}
use nodogsplash.ClientList.{
  client_list_add_client, client_list_find, client_list_find_by_id, has_node,
}
use nodogsplash.ClientList.Add.{add_client_fails}
use nodogsplash.ClientList.Fresh.{
  IsAddable, add_client-new, added_client, added_client_fields, added_world,
}
use nodogsplash.StateFile.{
  Stat, Step, accessible, add_client, end_with, enoent, field, get_field, import_array,
  import_clients, import_fields, import_new, import_steps, import_top, inaccessible, minus_einval,
  next, no_duplicate, right_name, right_version, state_file_import, state_file_import_client, stop,
  ◌>>=◌,
}
use nodogsplash.StateFile.Json.{JsonC}
use nodogsplash.StateFile.Keeps.{Holds, IsKept, bind_stop, field_missing, field_read, fields-Holds}
use nodogsplash.StateFile.Restore.{add_client_lem, bind_next, no_duplicate_lem}
use nodogsplash.World.{Env, World}

module _ (J : JsonC) where
  -- The entries of a file, numbered from `n` on: an entry with an identifier has its number. So it is
  -- in a file that a daemon wrote which never deleted a client.
  abbrev pub IsNumbered : ℕ → List J.Json → Type 0
  IsNumbered n [] = Unit
  IsNumbered n (cli ∷ rest) =
      ((number : ℕ)
        → get_field J cli (codes "id") J.is_int J.get_uint64 ≡ some number
        → number % u32_mod ≡ n)
      × IsNumbered (suc n) rest

  -- The array of the clients of a file, where it has one, is numbered from 1 on.
  abbrev pub IsNumberedFile : Option J.Json → Type 0
  IsNumberedFile saved =
      (top clients : J.Json)
      → saved ≡ some top
      → get_field J top (codes "clients") J.is_array (λ v. v) ≡ some clients
      → IsNumbered 1 (J.items clients)

module _ (J : JsonC) (env : Env) (P : World → Type 0) (kept : IsKept env P) where
  addable :
      (w : World) (mac ip : CString) (c : Client)
      → client_list_find w mac ip ≡ none
      → (client_list_add_client env w mac ip).1 ≡ some c
      → IsAddable env w mac ip
  addable w mac ip c absent e = record {
    new_pair = absent;
    good_mac = elim (Bool-cases (env.valid_mac mac)) [
      | inl good ↦ good
      | inr bad ↦
          let no : (client_list_add_client env w mac ip).1 ≡ none =
            (add_client_fails env w mac ip).1 (inl bad) in
          cc
    ];
    good_ip = elim (Bool-cases (env.valid_ip ip)) [
      | inl good ↦ good
      | inr bad ↦
          let no : (client_list_add_client env w mac ip).1 ≡ none =
            (add_client_fails env w mac ip).1 (inr (inl bad)) in
          cc
    ];
    room = elim (Bool-cases (int_lt w.client_count w.config.maxclients)) [
      | inl good ↦ good
      | inr bad ↦
          let no : (client_list_add_client env w mac ip).1 ≡ none =
            (add_client_fails env w mac ip).1 (inr (inr (absent, bad))) in
          cc
    ];
  }

  added-Holds :
      (cli : J.Json) (w : World) (mac ip : CString) (id : ℕ)
      → client_list_find w mac ip ≡ none
      → P w
      → w.client_id ≡ id
      → Holds P (suc id) ((add_client env mac ip >>= import_fields J env cli id) w)
  unfolding add_client Holds added_world
  added-Holds cli w mac ip id absent p e =
      elim (Option-cases (client_list_add_client env w mac ip).1) [
        | inl failed ↦
            rw
              (bind_stop J env P kept (add_client env mac ip) (import_fields J env cli id) w
                (client_list_add_client env w mac ip).0 (rw (add_client, failed) refl))
              (kept.add w mac ip p)
        | inr (c, added) ↦
            let a = add_client-new env w mac ip (addable w mac ip c absent added) in
            let d = added_client env w mac ip in
            let fs = added_client_fields env w mac ip in
            rw
              (bind_next (add_client env mac ip) (import_fields J env cli id) w
                (added_world env w mac ip) d.node
                (add_client_lem env w mac ip (added_world env w mac ip) d a))
              (fields-Holds J env P kept (suc id) cli (added_world env w mac ip) w.clients d id refl
                (ap (λ k. has_node k w.clients) fs.0 ∙ kept.fresh w p) (fs.3 ∙ e)
                (subst (λ r. P r.0) a (kept.add w mac ip p)) (ap suc e))
      ]

  duplicate_lem :
      (find : World → Option Client) (v : World) (c : Client)
      → find v ≡ some c
      → no_duplicate find v ≡ stop v
  unfolding no_duplicate
  duplicate_lem find v c there = rw (no_duplicate, there) refl

  new-Holds :
      (cli : J.Json) (w : World) (mac ip : CString) (id : ℕ)
      → P w
      → w.client_id ≡ id
      → Holds P (suc id) (import_new J env cli mac ip id w)
  unfolding import_new Holds
  new-Holds cli w mac ip id p e = elim (Option-cases (client_list_find w mac ip)) [
    | inr (c, there) ↦
        rw
          (bind_stop J env P kept (no_duplicate (λ v. client_list_find v mac ip)) _ w w
            (duplicate_lem (λ v. client_list_find v mac ip) w c there))
          p
    | inl absent ↦
        rw
          (bind_next (no_duplicate (λ v. client_list_find v mac ip)) _ w w tt
            (no_duplicate_lem (λ v. client_list_find v mac ip) w absent))
          (elim (Option-cases (client_list_find_by_id w id)) [
            | inr (c, there) ↦
                rw
                  (bind_stop J env P kept (no_duplicate (λ v. client_list_find_by_id v id)) _ w w
                    (duplicate_lem (λ v. client_list_find_by_id v id) w c there))
                  p
            | inl free ↦
                rw
                  (bind_next (no_duplicate (λ v. client_list_find_by_id v id)) _ w w tt
                    (no_duplicate_lem (λ v. client_list_find_by_id v id) w free))
                  (added-Holds cli w mac ip id absent p e)
          ])
  ]

  steps-Holds :
      (n : ℕ) (cli : J.Json) (w : World)
      → ((number : ℕ)
          → get_field J cli (codes "id") J.is_int J.get_uint64 ≡ some number
          → number % u32_mod ≡ n)
      → P w
      → w.client_id ≡ n
      → Holds P (suc n) (import_steps J env cli w)
  unfolding import_steps Holds
  steps-Holds n cli w numbered p e =
      elim (Option-cases (get_field J cli (codes "mac") J.is_string J.get_string)) [
        | inl missing ↦
            rw
              (bind_stop J env P kept (field J cli (codes "mac") J.is_string J.get_string) _ w w
                (field_missing J env P kept cli (codes "mac") J.is_string J.get_string w missing))
              p
        | inr (mac, found) ↦
            rw
              (bind_next (field J cli (codes "mac") J.is_string J.get_string) _ w w mac
                (field_read J env P kept cli (codes "mac") J.is_string J.get_string w mac found))
              (elim (Option-cases (get_field J cli (codes "ip") J.is_string J.get_string)) [
                | inl missing ↦
                    rw
                      (bind_stop J env P kept (field J cli (codes "ip") J.is_string J.get_string) _
                        w w
                        (field_missing J env P kept cli (codes "ip") J.is_string J.get_string w
                          missing))
                      p
                | inr (ip, found_ip) ↦
                    rw
                      (bind_next (field J cli (codes "ip") J.is_string J.get_string) _ w w ip (
                        field_read J env P kept cli (codes "ip") J.is_string J.get_string w ip
                          found_ip))
                      (elim (Option-cases (get_field J cli (codes "id") J.is_int J.get_uint64)) [
                        | inl missing ↦
                            rw
                              (bind_stop J env P kept
                                (field J cli (codes "id") J.is_int J.get_uint64) _ w w
                                (field_missing J env P kept cli (codes "id") J.is_int J.get_uint64 w
                                  missing))
                              p
                        | inr (number, found_id) ↦
                            rw
                              (bind_next (field J cli (codes "id") J.is_int J.get_uint64) _ w w
                                number
                                (field_read J env P kept cli (codes "id") J.is_int J.get_uint64 w
                                  number found_id))
                              (rw (numbered number found_id) (new-Holds cli w mac ip n p e))
                      ])
              ])
      ]

  end_with-keeps :
      (n : ℕ) (s : Step (Unit {0}))
      → Holds P n s
      → P (end_with s).0 × ((end_with s).1 ≡ 0 → (end_with s).0.client_id ≡ n)
  unfolding Holds end_with
  end_with-keeps n (stop v) q = (q, λ z. absurd (omega (arith, z)))
  end_with-keeps n (next v a) q = (q.0, λ z. q.1)

  client-keeps :
      (n : ℕ) (cli : J.Json) (w : World)
      → ((number : ℕ)
          → get_field J cli (codes "id") J.is_int J.get_uint64 ≡ some number
          → number % u32_mod ≡ n)
      → P w
      → w.client_id ≡ n
      → P (state_file_import_client J env w cli).0
        × ((state_file_import_client J env w cli).1 ≡ 0
            → (state_file_import_client J env w cli).0.client_id ≡ suc n)
  unfolding state_file_import_client
  client-keeps n cli w numbered p e = end_with-keeps (suc n) _ (steps-Holds n cli w numbered p e)

  pub import_clients-keeps :
      (n : ℕ) (w : World) (rc : ℕ) (l : List J.Json)
      → IsNumbered J n l
      → P w
      → w.client_id ≡ n
      → P (import_clients J env w rc l).0
  unfolding import_clients
  import_clients-keeps n w rc [] numbered p e = p
  import_clients-keeps n w rc (cli ∷ rest) numbered p e =
      let (w', rc') = state_file_import_client J env w cli in
      let (q, d) = client-keeps n cli w numbered.0 p e in
      elim (Bool-cases (J.is_object cli)) [
        | inr other ↦ rw other p
        | inl good ↦ rw good (elim (Bool-cases (rc' == 0)) [
          | inr failed ↦ rw failed q
          | inl fine ↦
              rw fine
                (import_clients-keeps (suc n) w' rc' rest numbered.1 q (d (ground (arith, fine))))
        ])
      ]

  top-keeps :
      (w : World) (saved : Option J.Json)
      → IsNumberedFile J saved
      → P w
      → w.client_id ≡ 1
      → P (import_top J env w saved).0
  unfolding import_top import_array
  top-keeps w none numbered p e = p
  top-keeps w (some top) numbered p e = elim (Bool-cases (right_version J top)) [
    | inr other ↦ rw (import_top, other) p
    | inl version ↦ elim (Bool-cases (right_name J top)) [
      | inr other ↦ rw (import_top, version) (rw other p)
      | inl name ↦ elim (Option-cases (get_field J top (codes "clients") J.is_array (λ v. v))) [
        | inl missing ↦ rw (import_top, version) (rw name (rw missing p))
        | inr (clients, found) ↦
            rw (import_top, version)
              (rw name (
                rw found (
                  import_clients-keeps 1 w minus_einval (J.items clients)
                    (numbered top clients refl found) p e)))
      ]
    ]
  ]

  -- Whatever the import ends with.
  pub state_file_import-keeps :
      (stat : CString → Stat) (from_file : CString → Option J.Json) (w : World) (path : CString)
      → IsNumberedFile J (from_file path)
      → P w
      → w.client_id ≡ 1
      → P (state_file_import J stat from_file env w path).0
  unfolding state_file_import
  state_file_import-keeps stat from_file w path numbered p e = by_stat (stat path)
    where
      by_stat :
          (s : Stat)
          → P
              (elim s as (λ x. World × ℕ) [
                | accessible ↦ import_top J env w (from_file path)
                | enoent ↦ (w, 1)
                | inaccessible ↦ (w, 2)
              ]).0
      by_stat accessible = top-keeps w (from_file path) numbered p e
      by_stat enoent = p
      by_stat inaccessible = p
