-- ===== src/StateFile/Failures.antt =====
-- What state_file_import of src/state_file.c does with an entry that is no client, and with the
-- identifiers that it takes over.
use nodogsplash.Prelude.{
  Bool-cases, List, [], ap, arith, false, inl, inr, refl, some, true, ℕ, ◌++◌, ◌+◌, ◌==◌, ◌∙◌, ◌∷◌,
  ◌≡◌, ◌⊎◌,
}
use nodogsplash.CString.{CString}
use nodogsplash.Auth.Transitions.{AreDistinct}
use nodogsplash.Client.{Client}
use nodogsplash.ClientList.{client_list_add_client, client_list_find_by_id, find_client}
use nodogsplash.ClientList.Fresh.{
  IsAddable, add_client-new, added_client, added_client_fields, added_world,
}
use nodogsplash.ClientList.Search.{find_client-append_none, find_client-append_some}
use nodogsplash.StateFile.{import_clients, minus_einval, state_file_import_client}
use nodogsplash.StateFile.Json.{JsonC}
use nodogsplash.StateFile.Restore.{IsRestorable, import_client-Restored}
use nodogsplash.StateFile.Saved.{IsInRange, IsSaved}
use nodogsplash.World.{Env, World}

module _ (J : JsonC) (env : Env) where
  import_clients-step :
      (w : World) (rc : ℕ) (cli : J.Json) (l : List J.Json)
      → J.is_object cli ≡ true
      → (state_file_import_client J env w cli).1 ≡ 0
      → import_clients J env w rc (cli ∷ l)
        ≡ import_clients J env (state_file_import_client J env w cli).0 0 l
  unfolding import_clients
  import_clients-step w rc cli l good zero_rc = rw good (rw zero_rc refl)

  -- A list that ends with 0 after a first entry has an object there, which was imported.
  first_entry :
      (w : World) (rc : ℕ) (cli : J.Json) (l : List J.Json)
      → (import_clients J env w rc (cli ∷ l)).1 ≡ 0
      → ((J.is_object cli ≡ false) × (rc ≡ 0))
        ⊎ ((J.is_object cli ≡ true) × ((state_file_import_client J env w cli).1 ≡ 0))
  unfolding import_clients
  first_entry w rc cli l h = elim (Bool-cases (J.is_object cli)) [
    | inr stops ↦ inl (stops, ground (arith, stops))
    | inl good ↦ elim (Bool-cases ((state_file_import_client J env w cli).1 == 0)) [
      | inr failed ↦ absurd (ground (arith, good, failed))
      | inl done ↦ inr (good, ground (arith, done))
    ]
  ]

  bad_first :
      (w : World) (rc : ℕ) (bad : J.Json) (rest : List J.Json)
      → J.is_object bad ≡ false
      → import_clients J env w rc (bad ∷ rest) ≡ (w, rc)
  unfolding import_clients
  bad_first w rc bad rest wrong = rw wrong refl

  bad_entry_ends :
      (w : World) (l rest : List J.Json) (bad : J.Json)
      → J.is_object bad ≡ false
      → (import_clients J env w 0 l).1 ≡ 0
      → import_clients J env w 0 (l ++ bad ∷ rest) ≡ ((import_clients J env w 0 l).0, 0)
  bad_entry_ends w [] rest bad wrong h = unfold import_clients in bad_first w 0 bad rest wrong
  bad_entry_ends w (cli ∷ l) rest bad wrong h = elim (first_entry w 0 cli l h) [
    | inl (stops, e) ↦ rw (bad_first w 0 cli l stops) (bad_first w 0 cli (l ++ bad ∷ rest) stops)
    | inr (good, done) ↦
        let step = import_clients-step w 0 cli l good done in
        rw step (
          import_clients-step w 0 cli (l ++ bad ∷ rest) good done
          ∙ bad_entry_ends (state_file_import_client J env w cli).0 l rest bad wrong (rw step at h))
  ]

  -- An entry of the array that is not an object, behind at least one that is and with all before it
  -- accepted, ends the import: the result is 0, as on success, and the entries from it on are lost.
  pub bad_entry_is_success :
      (w : World) (cli bad : J.Json) (l rest : List J.Json)
      → J.is_object bad ≡ false
      → (import_clients J env w minus_einval (cli ∷ l)).1 ≡ 0
      → import_clients J env w minus_einval (cli ∷ l ++ bad ∷ rest)
        ≡ ((import_clients J env w minus_einval (cli ∷ l)).0, 0)
  bad_entry_is_success w cli bad l rest wrong h = elim (first_entry w minus_einval cli l h) [
    | inl (stops, e) ↦ absurd (omega (arith, e))
    | inr (good, done) ↦
        let step = import_clients-step w minus_einval cli l good done in
        rw step (
          import_clients-step w minus_einval cli (l ++ bad ∷ rest) good done
          ∙ bad_entry_ends (state_file_import_client J env w cli).0 l rest bad wrong (rw step at h))
  ]

found_at_once : (d : Client) → find_client (λ e. e.id == d.id) (d ∷ []) ≡ some d
unfolding find_client
found_at_once d = ground arith

-- After the import of a client whose saved identifier is the one after the next to be given out, the
-- client that is added next gets that identifier too, and a search for it finds the imported client.
pub imported_id_is_given_again :
    (J : JsonC) (env : Env) (cli counters : J.Json) (c : Client) (w : World) (mac ip : CString)
    → IsSaved J cli counters c
    → IsInRange c
    → AreDistinct w.marks
    → IsRestorable env w c
    → c.id ≡ w.client_id + 1
    → IsAddable env (state_file_import_client J env w cli).0 mac ip
    → ((added_client env (state_file_import_client J env w cli).0 mac ip).id ≡ c.id)
      × ((client_list_add_client env (state_file_import_client J env w cli).0 mac ip).1
          ≡ some (added_client env (state_file_import_client J env w cli).0 mac ip))
      × (client_list_find_by_id
            (client_list_add_client env (state_file_import_client J env w cli).0 mac ip).0
            c.id
          ≡ some (record c { node = w.next_node }))
unfolding added_world
imported_id_is_given_again J env cli counters c w mac ip s r m h next_but_one fits =
    let w' = (state_file_import_client J env w cli).0 in
    let (done, after) = import_client-Restored J env cli counters c s w r m h in
    let fields = added_client_fields env w' mac ip in
    let restored : Client = record c { node = w.next_node } in
    (
      fields.3 ∙ after.next_id ∙ omega (arith, next_but_one),
      ap (λ p. p.1) (add_client-new env w' mac ip fits),
      ap (λ p. find_client (λ d. d.id == c.id) p.0.clients) (add_client-new env w' mac ip fits)
          ∙ find_client-append_some (λ d. d.id == c.id) w'.clients (added_client env w' mac ip ∷ [])
              restored
              (ap (find_client (λ d. d.id == c.id)) after.clients
                ∙ find_client-append_none (λ d. d.id == c.id) w.clients (restored ∷ []) h.new_id
                ∙ found_at_once restored),
    )
