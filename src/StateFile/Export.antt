-- ===== src/StateFile/Export.antt =====
-- The tree of state_file_export in src/state_file.c: its three members, and the array of clients.
use nodogsplash.Prelude.{
  All, List, Option, Option-cases, [], ap, append-nil, append_assoc, arith, inl, inr, none, refl,
  some, sym, true, ◌++◌, ◌∙◌, ◌∷◌, ◌≡◌,
}
use nodogsplash.CString.{CString, codes, str_eq}
use nodogsplash.Client.{Client}
use nodogsplash.StateFile.{
  add_clients, add_member, export_array, export_list, export_top, get_field, json_export_version,
  state_file_export_client,
}
use nodogsplash.StateFile.Json.{IsDocumented, JsonC}
use nodogsplash.StateFile.Members.{add_all, built, find_member, get_field_lem}
use nodogsplash.StateFile.Saved.{IsInRange, IsSaved, export_client-IsSaved}

-- The entries of the array are the clients, in order.
abbrev pub SavedAll : (J : JsonC) → List J.Json → List Client → Type 0
SavedAll J [] [] = Unit
SavedAll J [] (c ∷ cs) = ⊥
SavedAll J (cli ∷ l) [] = ⊥
SavedAll J (cli ∷ l) (c ∷ cs) = ((counters : J.Json) × IsSaved J cli counters c) × SavedAll J l cs

module _ (J : JsonC) (doc : IsDocumented J) where
  export_list-SavedAll :
      (cs : List Client) (a a' : J.Json)
      → J.is_array a ≡ true
      → All IsInRange cs
      → export_list J cs a ≡ some a'
      → (l : List J.Json) × (J.items a' ≡ J.items a ++ l) × (J.is_array a' ≡ true) × SavedAll J l cs
  unfolding export_list
  export_list-SavedAll [] a a' k r h = (
    [],
    rw (append-nil) (ap J.items (cc)),
    (let same : a' ≡ a = cc in ap J.is_array same ∙ k),
    tt,
  )
  export_list-SavedAll (c ∷ cs) a a' k r h = elim (Option-cases (state_file_export_client J c)) [
    | inl failed ↦ cc (rw (export_list, failed) at h)
    | inr (cli, made) ↦
        let (l, same, kind, saved) =
          export_list-SavedAll cs (J.array_add a cli) a' (doc.array-add a cli k).0 r.1
            (rw (export_list, made) at h) in
        (
          cli ∷ l,
          same ∙ rw ((doc.array-add a cli k).1) (append_assoc (J.items a) (cli ∷ []) l),
          kind,
          (export_client-IsSaved J doc c cli r.0 made, saved),
        )
  ]

  export_array-SavedAll :
      (cs : List Client) (o : Option J.Json) (a' : J.Json)
      → o ≡ J.new_array
      → All IsInRange cs
      → elim o as (λ x. Option J.Json) [ none ↦ none | some a ↦ export_list J cs a ] ≡ some a'
      → (J.is_array a' ≡ true) × SavedAll J (J.items a') cs
  export_array-SavedAll cs none a' made r h = cc
  export_array-SavedAll cs (some a) a' made r h =
      let (l, same, kind, saved) =
        export_list-SavedAll cs a a' (doc.array-new a (sym made)).0 r h in
      (kind, rw (same ∙ ap (λ x. x ++ l) (doc.array-new a (sym made)).1) saved)

  top_parts :
      (t : Option J.Json) (o : Option J.Json) (top : J.Json)
      → add_clients J t o ≡ some top
      → (a : J.Json) × (o ≡ some a) × (add_member J t (codes "clients") a ≡ some top)
  unfolding add_clients
  top_parts t none top h = cc
  top_parts t (some a) top h = (a, refl, h)

  -- The tree passes the tests of the import, and its array holds the clients.
  pub export_top-SavedAll :
      (cs : List Client) (top : J.Json)
      → All IsInRange cs
      → export_top J cs ≡ some top
      → (get_field J top (codes "version") J.is_int J.get_int64 ≡ some json_export_version)
        × (get_field J top (codes "name") J.is_string J.get_string ≡ some (codes "nodogsplash"))
        × ((a : J.Json) × (get_field J top (codes "clients") J.is_array (λ v. v) ≡ some a)
            × SavedAll J (J.items a) cs)
  unfolding export_top export_array add_all find_member str_eq
  export_top-SavedAll cs top r h =
      let (a, listed, whole) = top_parts _ _ top h in
      let (kind, saved) = export_array-SavedAll cs J.new_array a refl r listed in
      let (an_object, get) = built J doc members top whole in
      (
        get_field_lem J doc top (J.new_int64 1) _ J.is_int J.get_int64 1 (get _ _ (λ f. refl))
            (doc.int64_lem 1 (omega arith)).0 (doc.int64_lem 1 (omega arith)).1,
        get_field_lem J doc top (J.new_string (codes "nodogsplash")) _ J.is_string J.get_string _
            (get _ _ (λ f. refl)) (doc.string_lem _).0 (doc.string_lem _).1,
        (
          a,
          get_field_lem J doc top a _ J.is_array (λ v. v) a (get _ _ (λ f. refl)) kind refl,
          saved,
        ),
      )
    where
      members : List (CString × J.Json)
      members =
          (codes "version", J.new_int64 json_export_version)
          ∷ (codes "name", J.new_string (codes "nodogsplash"))
          ∷ (codes "clients", (top_parts _ _ top h).0)
          ∷ []
