-- ===== src/StateFile/Members.antt =====
-- The objects that src/state_file.c builds, read back by their members.
use nodogsplash.Prelude.{
  Bool, Bool-cases, List, Option, Option-cases, [], ap, if◌then◌else◌, inl, inr, none, refl, some,
  true, ◌∙◌, ◌∷◌, ◌≡◌,
}
use nodogsplash.CString.{CString, eq_of_str_eq, str_eq}
use nodogsplash.StateFile.{add_member, get_field}
use nodogsplash.StateFile.Json.{IsDocumented, JsonC}

-- Members added one after the other.
unfoldable pub add_all : (J : JsonC) → Option J.Json → List (CString × J.Json) → Option J.Json
add_all J o [] = o
add_all J o ((name, v) ∷ l) = add_all J (add_member J o name v) l

-- The last member of that name.
unfoldable pub find_member {ℓ} : {A : Type ℓ} → CString → List (CString × A) → Option A → Option A
find_member k [] found = found
find_member k ((name, v) ∷ l) found = find_member k l (if str_eq name k then some v else found)

add_all-none :
    (J : JsonC) (l : List (CString × J.Json)) (o : J.Json) → add_all J none l ≡ some o → ⊥
unfolding add_all add_member
add_all-none J [] o h = cc
add_all-none J ((name, v) ∷ l) o h = add_all-none J l o h

module _ (J : JsonC) (doc : IsDocumented J) where
  object_get-add :
      (o v o' : J.Json) (n k : CString)
      → J.object_add o n v ≡ some o'
      → J.object_get o' k ≡ (if str_eq n k then some v else J.object_get o k)
  object_get-add o v o' n k h = elim (Bool-cases (str_eq n k)) [
    | inl same ↦ rw same (rw (← eq_of_str_eq n k same) (doc.get-add_self o v o' n h))
    | inr other ↦ rw other (doc.get-add_ne o v o' n k h other)
  ]

  pub object_get-add_all :
      (l : List (CString × J.Json)) (o o' : J.Json) (k : CString)
      → add_all J (some o) l ≡ some o'
      → J.object_get o' k ≡ find_member k l (J.object_get o k)
  unfolding add_all find_member add_member
  object_get-add_all [] o o' k h = cc
  object_get-add_all ((n, v) ∷ l) o o' k h =
      let h1 : add_all J (J.object_add o n v) l ≡ some o' = h in
      elim (Option-cases (J.object_add o n v)) [
        | inl failed ↦ absurd (add_all-none J l o' (rw failed at h1))
        | inr (o1, added) ↦
            rw (← object_get-add o v o1 n k added) (object_get-add_all l o1 o' k (rw added at h1))
      ]

module _ (J : JsonC) (doc : IsDocumented J) where
  -- A member whose type and value are known.
  pub get_field_lem {ℓ} :
      {A : Type ℓ} (o v : J.Json) (name : CString) (is_type : J.Json → Bool) (get : J.Json → A)
      (a : A)
      → J.object_get o name ≡ some v
      → is_type v ≡ true
      → get v ≡ a
      → get_field J o name is_type get ≡ some a
  unfolding get_field
  get_field_lem o v name is_type get a found right same =
      rw (get_field, found) (rw right (ap some same))

  object-add_all :
      (l : List (CString × J.Json)) (o o' : J.Json)
      → add_all J (some o) l ≡ some o'
      → J.is_object o' ≡ J.is_object o
  unfolding add_all add_member
  object-add_all [] o o' h = cc
  object-add_all ((n, v) ∷ l) o o' h =
      let h1 : add_all J (J.object_add o n v) l ≡ some o' = h in
      elim (Option-cases (J.object_add o n v)) [
        | inl failed ↦ absurd (add_all-none J l o' (rw failed at h1))
        | inr (o1, added) ↦ object-add_all l o1 o' (rw added at h1) ∙ doc.object-add o v o1 n added
      ]

  add_all-some :
      (l : List (CString × J.Json)) (start : Option J.Json) (o' : J.Json)
      → add_all J start l ≡ some o'
      → (o : J.Json) × (start ≡ some o) × (add_all J (some o) l ≡ some o')
  add_all-some l none o' h = absurd (add_all-none J l o' h)
  add_all-some l (some o) o' h = (o, refl, h)

  -- The members of an object that was built from a new one.
  pub built :
      (l : List (CString × J.Json)) (o' : J.Json)
      → add_all J J.new_object l ≡ some o'
      → (J.is_object o' ≡ true)
        × ((k : CString) (v : J.Json)
            → ((found : Option J.Json) → find_member k l found ≡ some v)
            → J.object_get o' k ≡ some v)
  built l o' h =
      let (o, made, rest) = add_all-some l J.new_object o' h in
      (
        object-add_all l o o' rest ∙ doc.object-new o made,
        λ k v present. object_get-add_all J doc l o o' k rest ∙ present (J.object_get o k),
      )
