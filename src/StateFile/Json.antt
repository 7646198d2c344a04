-- ===== src/StateFile/Json.antt =====
-- What src/state_file.c uses of json-c, which is not in the repository: the values, the functions
-- that build and read them, and their documented behaviour. A function that may return NULL or an
-- error code returns an Option. An int64_t is its bit pattern.
use nodogsplash.Prelude.{Bool, List, Option, [], false, some, true, ℕ, ◌++◌, ◌<◌, ◌^◌, ◌∷◌, ◌≡◌}
use nodogsplash.Prelude.Int32.{int_to_u64}
use nodogsplash.CString.{CString, str_eq}

-- json_object_object_add and json_object_new_object, json_object_new_array fail by `none`.
pub record JsonC : Type 1 where
  pub Json : Type 0
  pub new_object : Option Json
  pub new_array : Option Json
  pub new_string : CString → Json
  pub new_int64 : ℕ → Json
  pub new_uint64 : ℕ → Json
  pub object_add : Json → CString → Json → Option Json
  pub array_add : Json → Json → Json
  pub object_get : Json → CString → Option Json
  pub is_object : Json → Bool
  pub is_array : Json → Bool
  pub is_string : Json → Bool
  pub is_int : Json → Bool
  pub get_string : Json → CString
  pub get_int64 : Json → ℕ
  pub get_uint64 : Json → ℕ
  pub get_int : Json → ℕ
  pub items : Json → List Json

-- The documented laws: a member that was added is found, under its own name only; a value has the
-- type of its constructor and reads as what it was built from, within the range of the reader.
pub record IsDocumented (J : JsonC) : Type 0 where
  pub get-add_self :
      (o v o' : J.Json) (k : CString) → J.object_add o k v ≡ some o' → J.object_get o' k ≡ some v
  pub get-add_ne :
      (o v o' : J.Json) (k j : CString)
      → J.object_add o k v ≡ some o'
      → str_eq k j ≡ false
      → J.object_get o' j ≡ J.object_get o j
  pub object-new : (o : J.Json) → J.new_object ≡ some o → J.is_object o ≡ true
  pub object-add :
      (o v o' : J.Json) (k : CString)
      → J.object_add o k v ≡ some o'
      → J.is_object o' ≡ J.is_object o
  pub array-new : (a : J.Json) → J.new_array ≡ some a → (J.is_array a ≡ true) × (J.items a ≡ [])
  pub array-add :
      (a v : J.Json)
      → J.is_array a ≡ true
      → (J.is_array (J.array_add a v) ≡ true) × (J.items (J.array_add a v) ≡ J.items a ++ v ∷ [])
  pub string_lem :
      (s : CString) → (J.is_string (J.new_string s) ≡ true) × (J.get_string (J.new_string s) ≡ s)
  pub int64_lem :
      (n : ℕ) → n < 2 ^ 63 → (J.is_int (J.new_int64 n) ≡ true) × (J.get_int64 (J.new_int64 n) ≡ n)
  pub uint64_lem :
      (n : ℕ)
      → n < 2 ^ 64
      → (J.is_int (J.new_uint64 n) ≡ true) × (J.get_uint64 (J.new_uint64 n) ≡ n)
  pub int_lem :
      (n : ℕ)
      → n < 2 ^ 32
      → (J.is_int (J.new_int64 (int_to_u64 n)) ≡ true)
        × (J.get_int (J.new_int64 (int_to_u64 n)) ≡ n)
