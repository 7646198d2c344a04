-- ===== src/Examples/JsonValues.antt =====
-- Values with the documented behaviour of json-c, on which the theorems about src/state_file.c are
-- applied. An int64_t is its bit pattern.
use nodogsplash.Prelude.{
  Bool, List, Option, [], arith, false, if◌then◌else◌, ltb, none, refl, some, true, ℕ, ◌++◌, ◌-◌,
  ◌^◌, ◌∷◌, ◌≡◌,
}
use nodogsplash.CString.{CString, str_eq, str_eq_refl}
use nodogsplash.StateFile.Json.{IsDocumented, JsonC}

mutual
  pub data Value : Type 0 where
    text : CString → Value
    int64 : ℕ → Value
    uint64 : ℕ → Value
    array : Items → Value
    object : Members → Value

  -- The newest item of an array, and the newest member of an object, come first.
  pub data Items : Type 0 where
    no_item : Items
    item : Value → Items → Items

  pub data Members : Type 0 where
    no_member : Members
    member : CString → Value → Members → Members

unfoldable pub member_of : CString → Members → Option Value
member_of k no_member = none
member_of k (member j v m) = if str_eq j k then some v else member_of k m

unfoldable pub put_member : Value → CString → Value → Option Value
put_member (object m) k v = some (object (member k v m))
put_member _ k v = none

unfoldable pub member_value : Value → CString → Option Value
unfolding member_of
member_value (object m) k = member_of k m
member_value _ k = none

unfoldable pub add_item : Value → Value → Value
add_item (array l) v = array (item v l)
add_item other v = other

unfoldable pub oldest_first : Items → List Value
oldest_first no_item = []
oldest_first (item v l) = oldest_first l ++ v ∷ []

unfoldable pub value_all_items : Value → List Value
unfolding oldest_first
value_all_items (array l) = oldest_first l
value_all_items _ = []

unfoldable pub value_is_object : Value → Bool
value_is_object (object m) = true
value_is_object _ = false

unfoldable pub value_is_array : Value → Bool
value_is_array (array l) = true
value_is_array _ = false

unfoldable pub value_is_text : Value → Bool
value_is_text (text s) = true
value_is_text _ = false

unfoldable pub value_is_int : Value → Bool
value_is_int (int64 n) = true
value_is_int (uint64 n) = true
value_is_int _ = false

unfoldable pub value_get_text : Value → CString
value_get_text (text s) = s
value_get_text _ = []

-- The readers bring a number into their range.
unfoldable pub value_get_int64 : Value → ℕ
value_get_int64 (int64 n) = n
value_get_int64 (uint64 n) = if ltb n (2 ^ 63) then n else 2 ^ 63 - 1
value_get_int64 _ = 0

unfoldable pub value_get_uint64 : Value → ℕ
value_get_uint64 (int64 n) = if ltb n (2 ^ 63) then n else 0
value_get_uint64 (uint64 n) = n
value_get_uint64 _ = 0

unfoldable pub value_get_int : Value → ℕ
value_get_int (int64 n) =
    if ltb n (2 ^ 31)
    then n
    else if ltb n (2 ^ 63)
    then 2 ^ 31 - 1
    else if ltb n (2 ^ 64 - 2 ^ 31)
    then 2 ^ 31
    else n - (2 ^ 64 - 2 ^ 32)
value_get_int (uint64 n) = if ltb n (2 ^ 31) then n else 2 ^ 31 - 1
value_get_int _ = 0

abbrev pub values : JsonC
values = record {
  Json = Value;
  new_object = some (object no_member);
  new_array = some (array no_item);
  new_string = text;
  new_int64 = int64;
  new_uint64 = uint64;
  object_add = put_member;
  array_add = add_item;
  object_get = member_value;
  is_object = value_is_object;
  is_array = value_is_array;
  is_string = value_is_text;
  is_int = value_is_int;
  get_string = value_get_text;
  get_int64 = value_get_int64;
  get_uint64 = value_get_uint64;
  get_int = value_get_int;
  items = value_all_items;
}

added_self :
    (o v o' : Value) (k : CString) → put_member o k v ≡ some o' → member_value o' k ≡ some v
unfolding put_member member_value
added_self (object m) v o' k h =
    let same : o' ≡ object (member k v m) = ground arith in rw same (rw (str_eq_refl k) refl)
added_self (text s) v o' k h = cc
added_self (int64 n) v o' k h = cc
added_self (uint64 n) v o' k h = cc
added_self (array l) v o' k h = cc

added_ne :
    (o v o' : Value) (k j : CString)
    → put_member o k v ≡ some o'
    → str_eq k j ≡ false
    → member_value o' j ≡ member_value o j
unfolding put_member member_value
added_ne (object m) v o' k j h ne =
    let same : o' ≡ object (member k v m) = ground arith in rw same (rw ne refl)
added_ne (text s) v o' k j h ne = cc
added_ne (int64 n) v o' k j h ne = cc
added_ne (uint64 n) v o' k j h ne = cc
added_ne (array l) v o' k j h ne = cc

added_object :
    (o v o' : Value) (k : CString)
    → put_member o k v ≡ some o'
    → value_is_object o' ≡ value_is_object o
unfolding put_member value_is_object
added_object (object m) v o' k h =
    let same : o' ≡ object (member k v m) = ground arith in rw same refl
added_object (text s) v o' k h = cc
added_object (int64 n) v o' k h = cc
added_object (uint64 n) v o' k h = cc
added_object (array l) v o' k h = cc

added_item :
    (a v : Value)
    → value_is_array a ≡ true
    → (value_is_array (add_item a v) ≡ true)
      × (value_all_items (add_item a v) ≡ value_all_items a ++ v ∷ [])
unfolding value_is_array add_item value_all_items
added_item (array l) v h = (refl, refl)
added_item (text s) v h = absurd (cc)
added_item (int64 n) v h = absurd (cc)
added_item (uint64 n) v h = absurd (cc)
added_item (object m) v h = absurd (cc)

new_array_lem :
    (a : Value)
    → ◌≡◌ {A = Option Value} (some (array no_item)) (some a)
    → (value_is_array a ≡ true) × (value_all_items a ≡ [])
unfolding value_is_array value_all_items
new_array_lem a h = let same : a ≡ array no_item = ground arith in rw same (refl, refl)

pub values-IsDocumented : IsDocumented values
unfolding value_is_object value_is_array value_all_items value_is_text value_is_int value_get_text
    value_get_int64 value_get_uint64 value_get_int
values-IsDocumented = record {
  get-add_self = added_self;
  get-add_ne = added_ne;
  object-new = λ o h. ground arith;
  object-add = added_object;
  array-new = new_array_lem;
  array-add = added_item;
  string_lem = λ s. (refl, refl);
  int64_lem = λ n h. (refl, refl);
  uint64_lem = λ n h. (refl, refl);
  int_lem = λ n h. (refl, ground arith);
}
