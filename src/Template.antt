-- ===== src/Template.antt =====
-- src/template.c: tmpl_parse. The output is the list of the bytes written to the buffer of `dst_len`
-- bytes, which memset has cleared; `dst_i` of the code is the length of the list as long as it is below
-- `dst_len`. A variable is a name with its value, which may be NULL.
pub mod Expand
use nodogsplash.Prelude.{
  Bool, List, Option, [], drop, if◌then◌else◌, length, ltb, none, some, suc, take, zero, ℕ, ◌++◌,
  ◌-◌, ◌==◌, ◌||◌, ◌∷◌,
}
use nodogsplash.CString.{CString, str_eq}
use nodogsplash.Url.{is_alnum}

is_name_char : ℕ → Bool
is_name_char c = is_alnum c || c == b'_'

-- The loop that finds varlen.
pub name_length : CString → ℕ
unfolding is_name_char
name_length [] = 0
name_length (c ∷ s) = let rest = name_length s in if is_name_char c then suc rest else 0

pub get_variable_value : List (CString × Option CString) → CString → Option CString
get_variable_value [] name = none
get_variable_value ((key, value) ∷ vars) name =
    if str_eq key name then value else get_variable_value vars name

-- The text that takes the place of a name: the name itself if it is too long or has no value.
known_text : CString → Option CString → CString
known_text name none = name
known_text name (some value) = value

pub variable_text : List (CString × Option CString) → CString → CString
unfolding get_variable_value known_text
variable_text vars name =
    if ltb 31 (length name) then name else known_text name (get_variable_value vars name)

-- memcpy of at most what fits
pub copy_bounded : ℕ → CString → CString → CString
copy_bounded dst_len dst text = dst ++ take (dst_len - length dst) text

-- `fuel` is the number of rounds left; each round takes at least one byte of the source.
tmpl_loop : List (CString × Option CString) → ℕ → ℕ → CString → CString → CString
unfolding variable_text copy_bounded name_length
tmpl_loop vars zero dst_len dst src = dst
tmpl_loop vars (suc fuel) dst_len dst [] = dst
tmpl_loop vars (suc fuel) dst_len dst (c ∷ src) =
    let varlen = name_length src in
    let copied = tmpl_loop vars fuel dst_len (dst ++ c ∷ []) src in
    let text = variable_text vars (take varlen src) in
    let replaced = tmpl_loop vars fuel dst_len (copy_bounded dst_len dst text) (drop varlen src) in
    if ltb (length dst) dst_len then (if c == b'$' then replaced else copied) else dst

unfoldable pub tmpl_parse : List (CString × Option CString) → ℕ → CString → CString
unfolding tmpl_loop
tmpl_parse vars dst_len src = tmpl_loop vars (length src) dst_len [] src
