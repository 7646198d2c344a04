-- ===== src/Url.antt =====
-- src/http_microhttpd_utils.c: uh_urlencode and uh_urldecode. `blen` is the size of the buffer, and
-- the output written so far is kept as a list. Bytes from 128 on are no alphanumeric characters.
pub mod Bounds
pub mod Roundtrip
use nodogsplash.Prelude.{
  Bool, Option, [], if◌then◌else◌, leb, length, ltb, none, some, ℕ, ◌%◌, ◌&&◌, ◌*◌, ◌++◌, ◌+◌, ◌-◌,
  ◌/◌, ◌==◌, ◌||◌, ◌∷◌,
}
use nodogsplash.CString.{CString}

-- isdigit, isalnum and isxdigit of the C locale
abbrev pub is_digit_char : ℕ → Bool
is_digit_char c = leb b'0' c && leb c b'9'

abbrev pub is_alnum : ℕ → Bool
is_alnum c = is_digit_char c || (leb b'A' c && leb c b'Z') || (leb b'a' c && leb c b'z')

abbrev pub is_xdigit : ℕ → Bool
is_xdigit c = is_digit_char c || (leb b'A' c && leb c b'F') || (leb b'a' c && leb c b'f')

pub is_unreserved : ℕ → Bool
is_unreserved c = is_alnum c || c == b'-' || c == b'_' || c == b'.' || c == b'~'

-- "0123456789abcdef"[d], and the macro hex(x)
pub hex_char : ℕ → ℕ
hex_char d = if ltb d 10 then b'0' + d else b'a' + (d - 10)

pub hex_value : ℕ → ℕ
hex_value x = if leb x b'9' then x - b'0' else if leb x b'F' then x - b'A' + 10 else x - b'a' + 10

encode_loop : ℕ → CString → CString → Option CString
unfolding is_unreserved hex_char
encode_loop blen out [] = some out
encode_loop blen out (c ∷ src) =
    let plain = encode_loop blen (out ++ c ∷ []) src in
    let escaped =
      encode_loop blen (out ++ b'%' ∷ hex_char (c / 16 % 16) ∷ hex_char (c % 16) ∷ []) src in
    if ltb (length out) blen
    then (if is_unreserved c then plain else if leb (length out + 3) blen then escaped else none)
    else none

-- none is the result -1.
unfoldable pub uh_urlencode : ℕ → CString → Option CString
unfolding encode_loop
uh_urlencode blen src = encode_loop blen [] src

-- The string that is decoded, -1 on overflow, and -2 on a malformed string.
pub data Decoded : Type 0 where
  decoded : CString → Decoded
  overflow malformed : Decoded

decode_loop : ℕ → CString → CString → Decoded
unfolding hex_value
decode_loop blen out [] = decoded out
decode_loop blen out (c ∷ []) =
    if ltb (length out) blen
    then (if c == b'%' then malformed else decoded (out ++ c ∷ []))
    else overflow
decode_loop blen out (c ∷ d ∷ []) =
    let plain = decode_loop blen (out ++ c ∷ []) (d ∷ []) in
    if ltb (length out) blen then (if c == b'%' then malformed else plain) else overflow
decode_loop blen out (c ∷ h ∷ l ∷ src) =
    let plain = decode_loop blen (out ++ c ∷ []) (h ∷ l ∷ src) in
    let escape = decode_loop blen (out ++ (16 * hex_value h + hex_value l) % 256 ∷ []) src in
    if ltb (length out) blen
    then (if c == b'%' then (if is_xdigit h && is_xdigit l then escape else malformed) else plain)
    else overflow

unfoldable pub uh_urldecode : ℕ → CString → Decoded
unfolding decode_loop
uh_urldecode blen src = decode_loop blen [] src
