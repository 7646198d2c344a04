-- ===== src/Url/Roundtrip.antt =====
-- Decoding after encoding in src/http_microhttpd_utils.c.
use nodogsplash.Prelude.{
  All, Bool-cases, [], ap, append-nil, append_assoc, arith, false, inl, inr, length, length-append,
  ltb, refl, some, sym, true, ℕ, ◌%◌, ◌&&◌, ◌*◌, ◌++◌, ◌+◌, ◌/◌, ◌<◌, ◌==◌, ◌∙◌, ◌∷◌, ◌≡◌, ◌≤◌,
}
use nodogsplash.CString.{CString}
use nodogsplash.Url.{
  decode_loop, decoded, hex_char, hex_value, is_unreserved, is_xdigit, uh_urldecode, uh_urlencode,
}
use nodogsplash.Url.Bounds.{encoded, urlencode_lem}

-- The two digits of a byte.
digits_value :
    (c : ℕ)
    → c < 256
    → ((is_xdigit (hex_char (c / 16 % 16)) && is_xdigit (hex_char (c % 16))) ≡ true)
      × ((16 * hex_value (hex_char (c / 16 % 16)) + hex_value (hex_char (c % 16))) % 256 ≡ c)
unfolding hex_char hex_value
digits_value c small = ground (arith, small)

unreserved_not_percent : (c : ℕ) → is_unreserved c ≡ true → (c == b'%') ≡ false
unfolding is_unreserved
unreserved_not_percent c e = ground (arith, e)

decode_plain :
    (blen : ℕ) (out : CString) (c : ℕ) (src : CString)
    → (c == b'%') ≡ false
    → ltb (length out) blen ≡ true
    → decode_loop blen out (c ∷ src) ≡ decode_loop blen (out ++ c ∷ []) src
unfolding decode_loop
decode_plain blen out c [] other room = rw other (rw room refl)
decode_plain blen out c (d ∷ []) other room = rw other (rw room refl)
decode_plain blen out c (d ∷ e ∷ src) other room = rw other (rw room refl)

decode_escape :
    (blen : ℕ) (out : CString) (c : ℕ) (src : CString)
    → c < 256
    → ltb (length out) blen ≡ true
    → decode_loop blen out (b'%' ∷ hex_char (c / 16 % 16) ∷ hex_char (c % 16) ∷ src)
      ≡ decode_loop blen (out ++ c ∷ []) src
unfolding decode_loop
decode_escape blen out c src small room =
    let (digits, value) = digits_value c small in rw room (rw digits (rw value refl))

decode_encoded :
    (blen : ℕ) (out src : CString)
    → All (λ c. c < 256) src
    → length out + length src ≤ blen
    → decode_loop blen out (encoded src) ≡ decoded (out ++ src)
unfolding decode_loop encoded
decode_encoded blen out [] bytes fits = ap decoded (sym (append-nil out))
decode_encoded blen out (c ∷ src) bytes fits =
    let room : ltb (length out) blen ≡ true = ground (arith, fits) in
    let rest =
      decode_encoded blen (out ++ c ∷ []) src bytes.1
        (ground (arith, fits, length-append out (c ∷ [])))
      ∙ ap decoded (append_assoc out (c ∷ []) src) in
    elim (Bool-cases (is_unreserved c)) [
      | inl plain ↦
          rw plain
            (decode_plain blen out c (encoded src) (unreserved_not_percent c plain) room ∙ rest)
      | inr special ↦ rw special (decode_escape blen out c (encoded src) bytes.0 room ∙ rest)
    ]

-- Decoding what uh_urlencode wrote gives back the string, for every string of bytes and every buffer
-- that has room for the string.
pub urldecode-urlencode :
    (blen blen' : ℕ) (src result : CString)
    → All (λ c. c < 256) src
    → uh_urlencode blen src ≡ some result
    → length src ≤ blen'
    → uh_urldecode blen' result ≡ decoded src
unfolding uh_urldecode
urldecode-urlencode blen blen' src result bytes e fits =
    let same : encoded src ≡ result = ground (arith, e, urlencode_lem blen src) in
    ap (decode_loop blen' []) (sym same) ∙ decode_encoded blen' [] src bytes (omega (arith, fits))
