-- ===== src/Url/Bounds.antt =====
-- uh_urlencode of src/http_microhttpd_utils.c against an independent description of the encoding.
use nodogsplash.Prelude.{
  Bool-cases, Option, [], ap, append-nil, append_assoc, arith, if◌then◌else◌, inl, inr, leb, length,
  length-append, ltb, none, some, true, ℕ, ◌%◌, ◌++◌, ◌+◌, ◌/◌, ◌∙◌, ◌∷◌, ◌≡◌, ◌≤◌,
}
use nodogsplash.CString.{CString}
use nodogsplash.Url.{encode_loop, hex_char, is_unreserved, uh_urlencode}

-- What percent-encoding makes of a string, without regard to a buffer.
unfoldable pub encoded : CString → CString
encoded [] = []
encoded (c ∷ src) =
    (if is_unreserved c then c ∷ [] else b'%' ∷ hex_char (c / 16 % 16) ∷ hex_char (c % 16) ∷ [])
    ++ encoded src

fits : ℕ → ℕ → CString → Option CString
fits blen n out = if leb n blen then some out else none

reassoc :
    (blen : ℕ) (out piece tail : CString)
    → fits blen (length (out ++ piece) + length tail) ((out ++ piece) ++ tail)
      ≡ fits blen (length out + length (piece ++ tail)) (out ++ (piece ++ tail))
reassoc blen out piece tail =
    ap (λ k. fits blen k ((out ++ piece) ++ tail))
      (omega (arith, length-append out piece, length-append piece tail))
    ∙ ap (fits blen _) (append_assoc out piece tail)

encode_loop_lem :
    (blen : ℕ) (out src : CString)
    → length out ≤ blen
    → encode_loop blen out src ≡ fits blen (length out + length (encoded src)) (out ++ encoded src)
unfolding encode_loop encoded fits
encode_loop_lem blen out [] h = ground (arith, h, append-nil out)
encode_loop_lem blen out (c ∷ src) h = elim (Bool-cases (is_unreserved c)) [
  | inl plain ↦ elim (Bool-cases (ltb (length out) blen)) [
    | inl room ↦ rw plain (
        rw room (
          encode_loop_lem blen (out ++ c ∷ []) src
            (ground (arith, room, length-append out (c ∷ [])))
          ∙ reassoc blen out (c ∷ []) (encoded src)))
    | inr full ↦ rw plain (rw full (ground (arith, full)))
  ]
  | inr special ↦
      let piece = b'%' ∷ hex_char (c / 16 % 16) ∷ hex_char (c % 16) ∷ [] in
      elim (Bool-cases (leb (length out + 3) blen)) [
        | inl room ↦
            let below : ltb (length out) blen ≡ true = ground (arith, room) in
            rw special (
              rw room (
                rw below (
                  encode_loop_lem blen (out ++ piece) src
                    (ground (arith, room, length-append out piece))
                  ∙ reassoc blen out piece (encoded src))))
        | inr full ↦ rw special (rw full (ground (arith, full)))
      ]
]

-- uh_urlencode writes the percent-encoding of the whole string if it fits into the buffer, and fails
-- if it does not: no output is cut, and none is longer than the buffer.
pub urlencode_lem :
    (blen : ℕ) (src : CString)
    → uh_urlencode blen src ≡ (if leb (length (encoded src)) blen then some (encoded src) else none)
unfolding uh_urlencode fits
urlencode_lem blen src =
    encode_loop_lem blen [] src (omega arith)
    ∙ ap (λ n. if leb n blen then some (encoded src) else none) (omega arith)
