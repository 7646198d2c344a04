-- ===== src/Template/Expand.antt =====
-- tmpl_parse of src/template.c against a description of the expansion that reads the source once, byte
-- by byte, without a buffer.
use nodogsplash.Prelude.{
  Bool-cases, List, Option, [], ap, append-nil, append_assoc, arith, drop, if◌then◌else◌, inl, inr,
  leb, length, length-append, length-drop, length-take, ltb, none, refl, some, suc, sym, take, zero,
  ℕ, ◌++◌, ◌-◌, ◌==◌, ◌∙◌, ◌∷◌, ◌≡◌, ◌≤◌,
}
use nodogsplash.CString.{CString}
use nodogsplash.Template.{
  copy_bounded, is_name_char, name_length, tmpl_loop, tmpl_parse, variable_text,
}

-- `name` is the name read so far, if a `$` was seen.
pub expand : List (CString × Option CString) → Option CString → CString → CString
expand vars none [] = []
expand vars (some name) [] = variable_text vars name
expand vars none (c ∷ src) =
    if c == b'$' then expand vars (some []) src else c ∷ expand vars none src
expand vars (some name) (c ∷ src) =
    if is_name_char c
    then expand vars (some (name ++ c ∷ [])) src
    else variable_text vars name
      ++ (if c == b'$' then expand vars (some []) src else c ∷ expand vars none src)

-- A name and the rest of the source.
expand-name :
    (vars : List (CString × Option CString)) (name src : CString)
    → expand vars (some name) src
      ≡ variable_text vars (name ++ take (name_length src) src)
        ++ expand vars none (drop (name_length src) src)
unfolding expand name_length
expand-name vars name [] =
    sym (append-nil (variable_text vars (name ++ [])) ∙ ap (variable_text vars) (append-nil name))
expand-name vars name (c ∷ src) = elim (Bool-cases (is_name_char c)) [
  | inl more ↦ rw more (
      expand-name vars (name ++ c ∷ []) src
      ∙ ap (λ k. variable_text vars k ++ expand vars none (drop (name_length src) src))
          (append_assoc name (c ∷ []) (take (name_length src) src)))
  | inr over ↦
      rw over (ap (λ k. variable_text vars k ++ expand vars none (c ∷ src)) (sym (append-nil name)))
]

take_nat : (m n : ℕ) (xs : CString) → m ≡ n → take m xs ≡ take n xs
take_nat m n xs e = ap (λ k. take k xs) e

take-append : (n : ℕ) (xs ys : CString) → take n (xs ++ ys) ≡ take n xs ++ take (n - length xs) ys
take-append zero xs ys = take_nat 0 (0 - length xs) ys (omega arith)
take-append (suc n) [] ys = take_nat (suc n) (suc n - 0) ys (omega arith)
take-append (suc n) (x ∷ xs) ys =
    ap (λ k. x ∷ k)
      (take-append n xs ys
        ∙ ap (λ k. take n xs ++ k)
            (take_nat (n - length xs) (suc n - suc (length xs)) ys (omega arith)))

take_all : (n : ℕ) (xs : CString) → length xs ≤ n → take n xs ≡ xs
take_all zero [] h = refl
take_all zero (x ∷ xs) h = absurd (omega (arith, h))
take_all (suc n) [] h = refl
take_all (suc n) (x ∷ xs) h = ap (λ k. x ∷ k) (take_all n xs (omega (arith, h)))

take_full : (n : ℕ) (xs ys : CString) → length xs ≡ n → take n (xs ++ ys) ≡ xs
take_full n xs ys e =
    take-append n xs ys
    ∙ (ap (λ k. k ++ take (n - length xs) ys) (take_all n xs (omega (arith, e)))
        ∙ (ap (λ k. xs ++ k) (take_nat (n - length xs) 0 ys (omega (arith, e))) ∙ append-nil xs))

-- Cutting the middle part first makes no difference to a cut of the whole.
take-copy :
    (n : ℕ) (xs ys zs : CString)
    → length xs ≤ n
    → take n (copy_bounded n xs ys ++ zs) ≡ take n (xs ++ (ys ++ zs))
unfolding copy_bounded
take-copy n xs ys zs h = elim (Bool-cases (leb (length ys) (n - length xs))) [
  | inl fits ↦
      ap (λ k. take n ((xs ++ k) ++ zs)) (take_all (n - length xs) ys (ground (arith, fits)))
      ∙ ap (take n) (append_assoc xs ys zs)
  | inr long ↦
      let cut = take (n - length xs) ys in
      let room : length (xs ++ cut) ≡ n =
        ground (arith, long, h, length-append xs cut, length-take (n - length xs) ys) in
      take_full n (xs ++ cut) zs room
      ∙ sym (
          take-append n xs (ys ++ zs)
          ∙ (ap (λ k. k ++ take (n - length xs) (ys ++ zs)) (take_all n xs h)
              ∙ ap (λ k. xs ++ k)
                  (take-append (n - length xs) ys zs
                    ∙ (ap (λ k. cut ++ k)
                          (take_nat (n - length xs - length ys) 0 zs (ground (arith, long)))
                        ∙ append-nil cut))))
]

length-copy : (n : ℕ) (xs ys : CString) → length xs ≤ n → length (copy_bounded n xs ys) ≤ n
unfolding copy_bounded
length-copy n xs ys h =
    ground (arith, h, length-append xs (take (n - length xs) ys), length-take (n - length xs) ys)

tmpl_loop_lem :
    (vars : List (CString × Option CString)) (fuel dst_len : ℕ) (dst src : CString)
    → length src ≤ fuel
    → length dst ≤ dst_len
    → tmpl_loop vars fuel dst_len dst src ≡ take dst_len (dst ++ expand vars none src)
unfolding tmpl_loop expand
tmpl_loop_lem vars zero dst_len dst [] f h =
    sym (take_all dst_len (dst ++ []) (omega (arith, h, length-append dst [])) ∙ append-nil dst)
tmpl_loop_lem vars zero dst_len dst (c ∷ src) f h = absurd (omega (arith, f))
tmpl_loop_lem vars (suc fuel) dst_len dst [] f h =
    sym (take_all dst_len (dst ++ []) (omega (arith, h, length-append dst [])) ∙ append-nil dst)
tmpl_loop_lem vars (suc fuel) dst_len dst (c ∷ src) f h =
    elim (Bool-cases (ltb (length dst) dst_len)) [
      | inr full ↦ rw full (sym (take_full dst_len dst _ (ground (arith, full, h))))
      | inl room ↦ elim (Bool-cases (c == b'$')) [
        | inl dollar ↦
            let text = variable_text vars (take (name_length src) src) in
            let rest = drop (name_length src) src in
            rw room (
              rw dollar (
                tmpl_loop_lem vars fuel dst_len (copy_bounded dst_len dst text) rest
                  (omega (arith, f, length-drop (name_length src) src))
                  (length-copy dst_len dst text h)
                ∙ (take-copy dst_len dst text (expand vars none rest) h
                    ∙ ap (λ k. take dst_len (dst ++ k)) (sym (expand-name vars [] src)))))
        | inr other ↦ rw room (
            rw other (
              tmpl_loop_lem vars fuel dst_len (dst ++ c ∷ []) src (omega (arith, f))
                (ground (arith, room, length-append dst (c ∷ [])))
              ∙ ap (take dst_len) (append_assoc dst (c ∷ []) (expand vars none src))))
      ]
    ]

-- tmpl_parse writes the expansion of the source, cut to the size of the buffer: a `$` and the letters,
-- digits and underscores after it give the value of the variable, or the name itself if it has more
-- than 31 bytes or no value, and all other bytes stay. The fuel, the length of the source, is enough.
pub tmpl_parse_lem :
    (vars : List (CString × Option CString)) (dst_len : ℕ) (src : CString)
    → tmpl_parse vars dst_len src ≡ take dst_len (expand vars none src)
unfolding tmpl_parse
tmpl_parse_lem vars dst_len src =
    tmpl_loop_lem vars (length src) dst_len [] src (omega arith) (omega arith)
