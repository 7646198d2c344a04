-- ===== src/CString.antt =====
-- C strings, and the functions of <string.h> and <ctype.h> that the sources call on them.
-- A string is the list of its bytes, without the closing NUL.
use Prim.Native.Char.{code}
use nodogsplash.Prelude.{
  Bool, List, String, [], arith, false, if◌then◌else◌, leb, ltb, refl, suc, true, zero, ℕ, ◌%◌,
  ◌&&◌, ◌+◌, ◌/◌, ◌==◌, ◌↔◌, ◌∷◌, ◌≡◌,
}

abbrev pub CString : Type 0
CString = List ℕ

-- A string literal of the sources, which are ASCII.
abbrev pub codes : String → CString
codes String.[] = []
codes (String.◌∷◌ c s) = code c ∷ codes s

-- strcmp(a, b) == 0
unfoldable pub str_eq : CString → CString → Bool
str_eq [] [] = true
str_eq [] (y ∷ ys) = false
str_eq (x ∷ xs) [] = false
str_eq (x ∷ xs) (y ∷ ys) = (x == y) && str_eq xs ys

-- tolower of the C locale
abbrev pub to_lower : ℕ → ℕ
to_lower c = if leb b'A' c && leb c b'Z' then c + 32 else c

-- strcasecmp(a, b) == 0
unfoldable pub str_case_eq : CString → CString → Bool
str_case_eq [] [] = true
str_case_eq [] (y ∷ ys) = false
str_case_eq (x ∷ xs) [] = false
str_case_eq (x ∷ xs) (y ∷ ys) = (to_lower x == to_lower y) && str_case_eq xs ys

-- strncmp(s, prefix, strlen(prefix)) == 0
unfoldable pub has_prefix : CString → CString → Bool
has_prefix s [] = true
has_prefix [] (y ∷ ys) = false
has_prefix (x ∷ xs) (y ∷ ys) = (x == y) && has_prefix xs ys

pub str_eq_refl : (s : CString) → str_eq s s ≡ true
unfolding str_eq
str_eq_refl [] = refl
str_eq_refl (x ∷ xs) = ground (arith, str_eq_refl xs)

pub eq_of_str_eq : (a b : CString) → str_eq a b ≡ true → a ≡ b
unfolding str_eq
eq_of_str_eq [] [] h = refl
eq_of_str_eq [] (y ∷ ys) h = cc
eq_of_str_eq (x ∷ xs) [] h = cc
eq_of_str_eq (x ∷ xs) (y ∷ ys) h = ground (arith, eq_of_str_eq xs ys)

pub str_eq_iff : (a b : CString) → (str_eq a b ≡ true) ↔ (a ≡ b)
str_eq_iff a b = (eq_of_str_eq a b, λ e. cc (e, str_eq_refl a))

pub str_case_eq_refl : (s : CString) → str_case_eq s s ≡ true
unfolding str_case_eq
str_case_eq_refl [] = refl
str_case_eq_refl (x ∷ xs) = ground (arith, str_case_eq_refl xs)

pub str_case_eq_symm : (a b : CString) → str_case_eq a b ≡ true → str_case_eq b a ≡ true
unfolding str_case_eq
str_case_eq_symm [] [] h = refl
str_case_eq_symm [] (y ∷ ys) h = cc
str_case_eq_symm (x ∷ xs) [] h = cc
str_case_eq_symm (x ∷ xs) (y ∷ ys) h = ground (arith, str_case_eq_symm xs ys)

pub str_case_eq_trans :
    (a b c : CString) → str_case_eq a b ≡ true → str_case_eq b c ≡ true → str_case_eq a c ≡ true
unfolding str_case_eq
str_case_eq_trans [] [] [] h k = refl
str_case_eq_trans (x ∷ xs) (y ∷ ys) (z ∷ zs) h k = ground (arith, str_case_eq_trans xs ys zs)
str_case_eq_trans [] [] (z ∷ zs) h k = cc
str_case_eq_trans [] (y ∷ ys) c h k = cc
str_case_eq_trans (x ∷ xs) [] c h k = cc
str_case_eq_trans (x ∷ xs) (y ∷ ys) [] h k = cc

pub str_eq_comm : (a b : CString) → str_eq a b ≡ str_eq b a
unfolding str_eq
str_eq_comm [] [] = refl
str_eq_comm [] (y ∷ ys) = refl
str_eq_comm (x ∷ xs) [] = refl
str_eq_comm (x ∷ xs) (y ∷ ys) = ground (arith, str_eq_comm xs ys)

-- "%d" of a number that is not negative: its decimal digits, in at most `fuel` of them. A 32-bit
-- number has at most ten.
decimal_digits : ℕ → ℕ → CString → CString
decimal_digits zero n done = done
decimal_digits (suc fuel) n done =
    let more = decimal_digits fuel (n / 10) ((b'0' + n % 10) ∷ done) in
    if ltb n 10 then (b'0' + n) ∷ done else more

unfoldable pub format_decimal : ℕ → CString
unfolding decimal_digits
format_decimal n = decimal_digits 20 n []
