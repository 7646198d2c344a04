-- ===== src/Conf/Scan.antt =====
-- sscanf of the standard library for one number, as src/conf.c calls it, and parse_boolean of
-- src/conf.c. `none` is a result below 1; no argument is empty, so it is never EOF. A `long` or
-- `unsigned long` of 64 bits is clamped to its range and then stored in 32 bits.
use nodogsplash.Prelude.{
  Bool, Option, [], false, if◌then◌else◌, leb, ltb, map_option, min, none, some, true, ℕ, ◌%◌, ◌&&◌,
  ◌*◌, ◌+◌, ◌-◌, ◌==◌, ◌^◌, ◌||◌, ◌∷◌,
}
use nodogsplash.CString.{CString, codes, str_case_eq, str_eq}
use nodogsplash.Conf.DebugLevel.{skip_spaces}

-- The value of a digit or letter, or 99.
digit_value : ℕ → ℕ
digit_value c =
    if leb b'0' c && leb c b'9'
    then c - b'0'
    else if leb b'a' c && leb c b'z'
    then c - b'a' + 10
    else if leb b'A' c && leb c b'Z'
    then c - b'A' + 10
    else 99

more_digits : ℕ → ℕ → CString → ℕ
unfolding digit_value
more_digits base n [] = n
more_digits base n (c ∷ s) =
    if ltb (digit_value c) base then more_digits base (n * base + digit_value c) s else n

-- At least one digit.
digits_in : ℕ → CString → Option ℕ
unfolding more_digits
digits_in base [] = none
digits_in base (c ∷ s) =
    if ltb (digit_value c) base then some (more_digits base (digit_value c) s) else none

-- An optional 0x before hexadecimal digits.
hex_digits : CString → Option ℕ
unfolding digits_in
hex_digits (z ∷ x ∷ s) =
    if z == b'0' && (x == b'x' || x == b'X') then digits_in 16 s else digits_in 16 (z ∷ x ∷ s)
hex_digits s = digits_in 16 s

-- The base of %i follows from the first characters.
any_digits : CString → Option ℕ
unfolding hex_digits digits_in
any_digits (z ∷ x ∷ s) =
    if z == b'0' && (x == b'x' || x == b'X')
    then digits_in 16 s
    else if z == b'0'
    then digits_in 8 (z ∷ x ∷ s)
    else digits_in 10 (z ∷ x ∷ s)
any_digits s = digits_in 10 s

-- An optional sign: whether it is a minus, and the number.
signed : (CString → Option ℕ) → CString → Option (Bool × ℕ)
signed digits [] = none
signed digits (c ∷ s) =
    if c == b'-'
    then map_option (λ n. (true, n)) (digits s)
    else if c == b'+'
    then map_option (λ n. (false, n)) (digits s)
    else map_option (λ n. (false, n)) (digits (c ∷ s))

to_int : Bool × ℕ → ℕ
to_int (minus, n) =
    if minus then (2 ^ 64 - min n (2 ^ 63)) % 2 ^ 32 else min n (2 ^ 63 - 1) % 2 ^ 32

to_unsigned : Bool × ℕ → ℕ
to_unsigned (minus, n) =
    if leb (2 ^ 64) n then 2 ^ 32 - 1 else if minus then (2 ^ 64 - n) % 2 ^ 32 else n % 2 ^ 32

-- %d, %u, %x and %i
unfoldable pub scan_d : CString → Option ℕ
unfolding signed digits_in to_int
scan_d s = map_option to_int (signed (digits_in 10) (skip_spaces s))

unfoldable pub scan_u : CString → Option ℕ
unfolding signed digits_in to_unsigned
scan_u s = map_option to_unsigned (signed (digits_in 10) (skip_spaces s))

unfoldable pub scan_x : CString → Option ℕ
unfolding signed hex_digits to_unsigned
scan_x s = map_option to_unsigned (signed hex_digits (skip_spaces s))

unfoldable pub scan_i : CString → Option ℕ
unfolding signed any_digits to_int
scan_i s = map_option to_int (signed any_digits (skip_spaces s))

-- `none` is the result -1.
unfoldable pub parse_boolean : CString → Option ℕ
parse_boolean line =
    if str_case_eq line (codes "no")
      || (str_case_eq line (codes "false") || str_eq line (codes "0"))
    then some 0
    else if str_case_eq line (codes "yes")
        || (str_case_eq line (codes "true") || str_eq line (codes "1"))
    then some 1
    else none
