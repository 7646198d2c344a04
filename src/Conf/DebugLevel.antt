-- ===== src/Conf/DebugLevel.antt =====
-- set_debuglevel of src/conf.c, with strtol of the standard library for the base 10.
use nodogsplash.Prelude.{
  Bool, Bool-cases, Option, [], arith, false, if◌then◌else◌, inl, inr, leb, min, none, refl, some,
  ℕ, ◌%◌, ◌&&◌, ◌*◌, ◌+◌, ◌-◌, ◌==◌, ◌^◌, ◌||◌, ◌∷◌, ◌≡◌, ◌≤◌, ◌⊎◌,
}
use nodogsplash.Prelude.Int32.{u32_mod}
use nodogsplash.CString.{CString}
use nodogsplash.Config.{Config}

-- isspace and isdigit of the C locale
unfoldable pub is_space : ℕ → Bool
is_space c = c == b' ' || leb 9 c && leb c 13

unfoldable pub is_digit : ℕ → Bool
is_digit c = leb b'0' c && leb c b'9'

-- The digits at the head, appended to a value, and what follows them.
unfoldable pub read_digits : ℕ → CString → ℕ × CString
unfolding is_digit
read_digits n [] = (n, [])
read_digits n (c ∷ s) = if is_digit c then read_digits (n * 10 + (c - b'0')) s else (n, c ∷ s)

unfoldable pub skip_spaces : CString → CString
unfolding is_space
skip_spaces [] = []
skip_spaces (c ∷ s) = if is_space c then skip_spaces s else c ∷ s

-- The value of `long`, clamped to its range, as an `int`, and the rest after the number.
positive : CString → ℕ × CString
unfolding read_digits
positive s = let (n, rest) = read_digits 0 s in (min n (2 ^ 63 - 1) % u32_mod, rest)

negative : CString → ℕ × CString
unfolding read_digits
negative s = let (n, rest) = read_digits 0 s in ((2 ^ 64 - min n (2 ^ 63)) % u32_mod, rest)

-- No digit at the head is no number: strtol leaves `end` at the start.
unfoldable pub starts_digit : CString → Bool
unfolding is_digit
starts_digit [] = false
starts_digit (c ∷ s) = is_digit c

signed_number : CString → Option (ℕ × CString)
unfolding positive negative starts_digit
signed_number [] = none
signed_number (c ∷ s) =
    if c == b'-'
    then (if starts_digit s then some (negative s) else none)
    else if c == b'+'
    then (if starts_digit s then some (positive s) else none)
    else if starts_digit (c ∷ s)
    then some (positive (c ∷ s))
    else none

unfoldable pub strtol_int : CString → Option (ℕ × CString)
unfolding signed_number skip_spaces
strtol_int s = signed_number (skip_spaces s)

-- end != opt + strlen(opt), then the range DEBUGLEVEL_MIN to DEBUGLEVEL_MAX.
set_level : Config → Option (ℕ × CString) → Config × ℕ
set_level config none = (config, 1)
set_level config (some (level, [])) =
    if leb level 3 then (record config { debuglevel = level }, 0) else (config, 1)
set_level config (some (level, c ∷ rest)) = (config, 1)

unfoldable pub set_debuglevel : Config → CString → Config × ℕ
unfolding set_level strtol_int
set_debuglevel config [] = (config, 1)
set_debuglevel config (c ∷ s) = set_level config (strtol_int (c ∷ s))

-- A level that was in range stays in range, whatever the text.
set_level_cases :
    (config : Config) (r : Option (ℕ × CString))
    → (set_level config r ≡ (config, 1))
      ⊎ ((level : ℕ) × (level ≤ 3)
          × (set_level config r ≡ (record config { debuglevel = level }, 0)))
unfolding set_level
set_level_cases config none = inl refl
set_level_cases config (some (level, [])) = elim (Bool-cases (leb level 3)) [
  | inl fits ↦ inr (level, ground (arith, fits), rw fits refl)
  | inr more ↦ inl (rw more refl)
]
set_level_cases config (some (level, c ∷ rest)) = inl refl

-- set_debuglevel has two outcomes: it returns 1 and changes nothing, or it returns 0 and sets the
-- level, and nothing else, to a number from 0 to 3.
pub set_debuglevel_cases :
    (config : Config) (s : CString)
    → (set_debuglevel config s ≡ (config, 1))
      ⊎ ((level : ℕ) × (level ≤ 3)
          × (set_debuglevel config s ≡ (record config { debuglevel = level }, 0)))
unfolding set_debuglevel
set_debuglevel_cases config [] = inl refl
set_debuglevel_cases config (c ∷ s) = set_level_cases config (strtol_int (c ∷ s))
