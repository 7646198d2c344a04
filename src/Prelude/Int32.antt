-- ===== src/Prelude/Int32.antt =====
-- A C `int` or `unsigned` of 32 bits is kept as its bit pattern, a number below 2 ^ 32.
use Prim.Native.Nat.{ℕ, ◌+◌, ◌-◌, ◌^◌, ◌%◌}
use mathlib.Core.Bool.{Bool, true, false, ◌&&◌}
use nodogsplash.Prelude.{leb, ltb}

abbrev pub u32_mod : ℕ
u32_mod = 2 ^ 32

-- The bit pattern of -1.
abbrev pub minus_one : ℕ
minus_one = 2 ^ 32 - 1

-- x > 0 and x < 0 for an `int`.
abbrev pub is_pos : ℕ → Bool
is_pos x = ltb 0 x && ltb x (2 ^ 31)

abbrev pub is_neg : ℕ → Bool
is_neg x = leb (2 ^ 31) x

-- MIN of two `int`s.
abbrev pub int_lt : ℕ → ℕ → Bool
int_lt a b = ltb ((a + 2 ^ 31) % 2 ^ 32) ((b + 2 ^ 31) % 2 ^ 32)

abbrev pub int_min : ℕ → ℕ → ℕ
int_min a b = elim (int_lt a b) [ true ↦ a | false ↦ b ]

-- An `int` converted to `unsigned long long`.
abbrev pub int_to_u64 : ℕ → ℕ
int_to_u64 x = elim (leb (2 ^ 31) x) [ true ↦ x + (2 ^ 64 - 2 ^ 32) | false ↦ x ]
