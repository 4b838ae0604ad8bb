-- ===== src/Base/Word.antt =====
-- Machine integers. An `int` is its 32-bit pattern and a `size_t` or an address a 64-bit number;
-- the conversions and the signed order are those of two's complement.
use Prim.Native.Nat.{ℕ, ◌+◌, ◌-◌, ◌*◌, ◌/◌, ◌%◌, ◌^◌, ◌<◌}
use mathlib.Core.Path.{◌≡◌}
use mathlib.Core.Bool.{Bool}
use native.Mathlib.Omega.{arith}
use team_otw_os_labs.Base.Tests.{ltb, if◌then◌else◌}

-- `(int)x` of a `size_t`: the low 32 bits.
unfoldable pub to_int : ℕ → ℕ
to_int x = x % 2 ^ 32

-- `(size_t)a` of an `int`: sign extension.
unfoldable pub to_size : ℕ → ℕ
to_size a = if ltb a (2 ^ 31) then a else a + (2 ^ 64 - 2 ^ 32)

-- `a < b` for two `int`s.
unfoldable pub lt_int : ℕ → ℕ → Bool
lt_int a b = ltb ((a + 2 ^ 31) % 2 ^ 32) ((b + 2 ^ 31) % 2 ^ 32)

unfoldable pub add_int : ℕ → ℕ → ℕ
add_int a b = (a + b) % 2 ^ 32

unfoldable pub sub_size : ℕ → ℕ → ℕ
sub_size a b = (a + 2 ^ 64 - b) % 2 ^ 64

unfoldable pub add_ptr : ℕ → ℕ → ℕ
add_ptr p n = (p + n) % 2 ^ 64

-- The values that an `int` holds without a sign.
abbrev pub IsSmall : ℕ → Type 0
IsSmall a = a < 2 ^ 31

pub to_int_small : (a : ℕ) → IsSmall a → to_int a ≡ a
unfolding to_int
to_int_small a h = omega arith

pub to_size_small : (a : ℕ) → IsSmall a → to_size a ≡ a
unfolding to_size
to_size_small a h = ground arith

pub lt_int_small : (a b : ℕ) → IsSmall a → IsSmall b → lt_int a b ≡ ltb a b
unfolding lt_int
lt_int_small a b h k = ground arith

pub add_int_small : (a b : ℕ) → IsSmall (a + b) → add_int a b ≡ a + b
unfolding add_int
add_int_small a b h = omega arith

-- `a / n` and `a % n` of an `int` by a positive constant: C rounds towards zero.
unfoldable pub div_int : ℕ → ℕ → ℕ
div_int a n = if ltb a (2 ^ 31) then a / n else (2 ^ 32 - (2 ^ 32 - a) / n) % 2 ^ 32

unfoldable pub rem_int : ℕ → ℕ → ℕ
rem_int a n = if ltb a (2 ^ 31) then a % n else (2 ^ 32 - (2 ^ 32 - a) % n) % 2 ^ 32

unfoldable pub sub_int : ℕ → ℕ → ℕ
sub_int a b = (a + 2 ^ 32 - b) % 2 ^ 32

unfoldable pub mul_int : ℕ → ℕ → ℕ
mul_int a b = (a * b) % 2 ^ 32

-- A `char` is its 8-bit pattern and a `short` its 16-bit pattern; both are signed.
unfoldable pub int_of_char : ℕ → ℕ
int_of_char c = if ltb c (2 ^ 7) then c else c + (2 ^ 32 - 2 ^ 8)

unfoldable pub int_of_short : ℕ → ℕ
int_of_short n = if ltb n (2 ^ 15) then n else n + (2 ^ 32 - 2 ^ 16)

unfoldable pub to_char : ℕ → ℕ
to_char a = a % 2 ^ 8

unfoldable pub to_short : ℕ → ℕ
to_short a = a % 2 ^ 16

-- `a < b`, `a / n` and `a % n` for 64-bit signed numbers, as 64-bit patterns.
unfoldable pub lt_long : ℕ → ℕ → Bool
lt_long a b = ltb ((a + 2 ^ 63) % 2 ^ 64) ((b + 2 ^ 63) % 2 ^ 64)

unfoldable pub div_long : ℕ → ℕ → ℕ
div_long a n = if ltb a (2 ^ 63) then a / n else (2 ^ 64 - (2 ^ 64 - a) / n) % 2 ^ 64

unfoldable pub rem_long : ℕ → ℕ → ℕ
rem_long a n = if ltb a (2 ^ 63) then a % n else (2 ^ 64 - (2 ^ 64 - a) % n) % 2 ^ 64
