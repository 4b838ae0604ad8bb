-- ===== src/Fs/Bytes.antt =====
-- What a `short` that was saved to the disk is read back as.
use team_otw_os_labs.Base.{
  ℕ, ◌+◌, ◌-◌, ◌*◌, ◌/◌, ◌%◌, ◌^◌, ◌<◌, ◌≡◌, if◌then◌else◌, ltb, div_int, rem_int, int_of_char,
  int_of_short, to_char, to_short, add_int, mul_int, arith,
}
use team_otw_os_labs.Fs.State.{high_byte, low_byte, parse_short}

hi_small : (n : ℕ) → n < 2 ^ 15 → high_byte n ≡ n / 256
unfolding high_byte to_char div_int int_of_short
hi_small n h = ground arith

lo_small : (n : ℕ) → n < 2 ^ 15 → low_byte n ≡ n % 256
unfolding low_byte to_char rem_int int_of_short
lo_small n h = ground arith

parse_small :
    (a b : ℕ)
    → a < 128
    → b < 256
    → parse_short a b ≡ (if ltb b 128 then 256 * a + b else (256 * a + b + 65280) % 2 ^ 16)
unfolding parse_short to_short add_int mul_int int_of_char
parse_small a b h k = ground arith

-- A non-negative `short` that is saved and loaded again comes back as it was exactly where its low
-- byte is less than 128, and 256 less (modulo 2 ^ 16) otherwise.
pub parse_short-bytes :
    (n : ℕ)
    → n < 2 ^ 15
    → parse_short (high_byte n) (low_byte n)
      ≡ (if ltb (n % 256) 128 then n else (n + (2 ^ 16 - 256)) % 2 ^ 16)
parse_short-bytes n h =
    rw (
      hi_small n h,
      lo_small n h,
      parse_small (n / 256) (n % 256) (omega arith) (omega arith),
      split,
    )
  where
    split : 256 * (n / 256) + n % 256 ≡ n
    split = omega arith
