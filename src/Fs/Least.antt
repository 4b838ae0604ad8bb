-- ===== src/Fs/Least.antt =====
-- Small numbers, and the lesser of two.
use team_otw_os_labs.Base.{
  ℕ, ◌+◌, ◌-◌, ◌/◌, ◌%◌, ◌^◌, ◌<◌, ◌≤◌, ◌≡◌, ok, get_or, arith, load, if◌then◌else◌, ltb, to_size,
  to_int, int_of_short, div_int, rem_int, sub_int, add_int, sub_size, IsSmall,
}
use team_otw_os_labs.Fs.State.{FileMeta}
use team_otw_os_labs.Fs.Transfer.{cap}

-- The entries of the file's blocks are blocks of the disk.
abbrev pub HasBlocks : FileMeta → Type 0
HasBlocks f =
    (k : ℕ)
    → k < f.num_blocks
    → (load f.blocks k ≡ ok (get_or f.blocks k 0)) × (get_or f.blocks k 0 < 8192)

-- The lesser of two numbers.
abbrev pub least : ℕ → ℕ → ℕ
least a b = if ltb a b then a else b

pub cap-least : (m dist : ℕ) → IsSmall dist → cap m dist ≡ least m dist
unfolding cap to_size to_int
cap-least m dist h = ground arith

pub to_size-least : (m dist : ℕ) → IsSmall dist → to_size (least m dist) ≡ least m dist
unfolding to_size
to_size-least m dist h = ground arith

pub short_block : (b : ℕ) → b < 8192 → int_of_short b ≡ b
unfolding int_of_short
short_block b h = ground arith

pub div_small : (c : ℕ) → IsSmall c → div_int c 4096 ≡ c / 4096
unfolding div_int
div_small c h = ground arith

pub rem_small : (c : ℕ) → IsSmall c → rem_int c 4096 ≡ c % 4096
unfolding rem_int
rem_small c h = ground arith

pub add_small : (a b : ℕ) → IsSmall (a + b) → add_int a b ≡ a + b
unfolding add_int
add_small a b h = omega arith

pub sub_small : (a b : ℕ) → IsSmall a → b ≤ a → sub_int a b ≡ a - b
unfolding sub_int
sub_small a b h k = omega arith

pub sub_size_small : (a b : ℕ) → a < 2 ^ 64 → b ≤ a → sub_size a b ≡ a - b
unfolding sub_size
sub_size_small a b h k = omega arith

pub least-le : (m dist : ℕ) → (least m dist ≤ m) × (least m dist ≤ dist)
least-le m dist = ground arith

pub least-step :
    (m dist left : ℕ)
    → dist ≤ left
    → least m dist + least (m - least m dist) (left - least m dist) ≡ least m left
least-step m dist left h = ground arith

pub least-positive : (a b : ℕ) → 0 < a → 0 < b → 0 < least a b
least-positive a b h k = ground arith
