-- ===== src/Fs/State.antt =====
-- totw_p6/fs.h and fsutil.c: the state of a mounted file system, and how a file's data go to disk.
use team_otw_os_labs.Base.{
  ℕ, zero, suc, ◌+◌, ◌*◌, ◌/◌, List, [], ◌∷◌, ◌++◌, Bool, not, ◌==◌, if◌then◌else◌, Run, ok, ◌>>=◌,
  load, take, drop, set, div_int, rem_int, int_of_char, int_of_short, to_char, to_short, add_int,
  mul_int, true, false, Option, none, some,
}
use team_otw_os_labs.Disk.{Host, Disk, block_write, disk_blocks}

abbrev pub num_files : ℕ
num_files = 64

abbrev pub open_files : ℕ
open_files = 32

abbrev pub namelen : ℕ
namelen = 15

abbrev pub data_blocks : ℕ
data_blocks = 4096

-- `file_meta`; `in_use` and the bytes of the name are `char`s, the rest `short`s.
pub record FileMeta : Type 0 where
  pub in_use : ℕ
  pub name : List ℕ
  pub num_blocks : ℕ
  pub size_last : ℕ
  pub blocks : List ℕ

-- `descriptor`; `file` is a `char` and `cursor` an `int`.
pub record Descriptor : Type 0 where
  pub file : ℕ
  pub cursor : ℕ

-- The `char` -1, which marks a free descriptor.
abbrev pub no_file : ℕ
no_file = 255

-- The bytes of a `short`, `n / 256` and `n % 256`, as they are stored, and as they are read back:
-- `256 * hi + lo` of two signed `char`s.
unfoldable pub high_byte : ℕ → ℕ
high_byte n = to_char (div_int (int_of_short n) 256)

unfoldable pub low_byte : ℕ → ℕ
low_byte n = to_char (rem_int (int_of_short n) 256)

unfoldable pub parse_short : ℕ → ℕ → ℕ
parse_short hi lo = to_short (add_int (mul_int 256 (int_of_char hi)) (int_of_char lo))

-- `memcpy(data + at, src, n)`
unfoldable pub copy_to : List ℕ → ℕ → List ℕ → ℕ → List ℕ
copy_to bytes at src n = take at bytes ++ (take n src ++ drop (at + n) bytes)

-- The first block of a file's group. `bytes` is what the fresh buffer holds.
unfoldable pub info_block : List ℕ → FileMeta → List ℕ
unfolding high_byte low_byte copy_to
info_block bytes f =
    let b0 = set bytes 0 f.in_use in
    let b1 = copy_to b0 1 f.name namelen in
    let b2 = set b1 (namelen + 2) (high_byte f.num_blocks) in
    let b3 = set b2 (namelen + 3) (low_byte f.num_blocks) in
    let b4 = set b3 (namelen + 4) (high_byte f.size_last) in
    set b4 (namelen + 5) (low_byte f.size_last)

-- `for (i = 0; i < DISK_BLOCKS / 4; i++)`: two bytes for each entry of the list, from byte `i` on.
unfoldable pub list_block : ℕ → List ℕ → List ℕ → List ℕ
list_block i [] bytes = bytes
list_block i (n ∷ ns) bytes =
    list_block (i + 2) ns (set (set bytes i (high_byte n)) (i + 1) (low_byte n))

module _ (host : Host) where
  -- The global variables of fs.c, and those of disk.c.
  pub record Fs : Type 0 where
    pub disk : Disk host
    pub usage : List ℕ
    pub file_metas : List FileMeta
    pub descriptors : List Descriptor

  -- `junk` is what `malloc` leaves in the buffer. The results of `block_write` are not looked at.
  unfoldable pub save_file_meta : (junk : List ℕ) → ℕ → Fs → Run (Bool × Fs)
  unfolding info_block list_block
  save_file_meta junk filenum fs = if not (fs.disk.active) then ok (false, fs) else (do
    f ← load fs.file_metas filenum
    let first = info_block junk f
    let (_, d1) = block_write host (3 * filenum + 1) first fs.disk
    let second = list_block 0 (take (disk_blocks / 4) f.blocks) first
    let (_, d2) = block_write host (3 * filenum + 2) second d1
    let third = list_block 0 (take (disk_blocks / 4) (drop (disk_blocks / 4) f.blocks)) second
    let (_, d3) = block_write host (3 * filenum + 3) third d2
    ok (true, record fs { disk = d3 }))

-- `for (i = 0; i < DISK_BLOCKS / 2; i++) if (!usage[i]) return i;` with `left` rounds left.
unfoldable pub empty_loop : (left : ℕ) → ℕ → List ℕ → Run (Option ℕ)
empty_loop zero i usage = ok none
empty_loop (suc left) i usage =
    load usage i >>= λ u. if u == 0 then ok (some i) else empty_loop left (suc i) usage

-- The block's index; the result -1 is `none`.
unfoldable pub find_empty_block : {host : Host} → Fs host → Run (Option ℕ)
unfolding empty_loop
find_empty_block fs =
    if not fs.disk.active then ok none else empty_loop (disk_blocks / 2) 0 fs.usage
