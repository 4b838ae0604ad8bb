-- ===== src/Fs/Truncate.antt =====
-- totw_p6/fs.c: `fs_truncate`.
use team_otw_os_labs.Base.{
  ℕ, zero, suc, ◌/◌, List, Bool, not, ◌==◌, if◌then◌else◌, Run, ok, out_of_fuel, ◌>>=◌, load, store,
  true, false, int_of_char, int_of_short, to_short, to_int, to_size, add_int, sub_int, lt_int,
  lt_long, div_long, rem_long,
}
use team_otw_os_labs.Disk.{Host, disk_blocks, block_size}
use team_otw_os_labs.Fs.State.{Fs, no_file, save_file_meta}
use team_otw_os_labs.Fs.Files.{fs_get_filesize}

-- `length / BLOCK_SIZE`, one more if there is a rest.
unfoldable pub target_of : ℕ → ℕ
target_of length =
    if lt_long 0 (rem_long length block_size)
    then add_int (to_int (div_long length block_size)) 1
    else to_int (div_long length block_size)

-- `while (target_blocks < f->num_blocks)`: the number of blocks and `usage`.
unfoldable pub free_blocks :
    (fuel : ℕ) → (target : ℕ) → List ℕ → (num_blocks : ℕ) → List ℕ → Run (ℕ × List ℕ)
free_blocks zero target blocks n usage = out_of_fuel
free_blocks (suc fuel) target blocks n usage =
    if lt_int target (int_of_short n)
    then (do
      b ← load blocks (int_of_short n)
      u ← store usage (sub_int (int_of_short b) (disk_blocks / 2)) 0
      free_blocks fuel target blocks (to_short (sub_int (int_of_short n) 1)) u)
    else ok (n, usage)

module _ (host : Host) where
  -- `length` is an `off_t`, a 64-bit pattern; `junk` is what `malloc` leaves in the buffer of
  -- `save_file_meta`. The loop has a round for each block between the file's and the target.
  unfoldable pub fs_truncate : (junk : List ℕ) → ℕ → ℕ → Fs host → Run (Bool × Fs host)
  unfolding target_of free_blocks
  fs_truncate junk fildes length fs = if not fs.disk.active then ok (false, fs) else (do
    d ← load fs.descriptors fildes
    if d.file == no_file then ok (false, fs) else (do
      size ← fs_get_filesize host fildes fs
      if lt_long (to_size size) length then ok (false, fs) else (do
        let filenum = int_of_char d.file
        f ← load fs.file_metas filenum
        let target = target_of length
        let fuel = suc (sub_int (int_of_short f.num_blocks) target)
        (n, usage) ← free_blocks fuel target f.blocks f.num_blocks fs.usage
        metas ← store fs.file_metas filenum (record f {
          num_blocks = n;
          size_last = to_short (to_int (rem_long length block_size));
        })
        (_, fs1) ←
            save_file_meta host junk filenum (record fs { usage = usage; file_metas = metas })
        ok (true, fs1))))
