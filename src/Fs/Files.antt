-- ===== src/Fs/Files.antt =====
-- totw_p6/fs.c: `fs_open`, `fs_close`, `fs_create`, `fs_delete`, `fs_get_filesize` and `fs_lseek`.
use team_otw_os_labs.Base.{
  ℕ, zero, suc, ◌-◌, ◌/◌, ◌^◌, List, ◌∷◌, Bool, not, ◌==◌, ◌||◌, if◌then◌else◌, ltb, Run, ok, fault,
  ◌>>=◌, load, store, take, length, true, false, Option, none, some, int_of_char, int_of_short,
  to_char, to_int, to_size, add_int, sub_int, mul_int, lt_long,
}
use team_otw_os_labs.Disk.{Host, disk_blocks, block_size}
use team_otw_os_labs.Fs.State.{
  FileMeta, Descriptor, Fs, no_file, num_files, open_files, namelen, save_file_meta,
}

-- `memcpy` from a pointer with these bytes behind it: a crash where there are fewer than `n`.
unfoldable pub read_bytes : ℕ → List ℕ → Run (List ℕ)
read_bytes n bytes = if ltb (length bytes) n then fault else ok (take n bytes)

-- `strncmp(s, t, n) == 0`
unfoldable pub same_name : ℕ → List ℕ → List ℕ → Run Bool
same_name zero s t = ok true
same_name (suc n) (x ∷ s) (y ∷ t) =
    if x == y then if x == 0 then ok true else same_name n s t else ok false
same_name (suc n) _ _ = fault

-- `file_metas[i].in_use && strncmp(file_metas[i].name, name, NAMELEN) == 0`
unfoldable pub is_named : List ℕ → FileMeta → Run Bool
unfolding same_name
is_named name f = if f.in_use == 0 then ok false else same_name namelen f.name name

-- The loop of `fs_open` over the files, and the one over the descriptors.
unfoldable pub file_loop : (left : ℕ) → ℕ → List FileMeta → List ℕ → Run (Option ℕ)
unfolding is_named
file_loop zero i metas name = ok none
file_loop (suc left) i metas name = do
  f ← load metas i
  found ← is_named name f
  if found then ok (some i) else file_loop left (suc i) metas name

unfoldable pub slot_loop : (left : ℕ) → ℕ → List Descriptor → Run (Option ℕ)
slot_loop zero i ds = ok none
slot_loop (suc left) i ds =
    load ds i >>= λ d. if d.file == no_file then ok (some i) else slot_loop left (suc i) ds

-- The loops of `fs_create` and `fs_delete`: the first file that is not in use, or that is.
unfoldable pub unused_loop : (left : ℕ) → ℕ → List FileMeta → Run (Option ℕ)
unused_loop zero i metas = ok none
unused_loop (suc left) i metas =
    load metas i >>= λ f. if f.in_use == 0 then ok (some i) else unused_loop left (suc i) metas

unfoldable pub used_loop : (left : ℕ) → ℕ → List FileMeta → Run (Option ℕ)
used_loop zero i metas = ok none
used_loop (suc left) i metas =
    load metas i >>= λ f. if not (f.in_use == 0) then ok (some i) else used_loop left (suc i) metas

-- `for (k = 0; k < num_blocks; k++) usage[blocks[k] - DISK_BLOCKS / 2] = 0;`
unfoldable pub clear_loop : (left : ℕ) → ℕ → List ℕ → List ℕ → Run (List ℕ)
clear_loop zero k blocks usage = ok usage
clear_loop (suc left) k blocks usage = do
  b ← load blocks k
  u ← store usage (sub_int (int_of_short b) (disk_blocks / 2)) 0
  clear_loop left (suc k) blocks u

-- How often a loop from 0 up to a `short` turns.
unfoldable pub rounds : ℕ → ℕ
rounds n = if ltb n (2 ^ 15) then n else 0

-- `(num_blocks - 1) * BLOCK_SIZE + size_last`, or 0 without a block.
unfoldable pub file_size : FileMeta → ℕ
file_size f =
    if f.num_blocks == 0
    then 0
    else add_int (mul_int (sub_int (int_of_short f.num_blocks) 1) block_size)
        (int_of_short f.size_last)

module _ (host : Host) where
  -- The result of `fs_open` is the descriptor; -1 is `none`.
  unfoldable pub fs_open : List ℕ → Fs host → Run (Option ℕ × Fs host)
  unfolding file_loop slot_loop
  fs_open name fs =
      if not fs.disk.active
      then ok (none, fs)
      else file_loop num_files 0 fs.file_metas name >>= λ file_num. elim file_num [
        | none ↦ ok (none, fs)
        | some n ↦ slot_loop open_files 0 fs.descriptors >>= λ slot. elim slot [
          | none ↦ ok (none, fs)
          | some i ↦ store fs.descriptors i (record { file = to_char n; cursor = 0 }) >>= λ ds.
              ok (some i, record fs { descriptors = ds })
        ]
      ]

  -- The result 0 is `true`, and -1 is `false`.
  unfoldable pub fs_close : ℕ → Fs host → Run (Bool × Fs host)
  fs_close filedes fs = if not fs.disk.active then ok (false, fs) else (do
    d ← load fs.descriptors filedes
    if d.file == no_file then ok (false, fs) else (do
      ds ← store fs.descriptors filedes (record d { file = no_file })
      ok (true, record fs { descriptors = ds })))

  -- `junk` is what `malloc` leaves in the buffer of `save_file_meta`.
  unfoldable pub fs_create : (junk : List ℕ) → List ℕ → Fs host → Run (Bool × Fs host)
  unfolding unused_loop read_bytes
  fs_create junk name fs =
      if not fs.disk.active
      then ok (false, fs)
      else unused_loop num_files 0 fs.file_metas >>= λ slot. elim slot [
        | none ↦ ok (false, fs)
        | some i ↦ (do
          f ← load fs.file_metas i
          bytes ← read_bytes namelen name
          metas ←
              store fs.file_metas i
                (record f { in_use = 1; name = bytes; num_blocks = 0; size_last = 0 })
          (_, fs1) ← save_file_meta host junk i (record fs { file_metas = metas })
          ok (true, fs1))
      ]

  -- The name is not looked at.
  unfoldable pub fs_delete : (junk : List ℕ) → List ℕ → Fs host → Run (Bool × Fs host)
  unfolding used_loop clear_loop rounds
  fs_delete junk name fs =
      if not fs.disk.active
      then ok (false, fs)
      else used_loop num_files 0 fs.file_metas >>= λ slot. elim slot [
        | none ↦ ok (false, fs)
        | some i ↦ (do
          f ← load fs.file_metas i
          metas ← store fs.file_metas i (record f { in_use = 0 })
          usage ← clear_loop (rounds f.num_blocks) 0 f.blocks fs.usage
          (_, fs1) ← save_file_meta host junk i (record fs { file_metas = metas; usage = usage })
          ok (true, fs1))
      ]

  -- An `int`, -1 on an error.
  unfoldable pub fs_get_filesize : ℕ → Fs host → Run ℕ
  unfolding file_size
  fs_get_filesize fildes fs = if not fs.disk.active then ok (2 ^ 32 - 1) else (do
    d ← load fs.descriptors fildes
    if d.file == no_file
        then ok (2 ^ 32 - 1)
        else (do f ← load fs.file_metas (int_of_char d.file); ok (file_size f)))

  -- `offset` is an `off_t`, a 64-bit pattern.
  unfoldable pub fs_lseek : ℕ → ℕ → Fs host → Run (Bool × Fs host)
  unfolding fs_get_filesize
  fs_lseek fildes offset fs = if not fs.disk.active then ok (false, fs) else (do
    d ← load fs.descriptors fildes
    if d.file == no_file then ok (false, fs) else (do
      size ← fs_get_filesize fildes fs
      if lt_long offset 0 || lt_long (to_size size) offset then ok (false, fs) else (do
        ds ← store fs.descriptors fildes (record d { cursor = to_int offset })
        ok (true, record fs { descriptors = ds }))))
