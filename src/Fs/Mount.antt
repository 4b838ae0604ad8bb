-- ===== src/Fs/Mount.antt =====
-- totw_p6/fs.c: `make_fs`, `mount_fs` and `umount_fs`.
use team_otw_os_labs.Base.{
  ℕ, zero, suc, ◌+◌, ◌*◌, ◌/◌, List, [], ◌∷◌, ◌++◌, Bool, not, ◌==◌, if◌then◌else◌, Run, ok, ◌>>=◌,
  load, take, drop, replicate, true, false, Option,
}
use team_otw_os_labs.Disk.{
  Host, Disk, make_disk, open_disk, close_disk, block_write, block_read, disk_blocks, block_size,
}
use team_otw_os_labs.Fs.State.{
  FileMeta, Descriptor, Fs, no_file, num_files, open_files, namelen, parse_short,
}

-- `for (k = 0; k < DISK_BLOCKS / 4; k++)`: the entries that the bytes of a list block hold.
unfoldable pub parse_list : List ℕ → List ℕ
unfolding parse_short
parse_list (hi ∷ lo ∷ bytes) = parse_short hi lo ∷ parse_list bytes
parse_list _ = []

-- The `file_meta` of an unused file: `memset` clears the first half of the entries only, and the
-- others stay what `malloc` left there.
unfoldable pub unused_meta : (junk : List ℕ) → FileMeta
unused_meta junk = record {
  in_use = 0;
  name = replicate namelen 0;
  num_blocks = 0;
  size_last = 0;
  blocks = replicate (disk_blocks / 4) 0 ++ drop (disk_blocks / 4) junk;
}

module _ (host : Host) where
  -- `for (i = 0; i < DISK_BLOCKS; i++) block_write(i, empty);`
  unfoldable pub wipe_loop : (left : ℕ) → ℕ → Disk host → Disk host
  wipe_loop zero i d = d
  wipe_loop (suc left) i d =
      let (_, d1) = block_write host i (replicate block_size 0) d in wipe_loop left (suc i) d1

  -- The result 0 is `true`, and -1 is `false`.
  unfoldable pub make_fs : Option host.Name → Disk host → Bool × Disk host
  unfolding wipe_loop
  make_fs name d =
      let (made, d1) = make_disk host name d in
      if not made
      then (false, d1)
      else let (opened, d2) = open_disk host name d1 in
        if not opened then (false, d2) else close_disk host (wipe_loop disk_blocks 0 d2)

  -- The metadata of the file `i`: `bytes` is the buffer, and `junk` what the array held.
  unfoldable pub load_meta :
      (junk : List ℕ) → ℕ → List ℕ → Disk host → Run (FileMeta × List ℕ × Disk host)
  unfolding parse_short parse_list unused_meta
  load_meta junk i bytes d = do
    let (_, info, d1) = block_read host (3 * i + 1) bytes d
    used ← load info 0
    if used == 0 then ok (unused_meta junk, info, d1) else (do
      hi_num ← load info (namelen + 2)
      lo_num ← load info (namelen + 3)
      hi_last ← load info (namelen + 4)
      lo_last ← load info (namelen + 5)
      let (_, first, d2) = block_read host (3 * i + 2) info d1
      let (_, second, d3) = block_read host (3 * i + 3) first d2
      ok (
        record {
          in_use = used;
          name = take namelen (drop 1 info);
          num_blocks = parse_short hi_num lo_num;
          size_last = parse_short hi_last lo_last;
          blocks = parse_list first ++ parse_list second;
        },
        second,
        d3,
      ))

  unfoldable pub metas_loop :
      (junk : List ℕ) → (left : ℕ) → ℕ → List ℕ → Disk host → Run (List FileMeta × Disk host)
  unfolding load_meta
  metas_loop junk zero i bytes d = ok ([], d)
  metas_loop junk (suc left) i bytes d = load_meta junk i bytes d >>= λ r.
      let (f, bytes1, d1) = r in metas_loop junk left (suc i) bytes1 d1 >>= λ s. ok (f ∷ s.0, s.1)

  -- `bytes` and `junk` are what `malloc` leaves in the buffer and in the entries of each file.
  unfoldable pub mount_fs :
      (bytes junk : List ℕ) → Option host.Name → Fs host → Run (Bool × Fs host)
  unfolding metas_loop
  mount_fs bytes junk name fs =
      let (opened, d) = open_disk host name fs.disk in
      if not opened then ok (false, record fs { disk = d }) else (do
        let (_, used, d1) = block_read host 0 bytes d
        (metas, d2) ← metas_loop junk num_files 0 used d1
        ok (
          true,
          record {
            disk = d2;
            usage = take (disk_blocks / 2) used;
            file_metas = metas;
            descriptors = replicate open_files (record { file = no_file; cursor = 0 });
          },
        ))

  unfoldable pub all_closed_loop : (left : ℕ) → ℕ → List Descriptor → Run Bool
  all_closed_loop zero i ds = ok true
  all_closed_loop (suc left) i ds = load ds i >>= λ d.
      if not (d.file == no_file) then ok false else all_closed_loop left (suc i) ds

  -- The arrays that are freed are empty ones here: the next access to one is a crash.
  unfoldable pub umount_fs : Fs host → Run (Bool × Fs host)
  unfolding all_closed_loop
  umount_fs fs = do
    closed ← all_closed_loop open_files 0 fs.descriptors
    if not closed
        then ok (false, fs)
        else let (done, d) = close_disk host fs.disk in
          ok (done, record { disk = d; usage = []; file_metas = []; descriptors = [] })
