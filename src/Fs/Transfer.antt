-- ===== src/Fs/Transfer.antt =====
-- totw_p6/fs.c: `fs_read` and `fs_write`.
use team_otw_os_labs.Base.{
  ℕ, zero, suc, ◌+◌, ◌/◌, List, [], ◌++◌, not, ◌==◌, ◌||◌, if◌then◌else◌, ltb, Run, ok, out_of_fuel,
  ◌>>=◌, load, store, drop, Option, none, some, int_of_char, int_of_short, to_short, to_int,
  to_size, add_int, sub_int, lt_int, div_int, rem_int, sub_size,
}
use team_otw_os_labs.Disk.{Host, block_read, block_write, disk_blocks, block_size}
use team_otw_os_labs.Fs.State.{Descriptor, Fs, save_file_meta, find_empty_block, copy_to}
use team_otw_os_labs.Fs.Files.{fs_get_filesize, read_bytes}

-- `if (nbyte < dist) dist = nbyte;` where the test is one of `size_t`.
unfoldable pub cap : ℕ → ℕ → ℕ
cap nbyte dist = if ltb nbyte (to_size dist) then to_int nbyte else dist

module _ (host : Host) where
  -- The variables of `fs_read`: `bytes` is the buffer `data`, `out` what has gone to `buf`.
  pub record Reading : Type 0 where
    pub fs : Fs host
    pub bytes : List ℕ
    pub out : List ℕ
    pub done : ℕ
    pub nbyte : ℕ

  -- The rest of a round, from the cap on.
  unfoldable pub read_round : ℕ → (offset dist : ℕ) → Descriptor → Reading → Run Reading
  unfolding cap read_bytes
  read_round fildes offset dist desc r = do
    let n = cap r.nbyte dist
    f ← load r.fs.file_metas (int_of_char desc.file)
    block ← load f.blocks (div_int desc.cursor block_size)
    let (_, bytes, disk) = block_read host (int_of_short block) r.bytes r.fs.disk
    piece ← read_bytes (to_size n) (drop offset bytes)
    ds ← store r.fs.descriptors fildes (record desc { cursor = add_int desc.cursor n })
    ok (record {
      fs = record r.fs { disk = disk; descriptors = ds };
      bytes = bytes;
      out = r.out ++ piece;
      done = add_int r.done n;
      nbyte = sub_size r.nbyte (to_size n);
    })

  unfoldable pub read_loop : (fuel : ℕ) → ℕ → Reading → Run Reading
  unfolding read_round
  read_loop zero fildes r = out_of_fuel
  read_loop (suc fuel) fildes r = do
    desc ← load r.fs.descriptors fildes
    size ← fs_get_filesize host fildes r.fs
    if not (lt_int desc.cursor size) || r.nbyte == 0
        then ok r
        else let offset = rem_int desc.cursor block_size in
          let room = sub_int block_size offset in
          let left = sub_int size desc.cursor in
          if lt_int left room
          then if left == 0
            then ok r
            else read_round fildes offset left desc r >>= read_loop fuel fildes
          else read_round fildes offset room desc r >>= read_loop fuel fildes

  -- The result and what has gone to `buf`; -1 is `none`. `junk` is what `malloc` leaves in the
  -- buffer. Each round reads a byte at least.
  unfoldable pub fs_read : (junk : List ℕ) → ℕ → ℕ → Fs host → Run (Option ℕ × List ℕ × Fs host)
  unfolding read_loop
  fs_read junk fildes nbyte fs =
      if not fs.disk.active
      then ok (none, [], fs)
      else read_loop (suc nbyte) fildes
          (record { fs = fs; bytes = junk; out = []; done = 0; nbyte = nbyte })
        >>= λ r. ok (some r.done, r.out, r.fs)

  -- The variables of `fs_write`: `bytes` is the buffer `data`, `source` what `buf` points to.
  pub record Writing : Type 0 where
    pub fs : Fs host
    pub bytes : List ℕ
    pub source : List ℕ
    pub done : ℕ
    pub nbyte : ℕ

  -- One round of either loop, which are the same from the computation of `offset` on.
  unfoldable pub write_round : ℕ → Writing → Run Writing
  unfolding cap read_bytes copy_to
  write_round fildes w = do
    desc ← load w.fs.descriptors fildes
    let filenum = int_of_char desc.file
    let offset = rem_int desc.cursor block_size
    let n = cap w.nbyte (sub_int block_size offset)
    f ← load w.fs.file_metas filenum
    block ← load f.blocks (div_int desc.cursor block_size)
    let (_, old, disk) = block_read host (int_of_short block) w.bytes w.fs.disk
    piece ← read_bytes (to_size n) w.source
    let bytes = copy_to old offset piece (to_size n)
    let (_, disk1) = block_write host (int_of_short block) bytes disk
    ds ← store w.fs.descriptors fildes (record desc { cursor = add_int desc.cursor n })
    let fs1 = record w.fs { disk = disk1; descriptors = ds }
    size ← fs_get_filesize host fildes fs1
    let last = to_short (add_int (int_of_short f.size_last) n)
    let grown = if lt_int size (add_int desc.cursor n) then last else f.size_last
    metas ← store fs1.file_metas filenum (record f { size_last = grown })
    ok (record {
      fs = record fs1 { file_metas = metas };
      bytes = bytes;
      source = drop (to_size n) w.source;
      done = add_int w.done n;
      nbyte = sub_size w.nbyte (to_size n);
    })

  -- `while (cursor < fs_get_filesize(fildes) && nbyte > 0)`
  unfoldable pub inside_loop : (fuel : ℕ) → ℕ → Writing → Run Writing
  unfolding write_round
  inside_loop zero fildes w = out_of_fuel
  inside_loop (suc fuel) fildes w = do
    desc ← load w.fs.descriptors fildes
    size ← fs_get_filesize host fildes w.fs
    if not (lt_int desc.cursor size) || w.nbyte == 0
        then ok w
        else write_round fildes w >>= inside_loop fuel fildes

  -- One more block for the file; `none` if there is no free one.
  unfoldable pub add_block : ℕ → Fs host → Run (Option (Fs host))
  add_block filenum fs = find_empty_block fs >>= λ found. elim found [
    | none ↦ ok none
    | some b ↦ (do
      f ← load fs.file_metas filenum
      blocks ← store f.blocks (int_of_short f.num_blocks) (to_short (b + disk_blocks / 2))
      usage ← store fs.usage b 1
      metas ← store fs.file_metas filenum (record f {
        blocks = blocks;
        num_blocks = to_short (add_int (int_of_short f.num_blocks) 1);
        size_last = 0;
      })
      ok (some (record fs { usage = usage; file_metas = metas })))
  ]

  -- `while (nbyte > 0)`
  unfoldable pub past_loop : (fuel : ℕ) → ℕ → Writing → Run Writing
  unfolding write_round add_block
  past_loop zero fildes w = out_of_fuel
  past_loop (suc fuel) fildes w = if w.nbyte == 0 then ok w else (do
    desc ← load w.fs.descriptors fildes
    let filenum = int_of_char desc.file
    f ← load w.fs.file_metas filenum
    if f.size_last == block_size || f.num_blocks == 0
        then (add_block filenum w.fs >>= λ grown. elim grown [
          | none ↦ ok w
          | some fs1 ↦ write_round fildes (record w { fs = fs1 }) >>= past_loop fuel fildes
        ])
        else write_round fildes w >>= past_loop fuel fildes)

  -- `junk` is what `malloc` leaves in the buffer of `fs_write`, and `junk1` in that of
  -- `save_file_meta`. Each round writes a byte at least.
  unfoldable pub fs_write :
      (junk junk1 : List ℕ) → ℕ → List ℕ → ℕ → Fs host → Run (Option ℕ × Fs host)
  unfolding inside_loop past_loop
  fs_write junk junk1 fildes source nbyte fs = if not fs.disk.active then ok (none, fs) else (do
    w ←
        inside_loop (suc nbyte) fildes
          (record { fs = fs; bytes = junk; source = source; done = 0; nbyte = nbyte })
    w1 ← past_loop (suc nbyte) fildes w
    desc ← load w1.fs.descriptors fildes
    (_, fs1) ← save_file_meta host junk1 (int_of_char desc.file) w1.fs
    ok (some w1.done, fs1))
