-- ===== src/Fs/WriteRound.antt =====
-- One round of a loop of `fs_write`.
use team_otw_os_labs.Base.{
  ℕ, ◌+◌, ◌-◌, ◌/◌, ◌%◌, ◌^◌, ◌<◌, ◌≤◌, ◌≡◌, refl, List, true, false, ok, get_or, set, length, take,
  drop, arith, if◌then◌else◌, ltb, to_short, int_of_char, int_of_short, add_int, IsSmall,
  lt_int_small,
}
use team_otw_os_labs.Disk.{Host, Disk}
use team_otw_os_labs.Fs.State.{FileMeta, Descriptor, Fs, copy_to}
use team_otw_os_labs.Fs.Files.{file_size, read_bytes}
use team_otw_os_labs.Fs.Transfer.{Writing, write_round}
use team_otw_os_labs.Fs.Open.{IsOpen, store-set, load-set, filesize_open}
use team_otw_os_labs.Fs.Content.{Faithful, block_of, after_read, block_read_lem}
use team_otw_os_labs.Fs.Least.{
  HasBlocks, least, cap-least, to_size-least, short_block, div_small, rem_small, sub_small,
  add_small, sub_size_small, least-le,
}
use team_otw_os_labs.Fs.Patch.{after_write, block_write_lem}

last_small : (s n : ℕ) → s ≤ 4096 → n ≤ 4096 → to_short (add_int (int_of_short s) n) ≡ s + n
unfolding to_short add_int int_of_short
last_small s n h k = ground arith

read_source : (xs : List ℕ) (n : ℕ) → n ≤ length xs → read_bytes n xs ≡ ok (take n xs)
unfolding read_bytes
read_source xs n h = let e : ltb (length xs) n ≡ false = ground arith in rw e

module _ (host : Host) (faith : Faithful host) (f : FileMeta) (blocks : HasBlocks f) where
  -- The file after a write of `n` bytes at `c`.
  abbrev pub grown : ℕ → ℕ → FileMeta
  grown c n = record f {
    size_last = if ltb (file_size f) (c + n) then f.size_last + n else f.size_last;
  }

  -- The block after a write of `n` bytes at the cursor.
  abbrev pub written : Descriptor → ℕ → Writing host → List ℕ
  written d n w =
      copy_to (block_of host faith w.fs.disk (get_or f.blocks (d.cursor / 4096) 0))
        (d.cursor % 4096) (take n w.source) n

  -- The state after a round that writes `n` bytes at the cursor.
  abbrev pub wrote : ℕ → Descriptor → ℕ → Writing host → Writing host
  wrote i d n w = record {
    fs = record w.fs {
      disk =
          let b = get_or f.blocks (d.cursor / 4096) 0 in
          after_write host faith (after_read host faith w.fs.disk b) b (written d n w);
      descriptors = set w.fs.descriptors i (record d { cursor = d.cursor + n });
      file_metas = set w.fs.file_metas (int_of_char d.file) (grown d.cursor n);
    };
    bytes = written d n w;
    source = drop n w.source;
    done = w.done + n;
    nbyte = w.nbyte - n;
  }

  pub wrote-IsOpen :
      (i : ℕ) (d : Descriptor) (w : Writing host) (n : ℕ)
      → IsOpen host w.fs i d f
      → IsOpen host (wrote i d n w).fs i (record d { cursor = d.cursor + n }) (grown d.cursor n)
  wrote-IsOpen i d w n o = record {
    mounted = o.mounted;
    found = load-set w.fs.descriptors i (record d { cursor = d.cursor + n }) d o.found;
    taken = o.taken;
    has_file = load-set w.fs.file_metas (int_of_char d.file) (grown d.cursor n) f o.has_file;
  }

  between :
      (i : ℕ) (d : Descriptor) (fs : Fs host) (disk : Disk host) (n : ℕ)
      → IsOpen host fs i d f
      → disk.active ≡ true
      → IsOpen host
          (record fs {
            disk = disk;
            descriptors = set fs.descriptors i (record d { cursor = d.cursor + n });
          })
          i
          (record d { cursor = d.cursor + n })
          f
  between i d fs disk n o act = record {
    mounted = act;
    found = load-set fs.descriptors i (record d { cursor = d.cursor + n }) d o.found;
    taken = o.taken;
    has_file = o.has_file;
  }

  pub write_round_lem :
      (i : ℕ) (d : Descriptor) (w : Writing host) (n : ℕ)
      → n ≡ least w.nbyte (4096 - d.cursor % 4096)
      → IsOpen host w.fs i d f
      → f.size_last ≤ 4096
      → d.cursor / 4096 < f.num_blocks
      → IsSmall (file_size f)
      → IsSmall (d.cursor + 4096)
      → IsSmall (w.done + 4096)
      → w.nbyte < 2 ^ 64
      → n ≤ length w.source
      → write_round host i w ≡ ok (wrote i d n w)
  unfolding write_round
  write_round_lem i d w n n_is o last inside size_small small done_small big given =
      let b = get_or f.blocks (d.cursor / 4096) 0 in
      let room = 4096 - d.cursor % 4096 in
      let (entry, b_small) = blocks (d.cursor / 4096) inside in
      let (le_m, le_d) = least-le w.nbyte room in
      let disk = after_read host faith w.fs.disk b in
      let disk1 = after_write host faith disk b (written d n w) in
      rw
        (
          o.found,
          rem_small d.cursor (omega (arith, small)),
          sub_small 4096 (d.cursor % 4096) (omega arith) (omega arith),
          cap-least w.nbyte room (omega arith),
          o.has_file,
          div_small d.cursor (omega (arith, small)),
          entry,
          short_block b b_small,
          block_read_lem host faith b w.bytes w.fs.disk o.mounted b_small,
          to_size-least w.nbyte room (omega arith),
          ← n_is,
          read_source w.source n given,
          block_write_lem host faith b (written d n w) disk o.mounted b_small,
          add_small d.cursor n (omega (arith, small, le_d, n_is)),
          store-set w.fs.descriptors i (record d { cursor = d.cursor + n }) d o.found,
          filesize_open host _ i (record d { cursor = d.cursor + n }) f
              (between i d w.fs disk1 n o o.mounted),
          lt_int_small (file_size f) (d.cursor + n) size_small (omega (arith, small, le_d, n_is)),
          last_small f.size_last n last (omega (arith, le_d, n_is)),
          store-set w.fs.file_metas (int_of_char d.file) (grown d.cursor n) f o.has_file,
          add_small w.done n (omega (arith, done_small, le_d, n_is)),
          sub_size_small w.nbyte n big (omega (arith, le_m, n_is)),
        )
        refl
