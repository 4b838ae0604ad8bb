-- ===== src/Fs/Rounded.antt =====
-- A round of `fs_write` at the end of a file whose last block has room.
use team_otw_os_labs.Base.{
  ℕ, ◌+◌, ◌-◌, ◌/◌, ◌%◌, ◌<◌, ◌≤◌, ◌≡◌, ◌^◌, refl, ap, ◌∙◌, ok, length, arith, IsSmall,
}
use mathlib.Core.Path.{subst}
use team_otw_os_labs.Disk.{Host}
use team_otw_os_labs.Fs.State.{FileMeta, Descriptor}
use team_otw_os_labs.Fs.Files.{file_size}
use team_otw_os_labs.Fs.Transfer.{Writing, write_round}
use team_otw_os_labs.Fs.Open.{IsOpen}
use team_otw_os_labs.Fs.Cut.{size_bound, size-IsSmall}
use team_otw_os_labs.Fs.Content.{Faithful, byte_of}
use team_otw_os_labs.Fs.Least.{least, least-le, least-positive}
use team_otw_os_labs.Fs.Patch.{patched}
use team_otw_os_labs.Fs.Wrote.{wrote_bytes}
use team_otw_os_labs.Fs.WriteRound.{wrote, wrote-IsOpen, write_round_lem}
use team_otw_os_labs.Fs.Grown.{file_size-add, grown_past}
use team_otw_os_labs.Fs.Sound.{IsLaidOut, blocks_of, shape_of, size-add-block}

-- The file with `n` bytes more in its last block.
abbrev pub bigger : ℕ → FileMeta → FileMeta
bigger n f = record f { size_last = f.size_last + n }

-- How many bytes a round writes.
abbrev pub piece : ℕ → FileMeta → ℕ
piece nbyte f = least nbyte (4096 - f.size_last)

pub bigger-IsLaidOut :
    (n : ℕ) (f : FileMeta) → IsLaidOut f → f.size_last + n ≤ 4096 → IsLaidOut (bigger n f)
bigger-IsLaidOut n f l h = record {
  room = l.room;
  few = l.few;
  last_block = h;
  in_data = l.in_data;
  apart = l.apart;
}

module _ (host : Host) (faith : Faithful host) (i : ℕ) (d : Descriptor) (f : FileMeta)
    (w : Writing host) (l : IsLaidOut f) (some_block : 0 < f.num_blocks)
    (has_room : f.size_last < 4096) (at_end : d.cursor ≡ file_size f) (some_left : 0 < w.nbyte)
    (given : w.nbyte ≤ length w.source) (o : IsOpen host w.fs i d f) where
  pub piece_fits :
      (0 < piece w.nbyte f) × (piece w.nbyte f ≤ w.nbyte) × (f.size_last + piece w.nbyte f ≤ 4096)
  piece_fits =
      let (le_m, le_d) = least-le w.nbyte (4096 - f.size_last) in
      (
        least-positive w.nbyte (4096 - f.size_last) some_left (omega arith),
        le_m,
        omega (arith, le_d),
      )

  pub place : (d.cursor % 4096 ≡ f.size_last) × (d.cursor / 4096 < f.num_blocks)
  place = let shape = size-add-block f l some_block in (omega (arith, shape), omega (arith, shape))

  pub piece_size : file_size (bigger (piece w.nbyte f) f) ≡ d.cursor + piece w.nbyte f
  piece_size =
      let (a, b, c) = piece_fits in
      file_size-add f (piece w.nbyte f) (shape_of f l some_block) (omega (arith, c))
      ∙ ap (λ s. s + piece w.nbyte f) (omega arith)

  pub piece_round :
      IsSmall (w.done + 4096)
      → w.nbyte < 2 ^ 64
      → write_round host i w ≡ ok (wrote host faith f (blocks_of f l) i d (piece w.nbyte f) w)
  piece_round done_small big =
      let (a, b, c) = piece_fits in
      let (rest, inside) = place in
      let bound = size_bound f (file_size f) (shape_of f l some_block) refl in
      write_round_lem host faith f (blocks_of f l) i d w (piece w.nbyte f)
        (ap (λ s. least w.nbyte (4096 - s)) (omega (arith, rest))) o l.last_block inside
        (size-IsSmall f (file_size f) (shape_of f l some_block) refl) (omega (arith, bound))
        done_small big (omega (arith, b))

  pub piece-IsOpen :
      IsOpen host
        (wrote host faith f (blocks_of f l) i d (piece w.nbyte f) w).fs
        i
        (record d { cursor = d.cursor + piece w.nbyte f })
        (bigger (piece w.nbyte f) f)
  piece-IsOpen =
      let (a, b, c) = piece_fits in
      subst
        (IsOpen host (wrote host faith f (blocks_of f l) i d (piece w.nbyte f) w).fs i
          (record d { cursor = d.cursor + piece w.nbyte f }))
        (grown_past host faith f (blocks_of f l) d.cursor (piece w.nbyte f) (file_size f) refl
          (omega (arith, a)))
        (wrote-IsOpen host faith f (blocks_of f l) i d w (piece w.nbyte f) o)

  -- Within the file's blocks.
  pub piece_bytes :
      (x : ℕ)
      → x < d.cursor + piece w.nbyte f
      → byte_of host faith (wrote host faith f (blocks_of f l) i d (piece w.nbyte f) w).fs.disk f x
        ≡ patched (byte_of host faith w.fs.disk f) d.cursor (piece w.nbyte f) w.source x
  piece_bytes x h =
      let (a, b, c) = piece_fits in
      let (rest, inside) = place in
      let shape = size-add-block f l some_block in
      wrote_bytes host faith f (blocks_of f l) l.apart i d (piece w.nbyte f) w x
        (omega (arith, rest, c)) (omega (arith, b)) inside (omega (arith, shape, c))
