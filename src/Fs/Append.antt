-- ===== src/Fs/Append.antt =====
-- `fs_write` at the end of a file, in the room that the last block has.
use team_otw_os_labs.Base.{
  ℕ, zero, suc, ◌+◌, ◌-◌, ◌/◌, ◌%◌, ◌<◌, ◌≤◌, ◌≡◌, refl, ap, ◌∙◌, List, false, ◌==◌, some, ok,
  ◌>>=◌, length, get_or, arith, ltb, int_of_char, lt_int_small, IsSmall,
}
use mathlib.Core.Path.{subst}
use team_otw_os_labs.Disk.{Host}
use team_otw_os_labs.Fs.State.{FileMeta, Descriptor, Fs}
use team_otw_os_labs.Fs.Files.{file_size, fs_get_filesize}
use team_otw_os_labs.Fs.Transfer.{Writing, write_round, inside_loop, past_loop, fs_write}
use team_otw_os_labs.Fs.Open.{IsOpen, filesize_open}
use team_otw_os_labs.Fs.Cut.{IsSized, size_bound, size-IsSmall, file_size-small, saved}
use team_otw_os_labs.Fs.Content.{Faithful, byte_of}
use team_otw_os_labs.Fs.Least.{HasBlocks}
use team_otw_os_labs.Fs.Patch.{patched}
use team_otw_os_labs.Fs.Wrote.{Apart, wrote_bytes}
use team_otw_os_labs.Fs.WriteRound.{grown, wrote, wrote-IsOpen, write_round_lem}
use team_otw_os_labs.Fs.Grown.{file_size-add, all_of, grown_past}
use team_otw_os_labs.Fs.Saved.{saved-elsewhere}
use team_otw_os_labs.Fs.Write.{IsData, past_nothing, ended, saved-IsOpen}

pub past_round :
    (host : Host) (fuel i : ℕ) (w : Writing host) (d : Descriptor) (f : FileMeta)
    → IsOpen host w.fs i d f
    → 0 < w.nbyte
    → 0 < f.num_blocks
    → f.size_last < 4096
    → past_loop host (suc fuel) i w ≡ (write_round host i w >>= past_loop host fuel i)
unfolding past_loop
past_round host fuel i w d f o some_left some_block room =
    let more : (w.nbyte == 0) ≡ false = ground arith in
    let has_room : (f.size_last == 4096) ≡ false = ground arith in
    let has_block : (f.num_blocks == 0) ≡ false = ground arith in
    rw (more, o.found, o.has_file, has_room, has_block) refl

past_ends :
    (host : Host) (fuel i : ℕ) (w : Writing host)
    → 0 < fuel
    → w.nbyte ≡ 0
    → past_loop host fuel i w ≡ ok w
past_ends host zero i w h e = absurd (omega arith)
past_ends host (suc fuel) i w h e = past_nothing host fuel i w e

pub inside_not :
    (host : Host) (fuel i : ℕ) (w : Writing host) (d : Descriptor) (f : FileMeta) (size : ℕ)
    → file_size f ≡ size
    → IsSmall size
    → IsOpen host w.fs i d f
    → d.cursor ≡ size
    → inside_loop host (suc fuel) i w ≡ ok w
unfolding inside_loop
inside_not host fuel i w d f size e small o at_end =
    let test : ltb size size ≡ false = ground arith in
    rw
      (
        o.found,
        filesize_open host w.fs i d f o,
        e,
        at_end,
        lt_int_small size size small small,
        test,
      )
      refl

module _ (host : Host) (faith : Faithful host) (f : FileMeta) (blocks : HasBlocks f)
    (apart : Apart f) (sized : IsSized f) (data_blocks : IsData f) where
  -- On an open descriptor of one of the 64 files, with at least one block, whose blocks are different
  -- blocks of the disk's second half, with the cursor at the end of the file, and on a disk that
  -- keeps what is written, a `fs_write` of one byte or more that fits in the last block returns
  -- `nbyte`, within the fuel of its definition; the descriptor stays open with the cursor moved by
  -- `nbyte`, which is the new size, the bytes behind the old end are the first `nbyte` of `buf`, and
  -- those before it are as they were.
  fs_write-append :
      (junk junk1 : List ℕ) (i : ℕ) (source : List ℕ) (nbyte : ℕ) (fs : Fs host) (d : Descriptor)
      (size : ℕ)
      → file_size f ≡ size
      → IsOpen host fs i d f
      → int_of_char d.file < 64
      → d.cursor ≡ size
      → 0 < nbyte
      → f.size_last + nbyte ≤ 4096
      → nbyte ≤ length source
      → (fs1 : Fs host) × (fs_write host junk junk1 i source nbyte fs ≡ ok (some nbyte, fs1))
        × IsOpen host fs1 i
            (record d { cursor = d.cursor + nbyte })
            (record f { size_last = f.size_last + nbyte })
        × (fs_get_filesize host i fs1 ≡ ok (d.cursor + nbyte))
        × ((x : ℕ)
            → x < size + nbyte
            → byte_of host faith fs1.disk f x
              ≡ patched (byte_of host faith fs.disk f) size nbyte source x)
  fs_write-append junk junk1 i source nbyte fs d size e o few at_end some_left room given =
      let start : Writing host = record {
        fs = fs;
        bytes = junk;
        source = source;
        done = 0;
        nbyte = nbyte;
      } in
      let end = wrote host faith f blocks i d nbyte start in
      let f1 = grown host faith f blocks d.cursor nbyte in
      let d1 : Descriptor = record d { cursor = d.cursor + nbyte } in
      let o1 : IsOpen host end.fs i d1 f1 = wrote-IsOpen host faith f blocks i d start nbyte o in
      let none_left : end.nbyte ≡ 0 = omega arith in
      let bound = size_bound f size sized e in
      let shape = file_size-small f sized in
      let some_block = sized.some_block in
      let inside : d.cursor / 4096 < f.num_blocks =
        omega (arith, shape, e, at_end, some_block, room, some_left) in
      let in_block : d.cursor % 4096 + nbyte ≤ 4096 =
        omega (arith, shape, e, at_end, some_block, room, some_left) in
      let meta = int_of_char d.file in
      let fs1 : Fs host = record end.fs { disk = saved host junk1 meta f1 end.fs.disk } in
      let longer = grown_past host faith f blocks d.cursor nbyte size e (omega arith) in
      let round =
        write_round_lem host faith f blocks i d start nbyte
          (all_of nbyte (4096 - d.cursor % 4096) (omega (arith, in_block))) o sized.last_block
          inside (rw e (size-IsSmall f size sized e)) (omega (arith, bound)) (omega arith)
          (omega (arith, in_block)) given in
      let o2 : IsOpen host fs1 i d1 f1 = saved-IsOpen host junk1 i end.fs d1 f1 o1 in
      (
        fs1,
        ended host junk junk1 i source nbyte fs start end d1 f1 nbyte o.mounted
            (inside_not host nbyte i start d f size e (size-IsSmall f size sized e) o at_end)
            (past_round host nbyte i start d f o some_left some_block
                (omega (arith, room, some_left))
              ∙ rw round (past_ends host nbyte i end some_left none_left))
            (omega arith) o1,
        subst (IsOpen host fs1 i d1) longer o2,
        filesize_open host fs1 i d1 f1 o2
            ∙ ap ok (
                ap file_size longer
                ∙ (file_size-add f nbyte sized (omega (arith, room)) ∙ omega (arith, e, at_end))),
        λ x below.
            let here : x / 4096 < f.num_blocks = omega (arith, shape, e, room, below, some_block) in
            ap (λ l. get_or l (x % 4096) 0)
              (saved-elsewhere host faith junk1 meta f1 end.fs.disk (get_or f.blocks (x / 4096) 0)
                o1.mounted few (data_blocks (x / 4096) here))
            ∙ (wrote_bytes host faith f blocks apart i d nbyte start x in_block given inside here
                ∙ ap (λ c. patched (byte_of host faith fs.disk f) c nbyte source x) at_end),
      )
