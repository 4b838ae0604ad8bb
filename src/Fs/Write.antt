-- ===== src/Fs/Write.antt =====
-- What `fs_write` inside a file does, and `fs_read` after it.
use team_otw_os_labs.Base.{
  true, ℕ, suc, ◌+◌, ◌/◌, ◌%◌, ◌<◌, ◌≤◌, ◌≡◌, ap, ◌∙◌, refl, List, some, ok, get_or, length, arith,
  int_of_char,
}
use team_otw_os_labs.Disk.{Host}
use team_otw_os_labs.Fs.State.{FileMeta, Descriptor, Fs}
use team_otw_os_labs.Fs.Files.{file_size}
use team_otw_os_labs.Fs.Transfer.{Writing, inside_loop, past_loop, fs_write}
use team_otw_os_labs.Fs.Open.{IsOpen, guard-active}
use team_otw_os_labs.Fs.Cut.{IsSized, size_bound, inside_file, save_runs, saved, saved-active}
use team_otw_os_labs.Fs.Content.{Faithful, block_of, byte_of}
use team_otw_os_labs.Fs.Least.{HasBlocks}
use team_otw_os_labs.Fs.Patch.{patched}
use team_otw_os_labs.Fs.Wrote.{Apart, NotIn}
use team_otw_os_labs.Fs.WriteLoop.{inside_loop_lem}
use team_otw_os_labs.Fs.Saved.{saved-elsewhere, Saves}

-- The file's blocks are in the second half of the disk.
abbrev pub IsData : FileMeta → Type 0
IsData f = (k : ℕ) → k < f.num_blocks → 4096 ≤ get_or f.blocks k 0

pub past_nothing :
    (host : Host) (fuel i : ℕ) (w : Writing host)
    → w.nbyte ≡ 0
    → past_loop host (suc fuel) i w ≡ ok w
unfolding past_loop
past_nothing host fuel i w h = rw h

-- The end of `fs_write` where the loop inside the file has written everything.
pub ended :
    (host : Host) (junk junk1 : List ℕ) (i : ℕ) (source : List ℕ) (nbyte : ℕ) (fs : Fs host)
    (mid end : Writing host) (d1 : Descriptor) (f1 : FileMeta) (count : ℕ)
    → fs.disk.active ≡ true
    → inside_loop host
        (suc nbyte)
        i
        (record { fs = fs; bytes = junk; source = source; done = 0; nbyte = nbyte })
      ≡ ok mid
    → past_loop host (suc nbyte) i mid ≡ ok end
    → end.done ≡ count
    → IsOpen host end.fs i d1 f1
    → fs_write host junk junk1 i source nbyte fs
      ≡ ok (
        some count,
        record end.fs { disk = saved host junk1 (int_of_char d1.file) f1 end.fs.disk },
      )
unfolding fs_write
ended host junk junk1 i source nbyte fs mid end d1 f1 count act loop past all o1 =
    guard-active _ act
    ∙ rw
        (
          loop,
          past,
          o1.found,
          save_runs host junk1 (int_of_char d1.file) end.fs f1 o1.mounted o1.has_file,
        )
        (ap
          (λ k. ok (
            some k,
            record end.fs { disk = saved host junk1 (int_of_char d1.file) f1 end.fs.disk },
          ))
          all)

pub saved-IsOpen :
    (host : Host) (junk1 : List ℕ) (i : ℕ) (fs : Fs host) (d : Descriptor) (f : FileMeta)
    → IsOpen host fs i d f
    → IsOpen host (record fs { disk = saved host junk1 (int_of_char d.file) f fs.disk }) i d f
saved-IsOpen host junk1 i fs d f o = record {
  mounted = saved-active host junk1 (int_of_char d.file) f fs.disk o.mounted;
  found = o.found;
  taken = o.taken;
  has_file = o.has_file;
}

module _ (host : Host) (faith : Faithful host) (f : FileMeta) (blocks : HasBlocks f)
    (apart : Apart f) (sized : IsSized f) (data_blocks : IsData f) where
  pub fs_write_lem :
      (junk junk1 : List ℕ) (i : ℕ) (source : List ℕ) (nbyte : ℕ) (fs : Fs host) (d : Descriptor)
      (size : ℕ)
      → file_size f ≡ size
      → IsOpen host fs i d f
      → int_of_char d.file < 64
      → d.cursor + nbyte ≤ size
      → nbyte ≤ length source
      → (fs1 : Fs host) × (fs_write host junk junk1 i source nbyte fs ≡ ok (some nbyte, fs1))
        × IsOpen host fs1 i (record d { cursor = d.cursor + nbyte }) f
        × ((x : ℕ)
            → x < size
            → byte_of host faith fs1.disk f x
              ≡ patched (byte_of host faith fs.disk f) d.cursor nbyte source x)
        × ((b : ℕ)
            → 4096 ≤ b
            → NotIn f b
            → block_of host faith fs1.disk b ≡ block_of host faith fs.disk b)
        × (fs1.usage ≡ fs.usage)
        × (fs1.file_metas ≡ fs.file_metas)
        × Saves host faith junk1 (int_of_char d.file) f fs.disk fs1.disk
  fs_write_lem junk junk1 i source nbyte fs d size e o few fits given =
      let start : Writing host = record {
        fs = fs;
        bytes = junk;
        source = source;
        done = 0;
        nbyte = nbyte;
      } in
      let loop =
        inside_loop_lem host faith f blocks apart sized (suc nbyte) i d start size e o fits given
          (omega (arith, fits, size_bound f size sized e)) (omega arith) in
      let end = loop.final in
      let o1 = loop.still_open in
      let all : end.done ≡ nbyte = omega (arith, loop.done_is) in
      let meta = int_of_char d.file in
      (
        record end.fs { disk = saved host junk1 meta f end.fs.disk },
        ended host junk junk1 i source nbyte fs end end _ f nbyte o.mounted loop.runs
            (past_nothing host nbyte i end loop.nothing_left) all o1,
        saved-IsOpen host junk1 i end.fs _ f o1,
        λ x below.
            let here = inside_file f x size sized e below in
            ap (λ l. get_or l (x % 4096) 0)
              (saved-elsewhere host faith junk1 meta f end.fs.disk (get_or f.blocks (x / 4096) 0)
                o1.mounted few (data_blocks (x / 4096) here))
            ∙ loop.bytes_are x here,
        λ b data_block other.
            saved-elsewhere host faith junk1 meta f end.fs.disk b o1.mounted few data_block
            ∙ loop.others_same b other,
        loop.usage_same,
        loop.metas_same,
        record {
          last = end.fs.disk;
          on = o1.mounted;
          low_same =
              λ b low. loop.others_same b (λ k h e. let high = data_blocks k h in omega arith);
          is_saved = refl;
        },
      )
