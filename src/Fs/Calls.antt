-- ===== src/Fs/Calls.antt =====
-- Sequences of calls of the file functions.
use team_otw_os_labs.Base.{
  ℕ, ◌+◌, ◌*◌, ◌<◌, ◌≤◌, ◌≡◌, ◌≢◌, refl, sym, ◌∙◌, Bool, List, ok, Option, length, inl, inr,
  int_of_char, load, ap, ok-snd, After-ok,
}
use mathlib.Core.Path.{subst}
use team_otw_os_labs.Disk.{Host}
use team_otw_os_labs.Fs.State.{FileMeta, Descriptor, Fs}
use team_otw_os_labs.Fs.Files.{file_size, fs_create, fs_delete, fs_open, fs_close, fs_lseek}
use team_otw_os_labs.Fs.Transfer.{fs_read, fs_write}
use team_otw_os_labs.Fs.Open.{IsOpen}
use team_otw_os_labs.Fs.Content.{Faithful, block_of}
use team_otw_os_labs.Fs.Sound.{blocks_of, in_second_half, shape_of}
use team_otw_os_labs.Fs.Write.{fs_write_lem}
use team_otw_os_labs.Fs.Past.{fs_write-past}
use team_otw_os_labs.Fs.Invariant.{Appends-IsSound}
use team_otw_os_labs.Fs.Create.{fs_create_lem, new_file}
use team_otw_os_labs.Fs.Delete.{fs_delete_lem, unused}
use team_otw_os_labs.Fs.Stored.{new_file-Fits, unused-Fits, Appends-Fits}
use team_otw_os_labs.Fs.Leaves.{IsUp, Leaves, Same-Leaves, few_slots, Saves-Leaves, set-Leaves}
use team_otw_os_labs.Fs.Keeps.{Same, fs_open-Same, fs_close-Same, fs_lseek-Same, fs_read-Same}

module _ (host : Host) where
  -- A call that returns. `fs_write` is called on a file in use, and the bytes that it writes end
  -- no later than the file or begin at its end. A buffer from `malloc` has the size of a block.
  pub data Call (fs fs1 : Fs host) : Type 0 where
    create :
        (junk name : List ℕ) (done : Bool)
        → 15 ≤ length name
        → length junk ≡ 4096
        → fs_create host junk name fs ≡ ok (done, fs1)
        → Call fs fs1
    delete :
        (junk name : List ℕ) (done : Bool)
        → length junk ≡ 4096
        → fs_delete host junk name fs ≡ ok (done, fs1)
        → Call fs fs1
    open_file :
        (name : List ℕ) (slot : Option ℕ) → fs_open host name fs ≡ ok (slot, fs1) → Call fs fs1
    close : (i : ℕ) (done : Bool) → fs_close host i fs ≡ ok (done, fs1) → Call fs fs1
    seek : (i offset : ℕ) (done : Bool) → fs_lseek host i offset fs ≡ ok (done, fs1) → Call fs fs1
    read :
        (junk : List ℕ) (i nbyte : ℕ) (n : Option ℕ) (out : List ℕ)
        → fs_read host junk i nbyte fs ≡ ok (n, out, fs1)
        → Call fs fs1
    write_inside :
        (junk junk1 source : List ℕ) (i nbyte : ℕ) (n : Option ℕ) (d : Descriptor) (f : FileMeta)
        → IsOpen host fs i d f
        → f.in_use ≢ 0
        → 0 < f.num_blocks
        → d.cursor + nbyte ≤ file_size f
        → nbyte ≤ length source
        → length junk1 ≡ 4096
        → fs_write host junk junk1 i source nbyte fs ≡ ok (n, fs1)
        → Call fs fs1
    write_past :
        (junk junk1 source : List ℕ) (i nbyte : ℕ) (n : Option ℕ) (d : Descriptor) (f : FileMeta)
        → IsOpen host fs i d f
        → f.in_use ≢ 0
        → d.cursor ≡ file_size f
        → d.cursor + nbyte ≤ 4096 * 4096
        → nbyte ≤ length source
        → length junk1 ≡ 4096
        → fs_write host junk junk1 i source nbyte fs ≡ ok (n, fs1)
        → Call fs fs1

  -- Any number of calls.
  pub data Calls (fs : Fs host) : Fs host → Type 0 where
    none_made : Calls fs fs
    then_call : {fs0 fs1 : Fs host} → Calls fs fs0 → Call fs0 fs1 → Calls fs fs1

  module _ (faith : Faithful host) where
    Call-Leaves : (fs fs1 : Fs host) → Call fs fs1 → IsUp host faith fs → Leaves host faith fs fs1
    Call-Leaves fs fs1 (create junk name done long whole e) up =
        elim (fs_create_lem host junk name fs up.0 up.1 long) [
          | inl (none_left, e') ↦ subst (Leaves host faith fs) (ok-snd (sym e' ∙ e)) (up, refl)
          | inr (n, f, here, not_used, before, e', s) ↦
              subst (Leaves host faith fs) (ok-snd (sym e' ∙ e)) (
                set-Leaves host faith junk fs.usage fs n f (new_file name f) up whole here
                  (new_file-Fits name f long (up.2 n f here).0) s)
        ]
    Call-Leaves fs fs1 (delete junk name done whole e) up =
        elim (fs_delete_lem host junk name fs up.0 up.1) [
          | inl (none_left, e') ↦ subst (Leaves host faith fs) (ok-snd (sym e' ∙ e)) (up, refl)
          | inr (n, f, u, here, used, before, e', frees, s) ↦
              subst (Leaves host faith fs) (ok-snd (sym e' ∙ e)) (
                set-Leaves host faith junk u fs n f (unused f) up whole here
                  (unused-Fits f (up.2 n f here).0) s)
        ]
    Call-Leaves fs fs1 (open_file name slot e) up =
        Same-Leaves host faith fs fs1 up
          (After-ok (λ r. Same host faith fs r.1) e (fs_open-Same host faith name fs))
    Call-Leaves fs fs1 (close i done e) up =
        Same-Leaves host faith fs fs1 up
          (After-ok (λ r. Same host faith fs r.1) e (fs_close-Same host faith i fs))
    Call-Leaves fs fs1 (seek i offset done e) up =
        Same-Leaves host faith fs fs1 up
          (After-ok (λ r. Same host faith fs r.1) e (fs_lseek-Same host faith i offset fs))
    Call-Leaves fs fs1 (read junk i nbyte n out e) up =
        Same-Leaves host faith fs fs1 up
          (After-ok (λ r. Same host faith fs r.2) e (fs_read-Same host faith junk i nbyte fs))
    Call-Leaves fs fs1
          (write_inside junk junk1 source i nbyte n d f o used some_block fits given whole e) up =
        let s = up.1 in
        let m = int_of_char d.file in
        let l = s.laid_out m f o.has_file used in
        let (fs2, e', o2, bytes, others, usage_same, metas_same, saves) =
          fs_write_lem host faith f (blocks_of f l) l.apart (shape_of f l some_block)
            (in_second_half f l) junk junk1 i source nbyte fs d (file_size f) refl o
            (few_slots host faith fs m f up o.has_file) fits given in
        subst (Leaves host faith fs) (ok-snd (sym e' ∙ e)) (
          Saves-Leaves host faith junk1 fs fs2 m f f up whole o.has_file o2.has_file
            (λ k ne. ap (λ metas. load metas k) metas_same) (up.2 m f o.has_file).0 saves o2.mounted
            (rw (metas_same, usage_same) s))
    Call-Leaves fs fs1
          (write_past junk junk1 source i nbyte n d f o used at_end limit given whole e) up =
        let s = up.1 in
        let m = int_of_char d.file in
        let (fs2, count, file, e', a) =
          fs_write-past host faith junk junk1 i source nbyte fs d f o
            (few_slots host faith fs m f up o.has_file) (s.laid_out m f o.has_file used)
            (s.marked m f o.has_file used) s.table at_end limit given in
        subst (Leaves host faith fs) (ok-snd (sym e' ∙ e)) (
          Saves-Leaves host faith junk1 fs fs2 m f file up whole o.has_file a.still_open.has_file
            a.metas_same
            (Appends-Fits host faith junk1 i d f source nbyte fs fs2 count file a
              (up.2 m f o.has_file).0)
            a.saves a.still_open.mounted
            (Appends-IsSound host faith junk1 i d f source nbyte fs fs2 count file s o.has_file used
              a))

    -- On a disk that keeps its blocks, a mounted, sound file system with the metadata of every
    -- slot on the disk is so again after any sequence of calls that return, of fs_create with a
    -- name of 15 bytes or more, fs_delete, fs_open, fs_close, fs_lseek, fs_read with any
    -- arguments, and of fs_write with enough source bytes on a file in use, inside the file or
    -- from its end up to 4096 blocks; each buffer in which metadata are saved has 4096 bytes.
    -- Sound is that the blocks of a file in use are different data blocks that are marked in the
    -- table, and that no two files in use share a block. The metadata are the ones in memory,
    -- which fit into chars and shorts from 0 on; for a slot that is not in use only the first of
    -- its three blocks counts.
    pub Calls-IsSound : (fs fs1 : Fs host) → IsUp host faith fs → Calls fs fs1 → IsUp host faith fs1
    Calls-IsSound fs fs1 up none_made = up
    Calls-IsSound fs fs1 up (then_call {fs0} before call) =
        (Call-Leaves fs0 fs1 call (Calls-IsSound fs fs0 up before)).0

    -- The block for the table of the blocks in use is never written.
    pub first_kept :
        (fs fs1 : Fs host)
        → IsUp host faith fs
        → Calls fs fs1
        → block_of host faith fs1.disk 0 ≡ block_of host faith fs.disk 0
    first_kept fs fs1 up none_made = refl
    first_kept fs fs1 up (then_call {fs0} before call) =
        (Call-Leaves fs0 fs1 call (Calls-IsSound fs fs0 up before)).1 ∙ first_kept fs fs0 up before
