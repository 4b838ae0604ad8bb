-- ===== src/Fs/Past.antt =====
-- `fs_write` at the end of a file, which takes as many new blocks as it needs.
use team_otw_os_labs.Base.{
  All, ℕ, suc, ◌+◌, ◌-◌, ◌*◌, ◌%◌, ◌/◌, ◌<◌, ◌≤◌, ◌≡◌, ◌≢◌, refl, sym, ap, ◌∙◌, true, List, ok,
  some, none, length, load, get_or, arith, ◌⊎◌, inl, inr, Run, Bool-cases, ◌==◌, int_of_char,
}
use team_otw_os_labs.Disk.{Host}
use team_otw_os_labs.Fs.State.{FileMeta, Descriptor, Fs, empty_loop, find_empty_block}
use team_otw_os_labs.Fs.Files.{file_size}
use team_otw_os_labs.Fs.Transfer.{Writing, fs_write}
use team_otw_os_labs.Fs.Open.{IsOpen}
use team_otw_os_labs.Fs.Cut.{saved}
use team_otw_os_labs.Fs.Content.{Faithful, block_of, byte_of}
use team_otw_os_labs.Fs.Patch.{patched}
use team_otw_os_labs.Fs.Wrote.{NotIn}
use team_otw_os_labs.Fs.Saved.{saved-elsewhere, Saves}
use team_otw_os_labs.Fs.Encode.{IsShort}
use team_otw_os_labs.Fs.Write.{ended, saved-IsOpen}
use team_otw_os_labs.Fs.Append.{inside_not}
use team_otw_os_labs.Fs.Sound.{IsLaidOut, Marked, size-add-block, size_none}
use team_otw_os_labs.Fs.Expand.{is_loop}
use team_otw_os_labs.Fs.Grows.{HasGrown}
use team_otw_os_labs.Fs.PastLoop.{past_loop_lem}

module _ (host : Host) (faith : Faithful host) where
  -- `fs1` is `fs` after a write of `count` bytes of `source` at the end of the file `f`, which is
  -- open at `i` as `d` and becomes `file`.
  pub record Appends (junk1 : List ℕ) (i : ℕ) (d : Descriptor) (f : FileMeta) (source : List ℕ)
      (nbyte : ℕ) (fs fs1 : Fs host) (count : ℕ) (file : FileMeta) : Type 0 where
    pub at_most : count ≤ nbyte
    pub same_use : file.in_use ≡ f.in_use
    pub files : length fs1.file_metas ≡ length fs.file_metas
    pub all_or_full : (count ≡ nbyte) ⊎ (find_empty_block fs1 ≡ ok none)
    pub still_open : IsOpen host fs1 i (record d { cursor = d.cursor + count }) file
    pub size_is : file_size file ≡ d.cursor + count
    pub bytes_are :
        (x : ℕ)
        → x < d.cursor + count
        → byte_of host faith fs1.disk file x
          ≡ patched (byte_of host faith fs.disk f) d.cursor count source x
    pub others_same :
        (b : ℕ)
        → 4096 ≤ b
        → get_or fs.usage (b - 4096) 0 ≢ 0
        → NotIn f b
        → block_of host faith fs1.disk b ≡ block_of host faith fs.disk b
    pub laid_out : IsLaidOut file
    pub marked : Marked fs1.usage file
    pub table : length fs1.usage ≡ 4096
    pub kept : (j : ℕ) → get_or fs.usage j 0 ≢ 0 → get_or fs1.usage j 0 ≢ 0
    pub same_entries : (k : ℕ) → k < f.num_blocks → get_or file.blocks k 0 ≡ get_or f.blocks k 0
    pub fresh_entries :
        (k : ℕ)
        → f.num_blocks ≤ k
        → k < file.num_blocks
        → get_or fs.usage (get_or file.blocks k 0 - 4096) 0 ≡ 0
    pub metas_same : (m : ℕ) → m ≢ int_of_char d.file → load fs1.file_metas m ≡ load fs.file_metas m
    pub saves : Saves host faith junk1 (int_of_char d.file) file fs.disk fs1.disk
    pub same_name : file.name ≡ f.name
    pub short_entries : All IsShort f.blocks → All IsShort file.blocks
    pub descriptors_same : (j : ℕ) → j ≢ i → load fs1.descriptors j ≡ load fs.descriptors j

  -- The table of the blocks in use is all that `find_empty_block` looks at.
  none_free :
      (fs fs1 : Fs host)
      → fs.disk.active ≡ true
      → fs1.disk.active ≡ true
      → fs1.usage ≡ fs.usage
      → find_empty_block fs ≡ ok none
      → find_empty_block fs1 ≡ ok none
  none_free fs fs1 act act1 same e =
      is_loop host fs1 act1 ∙ (ap (empty_loop 4096 0) same ∙ (sym (is_loop host fs act) ∙ e))

  saved-Appends :
      (junk1 : List ℕ) (i : ℕ) (d : Descriptor) (f : FileMeta) (w : Writing host)
      (r : Run (Writing host))
      → int_of_char d.file < 64
      → (g : HasGrown host faith i d f w r)
      → Appends junk1 i d f w.source w.nbyte w.fs
          (record g.final.fs {
            disk = saved host junk1 (int_of_char d.file) g.file g.final.fs.disk;
          })
          g.count
          g.file
  saved-Appends junk1 i d f w r few g =
      let o = g.still_open in
      let l = g.laid_out in
      let meta = int_of_char d.file in
      let disk = g.final.fs.disk in
      let o1 = saved-IsOpen host junk1 i g.final.fs _ g.file o in
      record {
        at_most = g.at_most;
        same_use = g.same_use;
        files = g.files;
        all_or_full = elim g.all_or_full [
          | inl e ↦ inl e
          | inr e ↦ inr (none_free g.final.fs _ o.mounted o1.mounted refl e)
        ];
        still_open = o1;
        size_is = g.size_is;
        bytes_are = λ x h.
            ap (λ bytes. get_or bytes (x % 4096) 0)
              (saved-elsewhere host faith junk1 meta g.file disk (get_or g.file.blocks (x / 4096) 0)
                o.mounted few
                (l.in_data (x / 4096) (in_file g.file l (d.cursor + g.count) x g.size_is h)).0)
            ∙ g.bytes_are x h;
        others_same = λ b data_block used other.
            saved-elsewhere host faith junk1 meta g.file disk b o.mounted few data_block
            ∙ g.others_same b data_block used other;
        laid_out = l;
        marked = g.marked;
        table = g.table;
        kept = g.kept;
        same_entries = g.same_entries;
        fresh_entries = g.fresh_entries;
        metas_same = g.metas_same;
        saves = record { last = disk; on = o.mounted; low_same = g.low_same; is_saved = refl };
        same_name = g.same_name;
        short_entries = g.short_entries;
        descriptors_same = g.descriptors_same;
      }
    where
      in_file :
          (f : FileMeta)
          → IsLaidOut f
          → (size x : ℕ) → file_size f ≡ size
          → x < size
          → x / 4096 < f.num_blocks
      in_file f l size x e h = elim (Bool-cases (f.num_blocks == 0)) [
        | inl q ↦
            let none_yet : f.num_blocks ≡ 0 = ground arith in
            absurd (omega (arith, size_none f none_yet))
        | inr q ↦
            let some_block : 0 < f.num_blocks = ground arith in
            let last = l.last_block in omega (arith, size-add-block f l some_block)
      ]

  pub fs_write-past :
      (junk junk1 : List ℕ) (i : ℕ) (source : List ℕ) (nbyte : ℕ) (fs : Fs host) (d : Descriptor)
      (f : FileMeta)
      → IsOpen host fs i d f
      → int_of_char d.file < 64
      → IsLaidOut f
      → Marked fs.usage f
      → length fs.usage ≡ 4096
      → d.cursor ≡ file_size f
      → d.cursor + nbyte ≤ 4096 * 4096
      → nbyte ≤ length source
      → (fs1 : Fs host) × (count : ℕ) × (file : FileMeta) × (fs_write host junk junk1 i source nbyte
            fs
          ≡ ok (some count, fs1))
        × Appends junk1 i d f source nbyte fs fs1 count file
  fs_write-past junk junk1 i source nbyte fs d f o few l marks table at_end limit given =
      let start : Writing host = record {
        fs = fs;
        bytes = junk;
        source = source;
        done = 0;
        nbyte = nbyte;
      } in
      let g =
        past_loop_lem host faith i (suc nbyte) d f start
          (record {
            opened = o;
            laid_out = l;
            marked = marks;
            table = table;
            at_end = at_end;
            limit = limit;
            given = given;
            done_small = omega (arith, limit);
          })
          (omega arith) in
      (
        record g.final.fs { disk = saved host junk1 (int_of_char d.file) g.file g.final.fs.disk },
        g.count,
        g.file,
        ended host junk junk1 i source nbyte fs start g.final _ g.file g.count o.mounted
            (inside_not host nbyte i start d f (file_size f) refl (omega (arith, limit)) o at_end)
            g.runs (omega (arith, g.done_is)) g.still_open,
        saved-Appends junk1 i d f start _ few g,
      )
