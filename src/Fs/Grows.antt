-- ===== src/Fs/Grows.antt =====
-- The loop of `fs_write` past the end: what it has done when it ends, and what a round adds.
use team_otw_os_labs.Base.{
  ℕ, ◌+◌, ◌-◌, ◌/◌, ◌<◌, ◌≤◌, ◌≡◌, ◌≢◌, refl, sym, ◌∙◌, List, Run, ok, none, length, get_or, load,
  drop, arith, ltb, leb, ◌&&◌, ◌⊎◌, inl, inr, Bool-cases, int_of_char, load-set_ne, length-set, All,
}
use team_otw_os_labs.Disk.{Host}
use team_otw_os_labs.Fs.State.{FileMeta, Descriptor, find_empty_block}
use team_otw_os_labs.Fs.Files.{file_size}
use team_otw_os_labs.Fs.Encode.{IsShort}
use team_otw_os_labs.Fs.Transfer.{Writing}
use team_otw_os_labs.Fs.Open.{IsOpen}
use team_otw_os_labs.Fs.Content.{Faithful, block_of, byte_of}
use team_otw_os_labs.Fs.Patch.{patched}
use team_otw_os_labs.Fs.Wrote.{NotIn, patched-patched, patched-nothing, wrote_elsewhere}
use team_otw_os_labs.Fs.WriteRound.{wrote}
use team_otw_os_labs.Fs.Sound.{IsLaidOut, Marked, blocks_of}
use team_otw_os_labs.Fs.Rounded.{bigger, piece, piece_fits, place, piece_bytes}

pub patched_cong :
    (g h : ℕ → ℕ) (c n : ℕ) (source : List ℕ) (x : ℕ)
    → (x < c → g x ≡ h x)
    → x < c + n
    → patched g c n source x ≡ patched h c n source x
patched_cong g h c n source x e lt = elim (Bool-cases (leb c x && ltb x (c + n))) [
  | inl t ↦ rw t refl
  | inr t ↦ let below : x < c = ground arith in rw t (e below)
]

module _ (host : Host) (faith : Faithful host) (i : ℕ) where
  -- The loop, which is the call `r` and began with `w` at the end of `f`, has come to an end.
  pub record HasGrown (d : Descriptor) (f : FileMeta) (w : Writing host) (r : Run (Writing host))
      : Type 0 where
    pub count : ℕ
    pub final : Writing host
    pub file : FileMeta
    pub at_most : count ≤ w.nbyte
    pub same_use : file.in_use ≡ f.in_use
    pub files : length final.fs.file_metas ≡ length w.fs.file_metas
    pub runs : r ≡ ok final
    pub done_is : final.done ≡ w.done + count
    pub still_open : IsOpen host final.fs i (record d { cursor = d.cursor + count }) file
    pub laid_out : IsLaidOut file
    pub marked : Marked final.fs.usage file
    pub table : length final.fs.usage ≡ 4096
    pub size_is : file_size file ≡ d.cursor + count
    pub all_or_full : (count ≡ w.nbyte) ⊎ (find_empty_block final.fs ≡ ok none)
    pub bytes_are :
        (x : ℕ)
        → x < d.cursor + count
        → byte_of host faith final.fs.disk file x
          ≡ patched (byte_of host faith w.fs.disk f) d.cursor count w.source x
    pub others_same :
        (b : ℕ)
        → 4096 ≤ b
        → get_or w.fs.usage (b - 4096) 0 ≢ 0
        → NotIn f b
        → block_of host faith final.fs.disk b ≡ block_of host faith w.fs.disk b
    pub kept : (j : ℕ) → get_or w.fs.usage j 0 ≢ 0 → get_or final.fs.usage j 0 ≢ 0
    pub low_same :
        (b : ℕ) → b < 4096 → block_of host faith final.fs.disk b ≡ block_of host faith w.fs.disk b
    pub same_name : file.name ≡ f.name
    pub short_entries : All IsShort f.blocks → All IsShort file.blocks
    pub longer_list : f.num_blocks ≤ file.num_blocks
    pub same_entries : (k : ℕ) → k < f.num_blocks → get_or file.blocks k 0 ≡ get_or f.blocks k 0
    pub fresh_entries :
        (k : ℕ)
        → f.num_blocks ≤ k
        → k < file.num_blocks
        → get_or w.fs.usage (get_or file.blocks k 0 - 4096) 0 ≡ 0
    pub metas_same :
        (m : ℕ) → m ≢ int_of_char d.file → load final.fs.file_metas m ≡ load w.fs.file_metas m
    pub descriptors_same : (j : ℕ) → j ≢ i → load final.fs.descriptors j ≡ load w.fs.descriptors j

  module _ (d : Descriptor) (f : FileMeta) (w : Writing host) (l : IsLaidOut f)
      (o : IsOpen host w.fs i d f) where
    -- The loop that ends at once.
    pub ends :
        (r : Run (Writing host))
        → Marked w.fs.usage f
        → length w.fs.usage ≡ 4096
        → d.cursor ≡ file_size f
        → (0 ≡ w.nbyte) ⊎ (find_empty_block w.fs ≡ ok none)
        → r ≡ ok w
        → HasGrown d f w r
    ends r marks table at_end why run = record {
      count = 0;
      final = w;
      file = f;
      at_most = omega arith;
      same_use = refl;
      files = refl;
      runs = run;
      done_is = omega arith;
      still_open = rw (← here) o;
      laid_out = l;
      marked = marks;
      table = table;
      size_is = omega arith;
      all_or_full = why;
      bytes_are = λ x h. sym (patched-nothing (byte_of host faith w.fs.disk f) d.cursor w.source x);
      others_same = λ b data_block used other. refl;
      kept = λ j used. used;
      low_same = λ b low. refl;
      same_name = refl;
      short_entries = λ h. h;
      longer_list = omega arith;
      same_entries = λ k h. refl;
      fresh_entries = λ k h h'. absurd (omega arith);
      metas_same = λ m ne. refl;
      descriptors_same = λ j ne. refl;
    }
      where
        here : d.cursor ≡ d.cursor + 0
        here = omega arith

    -- A round and then the rest.
    pub after_round :
        (rest : Run (Writing host))
        → 0 < f.num_blocks
        → f.size_last < 4096
        → d.cursor ≡ file_size f
        → 0 < w.nbyte
        → w.nbyte ≤ length w.source
        → HasGrown
            (record d { cursor = d.cursor + piece w.nbyte f })
            (bigger (piece w.nbyte f) f)
            (wrote host faith f (blocks_of f l) i d (piece w.nbyte f) w)
            rest
        → HasGrown d f w rest
    after_round rest some_block has_room at_end some_left given ih = record {
      count = n + ih.count;
      final = ih.final;
      file = ih.file;
      at_most = omega (arith, ih.at_most, fits.1);
      same_use = ih.same_use;
      files = ih.files ∙ length-set w.fs.file_metas (int_of_char d.file) _;
      runs = ih.runs;
      done_is = omega (arith, ih.done_is);
      still_open = rw (← moved) ih.still_open;
      laid_out = ih.laid_out;
      marked = ih.marked;
      table = ih.table;
      size_is = omega (arith, ih.size_is);
      all_or_full = elim ih.all_or_full [ inl e ↦ inl (omega (arith, e, fits.1)) | inr e ↦ inr e ];
      bytes_are = λ x h.
          ih.bytes_are x (omega (arith, h))
          ∙ (patched_cong
                (byte_of host faith (wrote host faith f (blocks_of f l) i d n w).fs.disk f)
                (patched (byte_of host faith w.fs.disk f) d.cursor n w.source) (d.cursor + n)
                ih.count (drop n w.source) x
                (λ below.
                  piece_bytes host faith i d f w l some_block has_room at_end some_left given o x
                    below)
                (omega (arith, h))
              ∙ patched-patched (byte_of host faith w.fs.disk f) d.cursor n ih.count w.source x);
      others_same = λ b data_block used other.
          ih.others_same b data_block used other
          ∙ wrote_elsewhere host faith f (blocks_of f l) l.apart i d n w b
              (other (d.cursor / 4096) inside);
      kept = ih.kept;
      low_same = λ b low.
          ih.low_same b low
          ∙ wrote_elsewhere host faith f (blocks_of f l) l.apart i d n w b
              (λ e. let high = (l.in_data (d.cursor / 4096) inside).0 in omega arith);
      same_name = ih.same_name;
      short_entries = ih.short_entries;
      longer_list = ih.longer_list;
      same_entries = ih.same_entries;
      fresh_entries = ih.fresh_entries;
      metas_same =
          λ m ne. ih.metas_same m ne ∙ load-set_ne w.fs.file_metas (int_of_char d.file) m _ ne;
      descriptors_same = λ j ne. ih.descriptors_same j ne ∙ load-set_ne w.fs.descriptors i j _ ne;
    }
      where
        n : ℕ
        n = piece w.nbyte f

        fits : (0 < n) × (n ≤ w.nbyte) × (f.size_last + n ≤ 4096)
        fits = piece_fits host faith i d f w l some_block has_room at_end some_left given o

        inside : d.cursor / 4096 < f.num_blocks
        inside = (place host faith i d f w l some_block has_room at_end some_left given o).1

        moved : d.cursor + n + ih.count ≡ d.cursor + (n + ih.count)
        moved = omega arith
