-- ===== src/Fs/NewBlock.antt =====
-- The loop of `fs_write` past the end, where the file first takes one more block.
use team_otw_os_labs.Base.{
  ℕ, ◌+◌, ◌-◌, ◌*◌, ◌/◌, ◌%◌, ◌<◌, ◌≤◌, ◌≡◌, ◌≢◌, ◌==◌, sym, ap, ◌∙◌, Run, get_or, set, arith, inl,
  inr, Bool-cases, int_of_char, load-set_ne, get_or-set_ne, length-set,
}
use team_otw_os_labs.Disk.{Host}
use team_otw_os_labs.Fs.State.{FileMeta, Descriptor}
use team_otw_os_labs.Fs.Transfer.{Writing}
use team_otw_os_labs.Fs.Content.{Faithful, block_of, byte_of}
use team_otw_os_labs.Fs.Wrote.{NotIn}
use team_otw_os_labs.Fs.Encode.{set-All}
use team_otw_os_labs.Fs.Sound.{IsLaidOut, Marked, longer, old_entry, new_entry, entry_is}
use team_otw_os_labs.Fs.Expand.{expanded}
use team_otw_os_labs.Fs.Grows.{HasGrown, patched_cong}

module _ (host : Host) (faith : Faithful host) (i : ℕ) (d : Descriptor) (f : FileMeta)
    (w : Writing host) (b : ℕ) (l : IsLaidOut f) (marks : Marked w.fs.usage f) (small : b < 4096)
    (unused : get_or w.fs.usage b 0 ≡ 0) (more : f.num_blocks < 4096) where
  -- What is in use is not the new block.
  used_ne : (j : ℕ) → get_or w.fs.usage j 0 ≢ 0 → j ≢ b
  used_ne j used e = used (ap (λ k. get_or w.fs.usage k 0) e ∙ unused)

  used_after : (j : ℕ) → get_or w.fs.usage j 0 ≢ 0 → get_or (set w.fs.usage b 1) j 0 ≢ 0
  used_after j used e = used (sym (get_or-set_ne w.fs.usage b j 1 0 (used_ne j used)) ∙ e)

  unused_before : (j : ℕ) → get_or (set w.fs.usage b 1) j 0 ≡ 0 → get_or w.fs.usage j 0 ≡ 0
  unused_before j e = elim (Bool-cases (j == b)) [
    | inl q ↦ let q' : j ≡ b = ground arith in ap (λ k. get_or w.fs.usage k 0) q' ∙ unused
    | inr q ↦ let q' : j ≢ b = ground arith in sym (get_or-set_ne w.fs.usage b j 1 0 q') ∙ e
  ]

  still_not :
      (c : ℕ) → 4096 ≤ c → get_or w.fs.usage (c - 4096) 0 ≢ 0 → NotIn f c → NotIn (longer b f) c
  still_not c data_block used other k h e =
      elim (entry_is w.fs.usage f l marks b small unused more k h) [
        | inl (q, e') ↦ used_ne (c - 4096) used (omega (arith, e, e', data_block))
        | inr (lt, e') ↦ other k lt (e ∙ e')
      ]

  pub after_block :
      (rest : Run (Writing host))
      → (d.cursor ≡ f.num_blocks * 4096)
      → HasGrown host faith i d
          (longer b f)
          (record w { fs = expanded host (int_of_char d.file) b f w.fs })
          rest
      → HasGrown host faith i d f w rest
  after_block rest at_end ih = record {
    count = ih.count;
    final = ih.final;
    file = ih.file;
    at_most = ih.at_most;
    same_use = ih.same_use;
    files = ih.files ∙ length-set w.fs.file_metas (int_of_char d.file) _;
    runs = ih.runs;
    done_is = ih.done_is;
    still_open = ih.still_open;
    laid_out = ih.laid_out;
    marked = ih.marked;
    table = ih.table;
    size_is = ih.size_is;
    all_or_full = ih.all_or_full;
    bytes_are = λ x h.
        ih.bytes_are x h
        ∙ patched_cong (byte_of host faith w.fs.disk (longer b f)) (byte_of host faith w.fs.disk f)
            d.cursor ih.count w.source x
            (λ below.
              ap (λ c. get_or (block_of host faith w.fs.disk c) (x % 4096) 0)
                (old_entry w.fs.usage f l marks b small unused more (x / 4096) (omega arith)))
            h;
    others_same = λ c data_block used other.
        ih.others_same c data_block (used_after (c - 4096) used)
          (still_not c data_block used other);
    kept = λ j used. ih.kept j (used_after j used);
    low_same = ih.low_same;
    same_name = ih.same_name;
    short_entries =
        λ h. ih.short_entries (set-All f.blocks f.num_blocks (b + 4096) (omega arith) h);
    longer_list = omega (arith, ih.longer_list);
    same_entries = λ k h.
        ih.same_entries k (omega arith) ∙ old_entry w.fs.usage f l marks b small unused more k h;
    fresh_entries = λ k h h'. elim (Bool-cases (k == f.num_blocks)) [
      | inl q ↦
          let q' : k ≡ f.num_blocks = ground arith in
          let e =
            ih.same_entries k (omega arith)
            ∙ (ap (λ j. get_or (longer b f).blocks j 0) q'
                ∙ new_entry w.fs.usage f l marks b small unused more) in
          let index : get_or ih.file.blocks k 0 - 4096 ≡ b = omega (arith, e) in
          ap (λ j. get_or w.fs.usage j 0) index ∙ unused
      | inr q ↦ unused_before _ (ih.fresh_entries k (ground arith) h')
    ];
    metas_same =
        λ m ne. ih.metas_same m ne ∙ load-set_ne w.fs.file_metas (int_of_char d.file) m _ ne;
    descriptors_same = ih.descriptors_same;
  }
