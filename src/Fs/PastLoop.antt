-- ===== src/Fs/PastLoop.antt =====
-- The loop of `fs_write` past the end.
use team_otw_os_labs.Base.{
  ℕ, zero, suc, ◌+◌, ◌*◌, ◌<◌, ◌≤◌, ◌≡◌, ◌==◌, ◌||◌, refl, sym, ◌∙◌, Bool, true, false, ok, ◌>>=◌,
  none, some, length, get_or, arith, inl, inr, Bool-cases, int_of_char, IsSmall, length-set,
}
use mathlib.Core.Path.{subst}
use team_otw_os_labs.Disk.{Host}
use team_otw_os_labs.Fs.State.{FileMeta, Descriptor, Fs}
use team_otw_os_labs.Fs.Files.{file_size}
use team_otw_os_labs.Fs.Transfer.{Writing, write_round, add_block, past_loop}
use team_otw_os_labs.Fs.Open.{IsOpen}
use team_otw_os_labs.Fs.Content.{Faithful}
use team_otw_os_labs.Fs.Patch.{drop-length}
use team_otw_os_labs.Fs.Write.{past_nothing}
use team_otw_os_labs.Fs.WriteRound.{wrote}
use team_otw_os_labs.Fs.Append.{past_round}
use team_otw_os_labs.Fs.Sound.{
  IsLaidOut, Marked, blocks_of, longer, longer-IsLaidOut, longer-Marked, size-add-block, size_none,
}
use team_otw_os_labs.Fs.Expand.{
  full, free, find_empty_block-Search, expanded, expanded-IsOpen, add_block-full, add_block_lem,
}
use team_otw_os_labs.Fs.Rounded.{
  bigger, piece, bigger-IsLaidOut, piece_fits, piece_size, piece_round, piece-IsOpen,
}
use team_otw_os_labs.Fs.Grows.{HasGrown, ends, after_round}
use team_otw_os_labs.Fs.NewBlock.{after_block}

-- The test for a new block.
abbrev pub is_full : FileMeta → Bool
is_full f = f.size_last == 4096 || f.num_blocks == 0

module _ (host : Host) (fuel i : ℕ) (w : Writing host) (d : Descriptor) (f : FileMeta)
    (o : IsOpen host w.fs i d f) (some_left : (w.nbyte == 0) ≡ false) (e : is_full f ≡ true) where
  past_full :
      add_block host (int_of_char d.file) w.fs ≡ ok none → past_loop host (suc fuel) i w ≡ ok w
  unfolding past_loop
  past_full none_free = rw (some_left, o.found, o.has_file, e, none_free) refl

  past_longer :
      (fs1 : Fs host)
      → add_block host (int_of_char d.file) w.fs ≡ ok (some fs1)
      → past_loop host (suc fuel) i w
        ≡ (write_round host i (record w { fs = fs1 }) >>= past_loop host fuel i)
  unfolding past_loop
  past_longer fs1 got = rw (some_left, o.found, o.has_file, e, got) refl

-- What the loop starts from: `w` at the end of the file `f`.
pub record IsAtEnd (host : Host) (i : ℕ) (d : Descriptor) (f : FileMeta) (w : Writing host)
    : Type 0 where
  pub opened : IsOpen host w.fs i d f
  pub laid_out : IsLaidOut f
  pub marked : Marked w.fs.usage f
  pub table : length w.fs.usage ≡ 4096
  pub at_end : d.cursor ≡ file_size f
  pub limit : d.cursor + w.nbyte ≤ 4096 * 4096
  pub given : w.nbyte ≤ length w.source
  pub done_small : IsSmall (w.done + w.nbyte + 4096)

module _ (host : Host) (faith : Faithful host) (i : ℕ) where
  -- One round at a file whose last block has room, and the rest.
  one_round :
      (fuel : ℕ) (d : Descriptor) (f : FileMeta) (w : Writing host) (s : IsAtEnd host i d f w)
      → 0 < f.num_blocks
      → f.size_last < 4096
      → 0 < w.nbyte
      → ((d1 : Descriptor) (f1 : FileMeta) (w1 : Writing host)
          → IsAtEnd host i d1 f1 w1
          → w1.nbyte < w.nbyte
          → HasGrown host faith i d1 f1 w1 (past_loop host fuel i w1))
      → HasGrown host faith i d f w (write_round host i w >>= past_loop host fuel i)
  one_round fuel d f w s some_block has_room some_left again =
      let l = s.laid_out in
      let o = s.opened in
      let n = piece w.nbyte f in
      let (positive, le, fits) =
        piece_fits host faith i d f w l some_block has_room s.at_end some_left s.given o in
      let limit = s.limit in
      let done_small = s.done_small in
      let given = s.given in
      let run =
        piece_round host faith i d f w l some_block has_room s.at_end some_left s.given o
          (omega (arith, done_small)) (omega (arith, limit)) in
      let next : IsAtEnd host i (record d { cursor = d.cursor + n }) (bigger n f)
          (wrote host faith f (blocks_of f l) i d n w) =
        record {
          opened =
              piece-IsOpen host faith i d f w l some_block has_room s.at_end some_left s.given o;
          laid_out = bigger-IsLaidOut n f l fits;
          marked = s.marked;
          table = s.table;
          at_end =
              sym
                (piece_size host faith i d f w l some_block has_room s.at_end some_left s.given o);
          limit = omega (arith, le, limit);
          given = omega (arith, drop-length w.source n, given);
          done_small = omega (arith, le, done_small);
        } in
      rw run (
        after_round host faith i d f w l o _ some_block has_room s.at_end some_left s.given
          (again _ _ _ next (omega (arith, positive, le))))

  full_size : (f : FileMeta) → IsLaidOut f → is_full f ≡ true → file_size f ≡ f.num_blocks * 4096
  full_size f l e = elim (Bool-cases (f.num_blocks == 0)) [
    | inl q ↦ let none_yet : f.num_blocks ≡ 0 = ground arith in omega (arith, size_none f none_yet)
    | inr q ↦
        let some_block : 0 < f.num_blocks = ground arith in
        let last : f.size_last ≡ 4096 = ground arith in omega (arith, size-add-block f l some_block)
  ]

  not_full :
      (f : FileMeta) → IsLaidOut f → is_full f ≡ false → (0 < f.num_blocks) × (f.size_last < 4096)
  not_full f l e = let last = l.last_block in (ground arith, ground arith)

  -- The state with one more block.
  with_block :
      (d : Descriptor) (f : FileMeta) (w : Writing host) (b : ℕ)
      → IsAtEnd host i d f w
      → is_full f ≡ true
      → b < 4096
      → get_or w.fs.usage b 0 ≡ 0
      → f.num_blocks < 4096
      → IsAtEnd host i d
          (longer b f)
          (record w { fs = expanded host (int_of_char d.file) b f w.fs })
  with_block d f w b s e small unused more =
      let l1 = longer-IsLaidOut w.fs.usage f s.laid_out s.marked b small unused more in
      let at_end = s.at_end in
      record {
        opened = expanded-IsOpen host i b d f w.fs s.opened;
        laid_out = l1;
        marked = longer-Marked w.fs.usage f s.laid_out s.marked b small unused more s.table;
        table = length-set w.fs.usage b 1 ∙ s.table;
        at_end =
            omega (
              arith,
              at_end,
              full_size f s.laid_out e,
              size-add-block (longer b f) l1 (omega arith),
            );
        limit = s.limit;
        given = s.given;
        done_small = s.done_small;
      }

  pub past_loop_lem :
      (fuel : ℕ) (d : Descriptor) (f : FileMeta) (w : Writing host)
      → IsAtEnd host i d f w
      → w.nbyte < fuel
      → HasGrown host faith i d f w (past_loop host fuel i w)
  past_loop_lem zero d f w s enough = absurd (omega arith)
  past_loop_lem (suc fuel) d f w s enough =
      let o = s.opened in
      let again =
        λ (d1 : Descriptor) (f1 : FileMeta) (w1 : Writing host) (s1 : IsAtEnd host i d1 f1 w1)
            (less : w1.nbyte < w.nbyte).
          past_loop_lem fuel d1 f1 w1 s1 (omega arith) in
      elim (Bool-cases (w.nbyte == 0)) [
        | inl h ↦
            let nothing : w.nbyte ≡ 0 = ground arith in
            ends host faith i d f w s.laid_out o _ s.marked s.table s.at_end (inl (omega arith))
              (past_nothing host fuel i w nothing)
        | inr h ↦
            let some_left : 0 < w.nbyte = ground arith in
            elim (Bool-cases (is_full f)) [
              | inr e ↦
                  let (some_block, has_room) = not_full f s.laid_out e in
                  subst (HasGrown host faith i d f w)
                    (sym (past_round host fuel i w d f o some_left some_block has_room))
                    (one_round fuel d f w s some_block has_room some_left again)
              | inl e ↦ elim (find_empty_block-Search host w.fs o.mounted s.table) [
                | full none_free ↦
                    ends host faith i d f w s.laid_out o _ s.marked s.table s.at_end (inr none_free)
                      (past_full host fuel i w d f o h e
                        (add_block-full host (int_of_char d.file) w.fs none_free))
                | free b found inside unused ↦
                    let table = s.table in
                    let at_end = s.at_end in
                    let limit = s.limit in
                    let size = full_size f s.laid_out e in
                    let more : f.num_blocks < 4096 = omega (arith, at_end, limit, size) in
                    let small : b < 4096 = omega arith in
                    let got =
                      add_block_lem host (int_of_char d.file) b f w.fs found o.has_file s.laid_out
                        more inside small in
                    subst (HasGrown host faith i d f w)
                      (sym (past_longer host fuel i w d f o h e _ got))
                      (after_block host faith i d f w b s.laid_out s.marked small unused more _
                        (omega (arith, at_end, size))
                        (one_round fuel d (longer b f)
                          (record w { fs = expanded host (int_of_char d.file) b f w.fs })
                          (with_block d f w b s e small unused more) (omega arith) (omega arith)
                          some_left again))
              ]
            ]
      ]
