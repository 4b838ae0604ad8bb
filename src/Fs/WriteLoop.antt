-- ===== src/Fs/WriteLoop.antt =====
-- The loop of `fs_write` inside the file.
use team_otw_os_labs.Base.{
  ℕ, zero, suc, ◌+◌, ◌-◌, ◌/◌, ◌%◌, ◌<◌, ◌≤◌, ◌≡◌, refl, sym, ap, ◌∙◌, Bool, true, false, not, ◌==◌,
  ◌||◌, ◌&&◌, ok, ◌>>=◌, get_or, length, drop, arith, if◌then◌else◌, ltb, leb, IsSmall, Bool-cases,
  inl, inr, load, set, set-load, int_of_char, lt_int_small,
}
use mathlib.Core.Path.{subst}
use team_otw_os_labs.Disk.{Host}
use team_otw_os_labs.Fs.State.{FileMeta, Descriptor}
use team_otw_os_labs.Fs.Files.{file_size}
use team_otw_os_labs.Fs.Transfer.{Writing, write_round, inside_loop}
use team_otw_os_labs.Fs.Open.{IsOpen, filesize_open}
use team_otw_os_labs.Fs.Cut.{IsSized, size_bound, size-IsSmall, inside_file}
use team_otw_os_labs.Fs.Content.{Faithful, block_of, byte_of}
use team_otw_os_labs.Fs.Least.{HasBlocks, least, least-le, least-positive}
use team_otw_os_labs.Fs.Patch.{patched, drop-length}
use team_otw_os_labs.Fs.WriteRound.{grown, wrote, wrote-IsOpen, write_round_lem}
use team_otw_os_labs.Fs.Wrote.{
  Apart, patched-patched, patched-nothing, wrote_bytes, wrote_elsewhere, NotIn,
}

-- The loop with nothing left to write.
pub inside_nothing :
    (host : Host) (fuel i : ℕ) (w : Writing host) (d : Descriptor) (f : FileMeta)
    → 0 < fuel
    → IsOpen host w.fs i d f
    → w.nbyte ≡ 0
    → inside_loop host fuel i w ≡ ok w
unfolding inside_loop
inside_nothing host zero i w d f some_fuel o none_left = absurd (omega arith)
inside_nothing host (suc fuel) i w d f some_fuel o none_left =
    rw (o.found, filesize_open host w.fs i d f o, none_left) (both (not _) _)
  where
    both : {A : Type 0} (b : Bool) {x : A} (y : A) → (if b || true then x else y) ≡ x
    both true y = refl
    both false y = refl

module _ (host : Host) (faith : Faithful host) (f : FileMeta) (blocks : HasBlocks f)
    (apart : Apart f) (sized : IsSized f) where
  -- The end of the loop that started with `w` at the cursor of `d`.
  pub record HasWritten (fuel i : ℕ) (d : Descriptor) (w : Writing host) : Type 0 where
    pub final : Writing host
    pub runs : inside_loop host fuel i w ≡ ok final
    pub done_is : final.done ≡ w.done + w.nbyte
    pub nothing_left : final.nbyte ≡ 0
    pub still_open : IsOpen host final.fs i (record d { cursor = d.cursor + w.nbyte }) f
    pub usage_same : final.fs.usage ≡ w.fs.usage
    pub metas_same : final.fs.file_metas ≡ w.fs.file_metas
    pub bytes_are :
        (x : ℕ)
        → x / 4096 < f.num_blocks
        → byte_of host faith final.fs.disk f x
          ≡ patched (byte_of host faith w.fs.disk f) d.cursor w.nbyte w.source x
    pub others_same :
        (b : ℕ) → NotIn f b → block_of host faith final.fs.disk b ≡ block_of host faith w.fs.disk b

  grown_inside :
      (c n size : ℕ) → file_size f ≡ size → c + n ≤ size → grown host faith f blocks c n ≡ f
  grown_inside c n size e h =
      let same : ltb (file_size f) (c + n) ≡ false = ground arith in rw same refl

  -- A round and then the rest of the loop.
  went_on :
      (fuel i : ℕ) (d : Descriptor) (w : Writing host) (n : ℕ)
      → n ≤ w.nbyte
      → n ≤ length w.source
      → d.cursor % 4096 + n ≤ 4096
      → d.cursor / 4096 < f.num_blocks
      → grown host faith f blocks d.cursor n ≡ f
      → load w.fs.file_metas (int_of_char d.file) ≡ ok f
      → inside_loop host (suc fuel) i w ≡ (write_round host i w >>= inside_loop host fuel i)
      → write_round host i w ≡ ok (wrote host faith f blocks i d n w)
      → HasWritten fuel i (record d { cursor = d.cursor + n }) (wrote host faith f blocks i d n w)
      → HasWritten (suc fuel) i d w
  went_on fuel i d w n le given room inside same here step round ih = record {
    usage_same = ih.usage_same;
    metas_same =
        ih.metas_same
        ∙ (ap (set w.fs.file_metas (int_of_char d.file)) same
            ∙ set-load w.fs.file_metas (int_of_char d.file) f here);
    final = ih.final;
    runs = step ∙ rw round ih.runs;
    done_is = omega (arith, ih.done_is);
    nothing_left = ih.nothing_left;
    still_open = rw (← moved) ih.still_open;
    bytes_are = λ x here.
        ih.bytes_are x here
        ∙ (ap
              (λ y.
                if leb (d.cursor + n) x && ltb x (d.cursor + n + (w.nbyte - n))
                then get_or (drop n w.source) (x - (d.cursor + n)) 0
                else y)
              (wrote_bytes host faith f blocks apart i d n w x room given inside here)
            ∙ (patched-patched (byte_of host faith w.fs.disk f) d.cursor n (w.nbyte - n) w.source x
                ∙ ap (λ k. patched (byte_of host faith w.fs.disk f) d.cursor k w.source x) whole));
    others_same = λ b other.
        ih.others_same b other
        ∙ wrote_elsewhere host faith f blocks apart i d n w b (other _ inside);
  }
    where
      whole : n + (w.nbyte - n) ≡ w.nbyte
      whole = omega arith

      moved : d.cursor + n + (w.nbyte - n) ≡ d.cursor + w.nbyte
      moved = omega arith

  stays :
      (fuel i : ℕ) (d : Descriptor) (w : Writing host)
      → IsOpen host w.fs i d f
      → w.nbyte ≡ 0
      → HasWritten (suc fuel) i d w
  stays fuel i d w o none_left = record {
    usage_same = refl;
    metas_same = refl;
    final = w;
    runs = inside_nothing host (suc fuel) i w d f (omega arith) o none_left;
    done_is = omega arith;
    nothing_left = none_left;
    still_open = rw (← here) o;
    bytes_are = λ x inside.
        sym (rw none_left (patched-nothing (byte_of host faith w.fs.disk f) d.cursor w.source x));
    others_same = λ b other. refl;
  }
    where
      here : d.cursor ≡ d.cursor + w.nbyte
      here = omega arith

  pub goes_on :
      (fuel i : ℕ) (d : Descriptor) (w : Writing host) (size : ℕ)
      → file_size f ≡ size
      → IsOpen host w.fs i d f
      → d.cursor < size
      → (w.nbyte == 0) ≡ false
      → inside_loop host (suc fuel) i w ≡ (write_round host i w >>= inside_loop host fuel i)
  unfolding inside_loop
  goes_on fuel i d w size e o below some_left =
      let small = size-IsSmall f size sized e in
      let test : ltb d.cursor size ≡ true = ground arith in
      rw
        (
          o.found,
          filesize_open host w.fs i d f o,
          e,
          lt_int_small d.cursor size (omega (arith, small)) small,
          test,
          some_left,
        )
        refl

  pub inside_loop_lem :
      (fuel i : ℕ) (d : Descriptor) (w : Writing host) (size : ℕ)
      → file_size f ≡ size
      → IsOpen host w.fs i d f
      → d.cursor + w.nbyte ≤ size
      → w.nbyte ≤ length w.source
      → IsSmall (w.done + w.nbyte + 4096)
      → w.nbyte < fuel
      → HasWritten fuel i d w
  inside_loop_lem zero i d w size e o fits given small enough = absurd (omega arith)
  inside_loop_lem (suc fuel) i d w size e o fits given small enough =
      elim (Bool-cases (w.nbyte == 0)) [
        | inl h ↦ stays fuel i d w o (ground arith)
        | inr h ↦
            let some_left : 0 < w.nbyte = ground arith in
            let room = 4096 - d.cursor % 4096 in
            let n = least w.nbyte room in
            let (le_m, le_d) = least-le w.nbyte room in
            let positive = least-positive w.nbyte room some_left (omega arith) in
            let size_small = size-IsSmall f size sized e in
            let inside = inside_file f d.cursor size sized e (omega (arith, fits, some_left)) in
            let same = grown_inside d.cursor n size e (omega (arith, fits, le_m)) in
            let open1 = wrote-IsOpen host faith f blocks i d w n o in
            went_on fuel i d w n le_m (omega (arith, le_m, given)) (omega (arith, le_d)) inside same
              o.has_file (goes_on fuel i d w size e o (omega (arith, fits, some_left)) h)
              (write_round_lem host faith f blocks i d w n refl o sized.last_block inside
                (rw e size_small) (omega (arith, fits, size_bound f size sized e))
                (omega (arith, small)) (omega (arith, fits, size_small))
                (omega (arith, le_m, given)))
              (inside_loop_lem fuel i (record d { cursor = d.cursor + n })
                (wrote host faith f blocks i d n w) size e
                (subst
                  (λ g.
                    IsOpen host (wrote host faith f blocks i d n w).fs i
                      (record d { cursor = d.cursor + n }) g)
                  same open1)
                (omega (arith, fits, le_m)) (omega (arith, drop-length w.source n, given))
                (omega (arith, le_m, small)) (omega (arith, enough, positive)))
      ]
