-- ===== src/Fs/Round.antt =====
-- One round of the loop of `fs_read`.
use team_otw_os_labs.Fs.Least.{
  HasBlocks, least, cap-least, to_size-least, short_block, div_small, add_small, sub_size_small,
  least-le, least-step,
}
use team_otw_os_labs.Base.{
  ℕ, suc, ◌+◌, ◌-◌, ◌/◌, ◌%◌, ◌^◌, ◌<◌, ◌≤◌, ◌≡◌, refl, sym, ap, ◌∙◌, ◌++◌, ok, ◌>>=◌, get_or, set,
  arith, IsSmall, append_assoc, append-nil,
}
use team_otw_os_labs.Disk.{Host, Disk}
use team_otw_os_labs.Fs.State.{FileMeta, Descriptor}
use team_otw_os_labs.Fs.Transfer.{Reading, read_round, read_loop}
use team_otw_os_labs.Fs.Open.{IsOpen, store-set}
use team_otw_os_labs.Fs.Content.{
  span, span-eq, span-append, read_bytes-span, Faithful, block_of, after_read, block_read_lem,
  byte_of,
}

module _ (host : Host) (faith : Faithful host) (f : FileMeta) (blocks : HasBlocks f) where
  -- The bytes of one block, as bytes of the file.
  block_span :
      (d : Disk host) (c n : ℕ)
      → c % 4096 + n ≤ 4096
      → span (λ j. get_or (block_of host faith d (get_or f.blocks (c / 4096) 0)) j 0) (c % 4096) n
        ≡ span (byte_of host faith d f) c n
  block_span d c n h = span-eq _ (byte_of host faith d f) (c % 4096) c n (λ j l. same j l)
    where
      same :
          (j : ℕ)
          → j < n
          → get_or (block_of host faith d (get_or f.blocks (c / 4096) 0)) (c % 4096 + j) 0
            ≡ byte_of host faith d f (c + j)
      same j l =
          let q : (c + j) / 4096 ≡ c / 4096 = omega arith in
          let r : (c + j) % 4096 ≡ c % 4096 + j = omega arith in rw (q, r)

  -- The state after a round that reads `n` bytes at the cursor.
  abbrev pub advanced : ℕ → Descriptor → ℕ → Reading host → Reading host
  advanced i d n r = record {
    fs = record r.fs {
      disk = after_read host faith r.fs.disk (get_or f.blocks (d.cursor / 4096) 0);
      descriptors = set r.fs.descriptors i (record d { cursor = d.cursor + n });
    };
    bytes = block_of host faith r.fs.disk (get_or f.blocks (d.cursor / 4096) 0);
    out = r.out ++ span (byte_of host faith r.fs.disk f) d.cursor n;
    done = r.done + n;
    nbyte = r.nbyte - n;
  }

  read_round_lem :
      (i : ℕ) (d : Descriptor) (dist : ℕ) (r : Reading host)
      → IsOpen host r.fs i d f
      → dist ≤ 4096 - d.cursor % 4096
      → d.cursor / 4096 < f.num_blocks
      → IsSmall (d.cursor + dist)
      → IsSmall (r.done + dist)
      → r.nbyte < 2 ^ 64
      → read_round host i (d.cursor % 4096) dist d r ≡ ok (advanced i d (least r.nbyte dist) r)
  unfolding read_round
  read_round_lem i d dist r o room inside small done_small big =
      let b = get_or f.blocks (d.cursor / 4096) 0 in
      let n = least r.nbyte dist in
      let (entry, b_small) = blocks (d.cursor / 4096) inside in
      let (le_m, le_d) = least-le r.nbyte dist in
      rw (
        cap-least r.nbyte dist (omega (arith, small)),
        o.has_file,
        div_small d.cursor (omega (arith, small)),
        entry,
        short_block b b_small,
        block_read_lem host faith b r.bytes r.fs.disk o.mounted b_small,
        to_size-least r.nbyte dist (omega (arith, small)),
        read_bytes-span (block_of host faith r.fs.disk b) (d.cursor % 4096) n
            (omega (arith, faith.whole r.fs.disk.world r.fs.disk.handle b, room, le_d)),
        add_small d.cursor n (omega (arith, small, le_d)),
        store-set r.fs.descriptors i (record d { cursor = d.cursor + n }) d o.found,
        add_small r.done n (omega (arith, done_small, le_d)),
        sub_size_small r.nbyte n big le_m,
        block_span r.fs.disk d.cursor n (omega (arith, room, le_d)),
      )

  -- The end of the loop that started at the cursor of `d`, after `k` bytes.
  pub record HasRead (fuel i : ℕ) (d : Descriptor) (r : Reading host) (k : ℕ) : Type 0 where
    pub final : Reading host
    pub runs : read_loop host fuel i r ≡ ok final
    pub done_is : final.done ≡ r.done + k
    pub out_is : final.out ≡ r.out ++ span (byte_of host faith r.fs.disk f) d.cursor k
    pub still_open : IsOpen host final.fs i (record d { cursor = d.cursor + k }) f
    pub disk_same : (b : ℕ) → block_of host faith final.fs.disk b ≡ block_of host faith r.fs.disk b

  pub stopped :
      (fuel i : ℕ) (d : Descriptor) (r : Reading host) (k : ℕ)
      → k ≡ 0
      → IsOpen host r.fs i d f
      → read_loop host fuel i r ≡ ok r
      → HasRead fuel i d r k
  stopped fuel i d r k zero_k o run = record {
    final = r;
    runs = run;
    done_is = omega arith;
    out_is = rw zero_k (sym (append-nil r.out));
    still_open = rw here o;
    disk_same = λ b. refl;
  }
    where
      here : d.cursor + k ≡ d.cursor
      here = omega arith

  -- A round and then the rest of the loop.
  pub turned :
      (fuel i : ℕ) (d : Descriptor) (r : Reading host) (dist size : ℕ)
      → IsOpen host r.fs i d f
      → dist ≤ 4096 - d.cursor % 4096
      → d.cursor / 4096 < f.num_blocks
      → d.cursor + dist ≤ size
      → IsSmall size
      → IsSmall (r.done + (size - d.cursor))
      → r.nbyte < 2 ^ 64
      → read_loop host (suc fuel) i r
        ≡ (read_round host i (d.cursor % 4096) dist d r >>= read_loop host fuel i)
      → HasRead fuel i
          (record d { cursor = d.cursor + least r.nbyte dist })
          (advanced i d (least r.nbyte dist) r)
          (least (r.nbyte - least r.nbyte dist) (size - (d.cursor + least r.nbyte dist)))
      → HasRead (suc fuel) i d r (least r.nbyte (size - d.cursor))
  turned fuel i d r dist size o room inside fits size-IsSmall done_small big step ih =
      let n = least r.nbyte dist in
      let rest = least (r.nbyte - n) (size - (d.cursor + n)) in
      let round =
        read_round_lem i d dist r o room inside (omega (arith, fits, size-IsSmall))
          (omega (arith, fits, done_small)) big in
      let le_d = (least-le r.nbyte dist).1 in
      record {
        final = ih.final;
        runs = step ∙ rw round ih.runs;
        done_is = omega (arith, ih.done_is, whole);
        out_is =
            ih.out_is
            ∙ (append_assoc r.out (span (byte_of host faith r.fs.disk f) d.cursor n) _
                ∙ ap (λ l. r.out ++ l)
                    (ap (λ l. span (byte_of host faith r.fs.disk f) d.cursor n ++ l) later
                      ∙ (span-append (byte_of host faith r.fs.disk f) d.cursor n rest
                          ∙ ap (span (byte_of host faith r.fs.disk f) d.cursor) whole)));
        still_open = rw (← moved) ih.still_open;
        disk_same = λ b. ih.disk_same b ∙ kept b;
      }
    where
      sub_twice : (n : ℕ) → size - (d.cursor + n) ≡ size - d.cursor - n
      sub_twice n = omega arith

      whole :
          least r.nbyte dist
            + least (r.nbyte - least r.nbyte dist) (size - (d.cursor + least r.nbyte dist))
          ≡ least r.nbyte (size - d.cursor)
      whole =
          rw (sub_twice (least r.nbyte dist))
            (least-step r.nbyte dist (size - d.cursor) (omega (arith, fits)))

      moved :
          d.cursor
            + least r.nbyte dist
            + least (r.nbyte - least r.nbyte dist) (size - (d.cursor + least r.nbyte dist))
          ≡ d.cursor + least r.nbyte (size - d.cursor)
      moved = omega (arith, whole)

      kept :
          (b : ℕ)
          → block_of host faith
              (after_read host faith r.fs.disk (get_or f.blocks (d.cursor / 4096) 0))
              b
            ≡ block_of host faith r.fs.disk b
      kept b =
          faith.reads_keep r.fs.disk.world r.fs.disk.handle (get_or f.blocks (d.cursor / 4096) 0) b

      later :
          span
            (byte_of host faith
              (after_read host faith r.fs.disk (get_or f.blocks (d.cursor / 4096) 0))
              f)
            (d.cursor + least r.nbyte dist)
            (least (r.nbyte - least r.nbyte dist) (size - (d.cursor + least r.nbyte dist)))
          ≡ span
              (byte_of host faith r.fs.disk f)
              (d.cursor + least r.nbyte dist)
              (least (r.nbyte - least r.nbyte dist) (size - (d.cursor + least r.nbyte dist)))
      later = span-eq _ _ _ _ _ (λ j l.
          ap (λ xs. get_or xs ((d.cursor + least r.nbyte dist + j) % 4096) 0)
            (kept (get_or f.blocks ((d.cursor + least r.nbyte dist + j) / 4096) 0)))
