-- ===== src/Fs/Fresh.antt =====
-- `make_fs` and then `mount_fs`.
use team_otw_os_labs.Base.{
  ℕ, zero, suc, ◌+◌, ◌*◌, ◌<◌, ◌≡◌, refl, sym, ap, ◌∙◌, List, ◌∷◌, map, true, false, some, ok,
  length, load, load-lt, take-all, replicate, arith, All, length-replicate, ok-injective,
}
use mathlib.Core.Path.{subst}
use team_otw_os_labs.Disk.{Host, Disk, make_disk, open_disk, close_disk}
use team_otw_os_labs.Fs.State.{FileMeta, Descriptor, Fs, no_file}
use team_otw_os_labs.Fs.Mount.{make_fs, mount_fs, wipe_loop, unused_meta}
use team_otw_os_labs.Fs.Content.{Faithful, block_of}
use team_otw_os_labs.Fs.Encode.{IsShort}
use team_otw_os_labs.Fs.Persist.{Fits, Keeps, restored}
use team_otw_os_labs.Fs.Remount.{Reopens, mount_reads, opens_again}
use team_otw_os_labs.Fs.Invariant.{empty-IsSound}
use team_otw_os_labs.Fs.Leaves.{IsUp}
use team_otw_os_labs.Fs.Wiped.{
  zeros, zeros_size, info_block-unused, unused_meta-Fits, wipe_loop_lem,
}

of_same :
    {A : Type 0} (P : A → Type 0) (a : A)
    → P a
    → (n m : ℕ) (f : A) → load (replicate n a) m ≡ ok f
    → P f
unfolding load
of_same P a h zero m f e = cc
of_same P a h (suc n) zero f e = subst P (ok-injective e) h
of_same P a h (suc n) (suc m) f e = of_same P a h n m f e

map-replicate :
    (g : FileMeta → FileMeta) (n : ℕ) (f : FileMeta) → map g (replicate n f) ≡ replicate n (g f)
map-replicate g zero f = refl
map-replicate g (suc n) f = ap (λ l. g f ∷ l) (map-replicate g n f)

restored-unused : (junk : List ℕ) → restored junk (unused_meta junk) ≡ unused_meta junk
unfolding unused_meta
restored-unused junk = refl

module _ (host : Host) (faith : Faithful host) where
  -- The disk that `make_fs` wipes, opened as `h`.
  abbrev pub wiped : host.World → ℕ → Disk host
  wiped w h = wipe_loop host 8192 0 (record { world = w; handle = h; active = true })

  made-make_disk :
      (name : host.Name) (d : Disk host) (w : host.World)
      → host.create name zeros 8192 d.world ≡ (true, w)
      → make_disk host (some name) d ≡ (true, record d { world = w })
  unfolding make_disk
  made-make_disk name d w e = rw (ap (λ r. r.0) e, ap (λ r. r.1) e) refl

  opened-open_disk :
      (name : host.Name) (d : Disk host) (w : host.World) (h : ℕ)
      → d.active ≡ false
      → host.open_rw name d.world ≡ (some h, w)
      → open_disk host (some name) d ≡ (true, record { world = w; handle = h; active = true })
  unfolding open_disk
  opened-open_disk name d w h off e = rw (off, ap (λ r. r.0) e, ap (λ r. r.1) e) refl

  closed-close_disk :
      (d : Disk host)
      → d.active ≡ true
      → close_disk host d
        ≡ (true, record { world = host.close d.handle d.world; handle = 0; active = false })
  unfolding close_disk
  closed-close_disk d act = rw act refl

  make_runs :
      (name : host.Name) (d : Disk host) (w w1 : host.World) (h : ℕ)
      → d.active ≡ false
      → host.create name zeros 8192 d.world ≡ (true, w)
      → host.open_rw name w ≡ (some h, w1)
      → make_fs host (some name) d ≡ (
        true,
        record {
          world = host.close (wiped w1 h).handle (wiped w1 h).world;
          handle = 0;
          active = false;
        },
      )
  unfolding make_fs
  make_runs name d w w1 h off made opened =
      rw
        (
          made-make_disk name d w made,
          opened-open_disk name (record d { world = w }) w1 h off opened,
        )
        (closed-close_disk (wiped w1 h)
          (wipe_loop_lem host faith 8192 0 (record { world = w1; handle = h; active = true }) refl
            (omega arith)).0)

  unused_shape :
      (junk : List ℕ)
      → ((unused_meta junk).in_use ≡ 0)
        × ((unused_meta junk).num_blocks ≡ 0)
        × ((unused_meta junk).size_last ≡ 0)
  unfolding unused_meta
  unused_shape junk = (refl, refl, refl)

  -- A slot on a blank disk is one of an unused file.
  blank-Keeps :
      (junk : List ℕ) (d : Disk host) (n : ℕ)
      → n < 64
      → ((b : ℕ) → b < 8192 → block_of host faith d b ≡ zeros)
      → Keeps host faith d n (unused_meta junk)
  blank-Keeps junk d n few blank = record {
    junk = zeros;
    junk_size = zeros_size;
    info_at = blank (3 * n + 1) (omega arith) ∙ sym (info_block-unused junk);
    second_at = λ u. absurd (u (unused_shape junk).0);
    third_at = λ u. absurd (u (unused_shape junk).0);
  }

  -- On a disk that keeps its blocks, let no disk be open, the disk's file be created and opened,
  -- the file open again after it is closed with what it held, and malloc leave 4096 shorts from 0
  -- on in the entries of a file. Then make_fs and mount_fs succeed: the table is 4096 zeros, the
  -- 64 slots are unused, the 32 descriptors are closed, and the file system is mounted and sound
  -- with the metadata of every slot on the disk, which is where Calls-IsSound begins.
  pub mount_fs-make_fs :
      (bytes junk : List ℕ) (name : host.Name) (d : Disk host) (fs : Fs host) (w w1 : host.World)
      (h : ℕ)
      → d.active ≡ false
      → host.create name zeros 8192 d.world ≡ (true, w)
      → host.open_rw name w ≡ (some h, w1)
      → Reopens host faith name (wiped w1 h).world (wiped w1 h).handle
      → length junk ≡ 4096
      → All IsShort junk
      → (d1 : Disk host) × (fs1 : Fs host) × (make_fs host (some name) d ≡ (true, d1))
        × (mount_fs host bytes junk (some name) (record fs { disk = d1 }) ≡ ok (true, fs1))
        × (fs1.usage ≡ zeros)
        × (fs1.file_metas ≡ replicate 64 (unused_meta junk))
        × (fs1.descriptors ≡ replicate 32 (record { file = no_file; cursor = 0 }))
        × IsUp host faith fs1
  mount_fs-make_fs bytes junk name d fs w w1 h off made opened again whole short =
      let clean =
        wipe_loop_lem host faith 8192 0 (record { world = w1; handle = h; active = true }) refl
          (omega arith) in
      let x = unused_meta junk in
      let metas = replicate 64 x in
      let ds : List Descriptor = replicate 32 (record { file = no_file; cursor = 0 }) in
      let fits = unused_meta-Fits junk whole short in
      let d1 : Disk host = record {
        world = host.close (wiped w1 h).handle (wiped w1 h).world;
        handle = 0;
        active = false;
      } in
      let d2 : Disk host = record { world = again.world; handle = again.handle; active = true } in
      let blank : (b : ℕ) → b < 8192 → block_of host faith d2 b ≡ zeros =
        λ b small. again.same b ∙ clean.1 b (omega arith) (omega arith) in
      let stored =
        λ (e : Disk host) (at : (b : ℕ) → b < 8192 → block_of host faith e b ≡ zeros) (n k : ℕ)
            (f : FileMeta) (here : load metas k ≡ ok f) (few : n < 64).
          of_same (λ g. Fits g × Keeps host faith e n g) x (fits, blank-Keeps junk e n few at) 64 k
            f here in
      let count = length-replicate 64 x in
      let (d3, runs, same) =
        mount_reads host faith bytes junk (some name) (record fs { disk = d1 }) d2 metas zeros
          (opens_again host faith name _ again.world again.handle again.opens) refl count
          (λ k f here.
            stored d2 blank (0 + k) k f here (omega (arith, count, load-lt metas k f here)))
          (blank 0 (omega arith)) in
      (
        d1,
        record { disk = d3; usage = zeros; file_metas = metas; descriptors = ds },
        make_runs name d w w1 h off made opened,
        runs
            ∙ (ap
                  (λ u. ok (
                    true,
                    record {
                      disk = d3;
                      usage = u;
                      file_metas = map (restored junk) metas;
                      descriptors = ds;
                    },
                  ))
                  (take-all zeros 4096 (omega (arith, zeros_size)))
                ∙ ap
                    (λ ms. ok (
                      true,
                      record { disk = d3; usage = zeros; file_metas = ms; descriptors = ds },
                    ))
                    (map-replicate (restored junk) 64 x
                      ∙ ap (replicate 64) (restored-unused junk))),
        refl,
        refl,
        refl,
        (
          same.0,
          empty-IsSound metas zeros zeros_size count (λ k f here.
              of_same (λ g. (length g.blocks ≡ 4096) × (g.num_blocks ≡ 0) × (g.size_last ≡ 0)) x
                (fits.list_size, (unused_shape junk).1, (unused_shape junk).2) 64 k f here),
          λ k f here.
              stored d3 (λ b small. same.1 b ∙ blank b small) k k f here
                (omega (arith, count, load-lt metas k f here)),
        ),
      )
