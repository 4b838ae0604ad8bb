-- ===== src/Fs/Remount.antt =====
-- What `mount_fs` reads back.
use mathlib.Core.Path.{subst}
use team_otw_os_labs.Base.{
  ℕ, suc, ◌+◌, ◌*◌, ◌≤◌, ◌≡◌, refl, sym, ap, ◌∙◌, Bool, Option, List, [], ◌∷◌, map, length, take,
  load, ok, ◌>>=◌, true, false, some, arith, replicate,
}
use team_otw_os_labs.Disk.{Host, Disk, open_disk, close_disk}
use team_otw_os_labs.Fs.State.{FileMeta, Fs, no_file}
use team_otw_os_labs.Fs.Mount.{metas_loop, mount_fs, umount_fs, all_closed_loop}
use team_otw_os_labs.Fs.Content.{Faithful, block_of, block_read_lem, after_read}
use team_otw_os_labs.Fs.Persist.{Fits, Keeps, Agree, restored, load_meta_lem}

module _ (host : Host) (faith : Faithful host) where
  -- The slots from `i` on are on the disk.
  abbrev pub KeepsAll : Disk host → ℕ → List FileMeta → Type 0
  KeepsAll d i metas =
      (k : ℕ) (f : FileMeta) → load metas k ≡ ok f → Fits f × Keeps host faith d (i + k) f

  pub Agree-Keeps :
      (d d1 : Disk host) (n : ℕ) (f : FileMeta)
      → Agree host faith d d1
      → Keeps host faith d n f
      → Keeps host faith d1 n f
  Agree-Keeps d d1 n f same keeps = record {
    junk = keeps.junk;
    junk_size = keeps.junk_size;
    info_at = same.1 (3 * n + 1) ∙ keeps.info_at;
    second_at = λ u. same.1 (3 * n + 2) ∙ keeps.second_at u;
    third_at = λ u. same.1 (3 * n + 3) ∙ keeps.third_at u;
  }

  metas_loop_lem :
      (junk : List ℕ) (i : ℕ) (metas : List FileMeta) (bytes : List ℕ) (d : Disk host)
      → d.active ≡ true
      → i + length metas ≤ 64
      → KeepsAll d i metas
      → (d1 : Disk host) × (metas_loop host junk (length metas) i bytes d
          ≡ ok (map (restored junk) metas, d1))
        × Agree host faith d d1
  unfolding metas_loop load
  metas_loop_lem junk i [] bytes d act few keeps = (d, refl, (refl, λ b. refl))
  metas_loop_lem junk i (f ∷ metas) bytes d act few keeps =
      let here : i + 0 ≡ i = omega arith in
      let (fits, kept) = keeps 0 f refl in
      let (out, d1, runs, same) =
        load_meta_lem host faith junk bytes i f d act (omega arith) fits
          (subst (λ j. Keeps host faith d j f) here kept) in
      let (d2, runs1, same1) =
        metas_loop_lem junk (suc i) metas out d1 (same.0 ∙ act) (omega arith) (λ k g at. (
          (keeps (suc k) g at).0,
          Agree-Keeps d d1 (suc i + k) g same
              (subst (λ j. Keeps host faith d j g) (plus_suc i k) (keeps (suc k) g at).1),
        )) in
      (d2, rw (runs, runs1) refl, (same1.0 ∙ same.0, λ b. same1.1 b ∙ same.1 b))
    where
      plus_suc : (x j : ℕ) → x + suc j ≡ suc x + j
      plus_suc x j = omega arith

  pub mount_reads :
      (bytes junk : List ℕ) (name : Option host.Name) (fs0 : Fs host) (d : Disk host)
      (metas : List FileMeta) (table : List ℕ)
      → open_disk host name fs0.disk ≡ (true, d)
      → d.active ≡ true
      → length metas ≡ 64
      → KeepsAll d 0 metas
      → block_of host faith d 0 ≡ table
      → (d1 : Disk host) × (mount_fs host bytes junk name fs0
          ≡ ok (
            true,
            record {
              disk = d1;
              usage = take 4096 table;
              file_metas = map (restored junk) metas;
              descriptors = replicate 32 (record { file = no_file; cursor = 0 });
            },
          ))
        × Agree host faith d d1
  unfolding mount_fs
  mount_reads bytes junk name fs0 d metas table opened act count keeps first =
      let used = block_of host faith d 0 in
      let d0 = after_read host faith d 0 in
      let same : Agree host faith d d0 = (refl, λ b. faith.reads_keep d.world d.handle 0 b) in
      let (d1, runs, same1) = metas_loop_lem junk 0 metas used d0 act (omega arith) (λ k f at.
        let (fits, kept) = keeps k f at in (fits, Agree-Keeps d d0 (0 + k) f same kept)) in
      let all : metas_loop host junk 64 0 used d0 ≡ ok (map (restored junk) metas, d1) =
        subst (λ left. metas_loop host junk left 0 used d0 ≡ ok (map (restored junk) metas, d1))
          count runs in
      (
        d1,
        rw (opened, block_read_lem host faith 0 bytes d act (omega arith), all, first) refl,
        (same1.0, λ b. same1.1 b ∙ same.1 b),
      )

  -- After the file is closed it opens again, with what it held.
  pub record Reopens (name : host.Name) (w : host.World) (h : ℕ) : Type 0 where
    pub handle : ℕ
    pub world : host.World
    pub opens : host.open_rw name (host.close h w) ≡ (some handle, world)
    pub same : (b : ℕ) → faith.contents world handle b ≡ faith.contents w h b

  pub opens_again :
      (name : host.Name) (w w1 : host.World) (h : ℕ)
      → host.open_rw name w ≡ (some h, w1)
      → open_disk host (some name) (record { world = w; handle = 0; active = false })
        ≡ (true, record { world = w1; handle = h; active = true })
  unfolding open_disk
  opens_again name w w1 h e = rw (ap (λ r. r.0) e, ap (λ r. r.1) e) refl

  closed-umount_fs :
      (fs : Fs host)
      → fs.disk.active ≡ true
      → all_closed_loop host 32 0 fs.descriptors ≡ ok true
      → umount_fs host fs
        ≡ ok (
          true,
          record {
            disk = record {
              world = host.close fs.disk.handle fs.disk.world;
              handle = 0;
              active = false;
            };
            usage = [];
            file_metas = [];
            descriptors = [];
          },
        )
  unfolding umount_fs close_disk
  closed-umount_fs fs act closed = rw (closed, act) refl

  two_steps :
      (bytes junk : List ℕ) (name : host.Name) (fs fs1 fs2 : Fs host)
      → umount_fs host fs ≡ ok (true, fs1)
      → mount_fs host bytes junk (some name) fs1 ≡ ok (true, fs2)
      → (umount_fs host fs >>= λ (s : Bool × Fs host). mount_fs host bytes junk (some name) s.1)
        ≡ ok (true, fs2)
  two_steps bytes junk name fs fs1 fs2 a b = rw (a, b) refl

  -- `umount_fs` and `mount_fs` with the metadata of every slot on the disk.
  pub remount :
      (bytes junk : List ℕ) (name : host.Name) (fs : Fs host) (table : List ℕ)
      → fs.disk.active ≡ true
      → length fs.file_metas ≡ 64
      → ((m : ℕ) (g : FileMeta)
          → load fs.file_metas m ≡ ok g
          → Fits g × Keeps host faith fs.disk m g)
      → all_closed_loop host 32 0 fs.descriptors ≡ ok true
      → Reopens name fs.disk.world fs.disk.handle
      → block_of host faith fs.disk 0 ≡ table
      → (d : Disk host) × ((umount_fs host fs >>= λ (s : Bool × Fs host).
            mount_fs host bytes junk (some name) s.1)
          ≡ ok (
            true,
            record {
              disk = d;
              usage = take 4096 table;
              file_metas = map (restored junk) fs.file_metas;
              descriptors = replicate 32 (record { file = no_file; cursor = 0 });
            },
          ))
  remount bytes junk name fs table act count stored closed again first =
      let d : Disk host = record { world = again.world; handle = again.handle; active = true } in
      let same : Agree host faith fs.disk d = (sym act, again.same) in
      let fs1 : Fs host = record {
        disk = record {
          world = host.close fs.disk.handle fs.disk.world;
          handle = 0;
          active = false;
        };
        usage = [];
        file_metas = [];
        descriptors = [];
      } in
      let (d1, runs, agree) =
        mount_reads bytes junk (some name) fs1 d fs.file_metas table
          (opens_again name _ again.world again.handle again.opens) refl count
          (λ m g at.
            let zero_plus : m ≡ 0 + m = omega arith in
            let (fits, keeps) = stored m g at in
            (
              fits,
              subst (λ j. Keeps host faith d j g) zero_plus (Agree-Keeps fs.disk d m g same keeps),
            ))
          (again.same 0 ∙ first) in
      (d1, two_steps bytes junk name fs fs1 _ (closed-umount_fs fs act closed) runs)
