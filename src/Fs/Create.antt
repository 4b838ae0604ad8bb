-- ===== src/Fs/Create.antt =====
-- What `fs_create` does.
use team_otw_os_labs.Base.{
  ℕ, ◌≤◌, ◌≡◌, ◌⊎◌, ◌∙◌, true, false, List, ok, some, length, load, set, take, arith, inl, inr,
  load-set_ne, length-set, ltb,
}
use team_otw_os_labs.Disk.{Host}
use team_otw_os_labs.Fs.State.{FileMeta, Fs}
use team_otw_os_labs.Fs.Files.{fs_create, unused_loop, read_bytes}
use team_otw_os_labs.Fs.Open.{guard-active, store-set, load-set}
use team_otw_os_labs.Fs.Cut.{saved, save_runs}
use team_otw_os_labs.Fs.Slots.{NoneBefore, is_unused, nothing, first, unused_loop-FirstFile}
use team_otw_os_labs.Fs.Invariant.{IsSound, change-IsSound}

-- The new file, in the place of `f`.
abbrev pub new_file : List ℕ → FileMeta → FileMeta
new_file name f = record f { in_use = 1; name = take 15 name; num_blocks = 0; size_last = 0 }

name_bytes : (name : List ℕ) → 15 ≤ length name → read_bytes 15 name ≡ ok (take 15 name)
unfolding read_bytes
name_bytes name h = let e : ltb (length name) 15 ≡ false = ground arith in rw e

module _ (host : Host) where
  -- The file system with a new file in the slot `n`.
  abbrev pub created : List ℕ → List ℕ → ℕ → FileMeta → Fs host → Fs host
  created junk name n f fs = record fs {
    disk = saved host junk n (new_file name f) fs.disk;
    file_metas = set fs.file_metas n (new_file name f);
  }

  created-IsSound :
      (junk name : List ℕ) (n : ℕ) (f : FileMeta) (fs : Fs host)
      → IsSound fs.file_metas fs.usage
      → load fs.file_metas n ≡ ok f
      → IsSound (created junk name n f fs).file_metas fs.usage
  created-IsSound junk name n f fs s here =
      change-IsSound fs.file_metas (set fs.file_metas n (new_file name f)) fs.usage fs.usage s n
        (new_file name f) (load-set fs.file_metas n (new_file name f) f here)
        (λ m ne. load-set_ne fs.file_metas n m _ ne) (length-set fs.file_metas n _) s.table
        (s.rooms n f here)
        (λ u. record {
          room = s.rooms n f here;
          few = omega arith;
          last_block = omega arith;
          in_data = λ k h. absurd (omega arith);
          apart = λ k l h h' ne. absurd (omega arith);
        })
        (λ u k h. absurd (omega arith)) (λ m g ne at u. s.marked m g at u)
        (λ m g ne at u u' k l h h'. absurd (omega arith))

  pub create_runs :
      (junk name : List ℕ) (fs : Fs host) (n : ℕ) (f : FileMeta)
      → fs.disk.active ≡ true
      → 15 ≤ length name
      → unused_loop 64 0 fs.file_metas ≡ ok (some n)
      → load fs.file_metas n ≡ ok f
      → fs_create host junk name fs ≡ ok (true, created junk name n f fs)
  unfolding fs_create
  create_runs junk name fs n f act long e here =
      guard-active _ act
      ∙ rw (
        e,
        here,
        name_bytes name long,
        store-set fs.file_metas n (new_file name f) f here,
        save_runs host junk n (record fs { file_metas = set fs.file_metas n (new_file name f) })
            (new_file name f) act (load-set fs.file_metas n (new_file name f) f here),
      )

  -- On a mounted, sound file system fs_create with a name of 15 bytes or more fails and changes
  -- nothing where all 64 slots are in use. Otherwise it takes the first slot that is not in use,
  -- for an empty file with the first 15 bytes of the name, saves its metadata, and leaves the file
  -- system sound.
  pub fs_create_lem :
      (junk name : List ℕ) (fs : Fs host)
      → fs.disk.active ≡ true
      → IsSound fs.file_metas fs.usage
      → 15 ≤ length name
      → (NoneBefore is_unused fs.file_metas 64 × (fs_create host junk name fs ≡ ok (false, fs)))
        ⊎ ((n : ℕ) × (f : FileMeta) × (load fs.file_metas n ≡ ok f)
            × (f.in_use ≡ 0)
            × NoneBefore is_unused fs.file_metas n
            × (fs_create host junk name fs ≡ ok (true, created junk name n f fs))
            × IsSound (created junk name n f fs).file_metas (created junk name n f fs).usage)
  unfolding fs_create
  fs_create_lem junk name fs act s long =
      elim (unused_loop-FirstFile 64 0 fs.file_metas (omega (arith, s.files))
        (λ j g h. absurd (omega arith))) [
          | nothing e none_left ↦
              inl (λ j g h. none_left j g (omega (arith, s.files)), guard-active _ act ∙ rw e)
          | first n f e here unused before ↦ inr (
            n,
            f,
            here,
            ground arith,
            before,
            create_runs junk name fs n f act long e here,
            created-IsSound junk name n f fs s here,
          )
        ]
