-- ===== src/Fs/Leaves.antt =====
-- What a call leaves: a file system that is mounted, sound and on the disk.
use team_otw_os_labs.Base.{
  ℕ, ◌<◌, ◌≡◌, ◌≢◌, refl, ◌∙◌, true, List, ok, length, arith, load, load-lt, load-set_ne, set,
}
use team_otw_os_labs.Disk.{Host}
use team_otw_os_labs.Fs.State.{FileMeta, Fs}
use team_otw_os_labs.Fs.Open.{load-set}
use team_otw_os_labs.Fs.Cut.{saved, saved-active}
use team_otw_os_labs.Fs.Content.{Faithful, block_of}
use team_otw_os_labs.Fs.Saved.{Saves}
use team_otw_os_labs.Fs.Invariant.{IsSound}
use team_otw_os_labs.Fs.Persist.{Fits}
use team_otw_os_labs.Fs.Stored.{IsStored, same-IsStored, Saves-IsStored, Saves-first}
use team_otw_os_labs.Fs.Keeps.{Same}

module _ (host : Host) (faith : Faithful host) where
  -- Mounted and sound, with the metadata of every slot on the disk.
  abbrev pub IsUp : Fs host → Type 0
  IsUp fs =
      (fs.disk.active ≡ true)
      × IsSound fs.file_metas fs.usage
      × IsStored host faith fs.disk fs.file_metas

  -- The state `fs1` that a call leaves: up, and with block 0 of the disk as it was.
  abbrev pub Leaves : Fs host → Fs host → Type 0
  Leaves fs fs1 = IsUp fs1 × (block_of host faith fs1.disk 0 ≡ block_of host faith fs.disk 0)

  pub Same-Leaves : (fs fs1 : Fs host) → IsUp fs → Same host faith fs fs1 → Leaves fs fs1
  Same-Leaves fs fs1 up same = (
    (
      same.0 ∙ up.0,
      rw (same.1, same.2) up.1,
      same-IsStored host faith fs.disk fs1.disk fs.file_metas fs1.file_metas up.1.files same.1
          same.3 up.2,
    ),
    same.3 0,
  )

  pub few_slots :
      (fs : Fs host) (n : ℕ) (f : FileMeta) → IsUp fs → load fs.file_metas n ≡ ok f → n < 64
  few_slots fs n f up here = omega (arith, up.1.files, load-lt fs.file_metas n f here)

  -- The slot `n` becomes `f1`, which is saved.
  pub Saves-Leaves :
      (junk : List ℕ) (fs fs1 : Fs host) (n : ℕ) (f f1 : FileMeta)
      → IsUp fs
      → length junk ≡ 4096
      → load fs.file_metas n ≡ ok f
      → load fs1.file_metas n ≡ ok f1
      → ((m : ℕ) → m ≢ n → load fs1.file_metas m ≡ load fs.file_metas m)
      → Fits f1
      → Saves host faith junk n f1 fs.disk fs1.disk
      → fs1.disk.active ≡ true
      → IsSound fs1.file_metas fs1.usage
      → Leaves fs fs1
  Saves-Leaves junk fs fs1 n f f1 up whole here there only fits saves on s =
      let few = few_slots fs n f up here in
      (
        (
          on,
          s,
          Saves-IsStored host faith junk fs.disk fs1.disk fs.file_metas fs1.file_metas n f1 whole
              up.1.files few there only fits saves up.2,
        ),
        Saves-first host faith junk fs.disk fs1.disk n f1 few saves,
      )

  abbrev pub with_slot : List ℕ → List ℕ → Fs host → ℕ → FileMeta → Fs host
  with_slot junk usage fs n f1 = record fs {
    disk = saved host junk n f1 fs.disk;
    usage = usage;
    file_metas = set fs.file_metas n f1;
  }

  -- As above, where nothing else is written.
  pub set-Leaves :
      (junk usage : List ℕ) (fs : Fs host) (n : ℕ) (f f1 : FileMeta)
      → IsUp fs
      → length junk ≡ 4096
      → load fs.file_metas n ≡ ok f
      → Fits f1
      → IsSound (set fs.file_metas n f1) usage
      → Leaves fs (with_slot junk usage fs n f1)
  set-Leaves junk usage fs n f f1 up whole here fits s =
      Saves-Leaves junk fs (with_slot junk usage fs n f1) n f f1 up whole here
        (load-set fs.file_metas n f1 f here) (λ m ne. load-set_ne fs.file_metas n m f1 ne) fits
        (record { last = fs.disk; on = up.0; low_same = λ b low. refl; is_saved = refl })
        (saved-active host junk n f1 fs.disk up.0) s
