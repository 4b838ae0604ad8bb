-- ===== src/Fs/Stored.antt =====
-- A disk that has the metadata of every slot, and calls that save those of one slot.
use team_otw_os_labs.Base.{
  ℕ, ◌+◌, ◌*◌, ◌<◌, ◌≤◌, ◌≡◌, ◌≢◌, sym, ap, ◌∙◌, List, ok, length, load, arith, load-lt,
}
use mathlib.Core.Path.{subst}
use team_otw_os_labs.Disk.{Host, Disk}
use team_otw_os_labs.Fs.State.{FileMeta, Descriptor, Fs}
use team_otw_os_labs.Fs.Cut.{saved}
use team_otw_os_labs.Fs.Content.{Faithful, block_of}
use team_otw_os_labs.Fs.Patch.{length-take}
use team_otw_os_labs.Fs.Saved.{Saves, saved-apart}
use team_otw_os_labs.Fs.Persist.{Fits, Keeps}
use team_otw_os_labs.Fs.SavedSlot.{saved-Keeps, saved-others}
use team_otw_os_labs.Fs.Past.{Appends}
use team_otw_os_labs.Fs.Invariant.{each}
use team_otw_os_labs.Fs.Create.{new_file}
use team_otw_os_labs.Fs.Delete.{unused}

pub new_file-Fits :
    (name : List ℕ) (f : FileMeta) → 15 ≤ length name → Fits f → Fits (new_file name f)
new_file-Fits name f long fits = record {
  name_size = length-take name 15 long;
  list_size = fits.list_size;
  count = omega arith;
  last = omega arith;
  entries = fits.entries;
}

pub unused-Fits : (f : FileMeta) → Fits f → Fits (unused f)
unused-Fits f fits = record {
  name_size = fits.name_size;
  list_size = fits.list_size;
  count = fits.count;
  last = fits.last;
  entries = fits.entries;
}

module _ (host : Host) (faith : Faithful host) where
  pub Appends-Fits :
      (junk1 : List ℕ) (i : ℕ) (d : Descriptor) (f : FileMeta) (source : List ℕ) (nbyte : ℕ)
      (fs fs1 : Fs host) (count : ℕ) (file : FileMeta)
      → Appends host faith junk1 i d f source nbyte fs fs1 count file
      → Fits f
      → Fits file
  Appends-Fits junk1 i d f source nbyte fs fs1 count file a fits =
      let l = a.laid_out in
      let few = l.few in
      let last = l.last_block in
      record {
        name_size = ap length a.same_name ∙ fits.name_size;
        list_size = l.room;
        count = omega arith;
        last = omega arith;
        entries = a.short_entries fits.entries;
      }

  -- Every slot fits on the disk and is there.
  abbrev pub IsStored : Disk host → List FileMeta → Type 0
  IsStored d metas = (m : ℕ) (g : FileMeta) → load metas m ≡ ok g → Fits g × Keeps host faith d m g

  low-Keeps :
      (d d1 : Disk host) (n : ℕ) (f : FileMeta)
      → n < 64
      → ((b : ℕ) → b < 4096 → block_of host faith d1 b ≡ block_of host faith d b)
      → Keeps host faith d n f
      → Keeps host faith d1 n f
  low-Keeps d d1 n f few same keeps = record {
    junk = keeps.junk;
    junk_size = keeps.junk_size;
    info_at = same (3 * n + 1) (omega arith) ∙ keeps.info_at;
    second_at = λ u. same (3 * n + 2) (omega arith) ∙ keeps.second_at u;
    third_at = λ u. same (3 * n + 3) (omega arith) ∙ keeps.third_at u;
  }

  pub same-IsStored :
      (d d1 : Disk host) (metas metas1 : List FileMeta)
      → length metas ≡ 64
      → metas1 ≡ metas
      → ((b : ℕ) → block_of host faith d1 b ≡ block_of host faith d b)
      → IsStored d metas
      → IsStored d1 metas1
  same-IsStored d d1 metas metas1 files same blocks stored m g at =
      let before : load metas m ≡ ok g = ap (λ l. load l m) (sym same) ∙ at in
      let (fits, keeps) = stored m g before in
      (
        fits,
        low-Keeps d d1 m g (omega (arith, files, load-lt metas m g before)) (λ b low. blocks b)
            keeps,
      )

  -- One slot is changed and saved.
  pub Saves-IsStored :
      (junk : List ℕ) (d d1 : Disk host) (metas metas1 : List FileMeta) (n : ℕ) (f1 : FileMeta)
      → length junk ≡ 4096
      → length metas ≡ 64
      → n < 64
      → load metas1 n ≡ ok f1
      → ((m : ℕ) → m ≢ n → load metas1 m ≡ load metas m)
      → Fits f1
      → Saves host faith junk n f1 d d1
      → IsStored d metas
      → IsStored d1 metas1
  Saves-IsStored junk d d1 metas metas1 n f1 whole files few there only fits1 saves stored =
      let last = saves.last in
      subst (λ x. IsStored x metas1) (sym saves.is_saved)
        (each metas metas1 n f1 there only
          (λ m g. Fits g × Keeps host faith (saved host junk n f1 last) m g)
          (fits1, saved-Keeps host faith junk whole n few f1 fits1 last saves.on)
          (λ m g ne at.
            let (fits, keeps) = stored m g at in
            let small : m < 64 = omega (arith, files, load-lt metas m g at) in
            (
              fits,
              saved-others host faith junk whole n few f1 fits1 last saves.on m g ne
                  (low-Keeps d last m g small saves.low_same keeps),
            )))

  -- Block 0 is not written.
  pub Saves-first :
      (junk : List ℕ) (d d1 : Disk host) (n : ℕ) (f : FileMeta)
      → n < 64
      → Saves host faith junk n f d d1
      → block_of host faith d1 0 ≡ block_of host faith d 0
  Saves-first junk d d1 n f few saves =
      ap (λ x. block_of host faith x 0) saves.is_saved
      ∙ (saved-apart host faith junk n f saves.last saves.on 0 few (λ e. omega (arith, e))
            (λ e. omega (arith, e)) (λ e. omega (arith, e))
          ∙ saves.low_same 0 (omega arith))
