-- ===== src/Fs/Saved.antt =====
-- What `save_file_meta` leaves on the disk.
use team_otw_os_labs.Base.{ℕ, ◌+◌, ◌*◌, ◌<◌, ◌≤◌, ◌≡◌, ◌≢◌, ap, ◌∙◌, List, length, true, arith}
use team_otw_os_labs.Disk.{Host, Disk, block_write}
use team_otw_os_labs.Fs.State.{FileMeta, info_block}
use team_otw_os_labs.Fs.Cut.{block_write-active, saved, second_block, third_block}
use team_otw_os_labs.Fs.Content.{Faithful, block_of}
use team_otw_os_labs.Fs.Patch.{block_write_lem}

module _ (host : Host) (faith : Faithful host) where
  pub write_elsewhere :
      (a b : ℕ) (buf : List ℕ) (d : Disk host)
      → d.active ≡ true
      → a < 8192
      → b ≢ a
      → block_of host faith (block_write host a buf d).1 b ≡ block_of host faith d b
  write_elsewhere a b buf d act h ne =
      ap (λ d1. block_of host faith d1 b) (block_write_lem host faith a buf d act h)
      ∙ faith.writes_keep d.world d.handle a b buf ne

  pub write_there :
      (a : ℕ) (buf : List ℕ) (d : Disk host)
      → d.active ≡ true
      → a < 8192
      → length buf ≡ 4096
      → block_of host faith (block_write host a buf d).1 a ≡ buf
  write_there a buf d act h whole =
      ap (λ d1. block_of host faith d1 a) (block_write_lem host faith a buf d act h)
      ∙ faith.writes d.world d.handle a buf h whole

  module _ (junk : List ℕ) (n : ℕ) (f : FileMeta) (d : Disk host) (act : d.active ≡ true) where
    abbrev pub one_written : Disk host
    one_written = (block_write host (3 * n + 1) (info_block junk f) d).1

    abbrev pub two_written : Disk host
    two_written = (block_write host (3 * n + 2) (second_block host junk f) one_written).1

    pub one-active : one_written.active ≡ true
    one-active = block_write-active host (3 * n + 1) (info_block junk f) d act

    pub two-active : two_written.active ≡ true
    two-active =
        block_write-active host (3 * n + 2) (second_block host junk f) one_written one-active

    -- Three blocks are written.
    pub saved-apart :
        (b : ℕ)
        → n < 64
        → b ≢ 3 * n + 1
        → b ≢ 3 * n + 2
        → b ≢ 3 * n + 3
        → block_of host faith (saved host junk n f d) b ≡ block_of host faith d b
    saved-apart b small ne1 ne2 ne3 =
        write_elsewhere (3 * n + 3) b (third_block host junk f) two_written two-active (omega arith)
          ne3
        ∙ (write_elsewhere (3 * n + 2) b (second_block host junk f) one_written one-active
              (omega arith) ne2
            ∙ write_elsewhere (3 * n + 1) b (info_block junk f) d act (omega arith) ne1)

  -- The metadata of a file goes to blocks before the data.
  pub saved-elsewhere :
      (junk : List ℕ) (n : ℕ) (f : FileMeta) (d : Disk host) (b : ℕ)
      → d.active ≡ true
      → n < 64
      → 4096 ≤ b
      → block_of host faith (saved host junk n f d) b ≡ block_of host faith d b
  saved-elsewhere junk n f d b act small data_block =
      saved-apart junk n f d act b small (λ e. omega arith) (λ e. omega arith) (λ e. omega arith)

  -- The first half of the disk is as it was, and then the metadata of the file `n` are saved.
  pub record Saves (junk : List ℕ) (n : ℕ) (f : FileMeta) (d d1 : Disk host) : Type 0 where
    pub last : Disk host
    pub on : last.active ≡ true
    pub low_same : (b : ℕ) → b < 4096 → block_of host faith last b ≡ block_of host faith d b
    pub is_saved : d1 ≡ saved host junk n f last
