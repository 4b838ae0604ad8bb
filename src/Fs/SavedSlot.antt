-- ===== src/Fs/SavedSlot.antt =====
-- The slots that are on the disk after `save_file_meta`.
use team_otw_os_labs.Base.{ℕ, ◌+◌, ◌*◌, ◌<◌, ◌≡◌, ◌≢◌, ◌∙◌, List, length, true, arith}
use team_otw_os_labs.Disk.{Host, Disk}
use team_otw_os_labs.Fs.State.{FileMeta, info_block}
use team_otw_os_labs.Fs.Cut.{saved, second_block, third_block}
use team_otw_os_labs.Fs.Content.{Faithful}
use team_otw_os_labs.Fs.Saved.{
  write_elsewhere, write_there, one_written, two_written, one-active, two-active, saved-apart,
}
use team_otw_os_labs.Fs.Encode.{length-list_block}
use team_otw_os_labs.Fs.Info.{info_block-Holds}
use team_otw_os_labs.Fs.Persist.{Fits, Keeps}

module _ (host : Host) (faith : Faithful host) where
  -- The disk after `save_file_meta`.
  module _ (junk : List ℕ) (whole : length junk ≡ 4096) (n : ℕ) (few : n < 64) (f : FileMeta)
      (fits : Fits f) (d : Disk host) (act : d.active ≡ true) where
    info_size : length (info_block junk f) ≡ 4096
    info_size = (info_block-Holds junk f whole fits.name_size).size

    second_size : length (second_block host junk f) ≡ 4096
    second_size = length-list_block 0 _ (info_block junk f) ∙ info_size

    third_size : length (third_block host junk f) ≡ 4096
    third_size = length-list_block 0 _ (second_block host junk f) ∙ second_size

    pub saved-Keeps : Keeps host faith (saved host junk n f d) n f
    saved-Keeps =
        let d1 = one_written host faith junk n f d act in
        let d2 = two_written host faith junk n f d act in
        let on1 = one-active host faith junk n f d act in
        let on2 = two-active host faith junk n f d act in
        record {
          junk = junk;
          junk_size = whole;
          info_at =
              write_elsewhere host faith (3 * n + 3) (3 * n + 1) _ d2 on2 (omega arith)
                (λ e. omega arith)
              ∙ (write_elsewhere host faith (3 * n + 2) (3 * n + 1) _ d1 on1 (omega arith)
                    (λ e. omega arith)
                  ∙ write_there host faith (3 * n + 1) (info_block junk f) d act (omega arith)
                      info_size);
          second_at = λ u.
              write_elsewhere host faith (3 * n + 3) (3 * n + 2) _ d2 on2 (omega arith)
                (λ e. omega arith)
              ∙ write_there host faith (3 * n + 2) (second_block host junk f) d1 on1 (omega arith)
                  second_size;
          third_at = λ u.
              write_there host faith (3 * n + 3) (third_block host junk f) d2 on2 (omega arith)
                third_size;
        }

    pub saved-others :
        (m : ℕ) (g : FileMeta)
        → m ≢ n
        → Keeps host faith d m g
        → Keeps host faith (saved host junk n f d) m g
    saved-others m g ne keeps = record {
      junk = keeps.junk;
      junk_size = keeps.junk_size;
      info_at =
          saved-apart host faith junk n f d act (3 * m + 1) few (λ e. ne (omega arith))
            (λ e. omega arith) (λ e. omega arith)
          ∙ keeps.info_at;
      second_at = λ u.
          saved-apart host faith junk n f d act (3 * m + 2) few (λ e. omega arith)
            (λ e. ne (omega arith)) (λ e. omega arith)
          ∙ keeps.second_at u;
      third_at = λ u.
          saved-apart host faith junk n f d act (3 * m + 3) few (λ e. omega arith)
            (λ e. omega arith) (λ e. ne (omega arith))
          ∙ keeps.third_at u;
    }
