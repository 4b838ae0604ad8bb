-- ===== src/Fs/Persist.antt =====
-- The metadata that `save_file_meta` writes, as `mount_fs` reads them back.
use team_otw_os_labs.Base.{
  ◌≢◌, ℕ, ◌+◌, ◌*◌, ◌<◌, ◌≡◌, ◌==◌, refl, sym, ap, ◌∙◌, List, ◌++◌, map, length, take, drop, ok,
  true, arith, Bool-cases, inl, inr, All-split, if◌then◌else◌, All, take-all,
}
use mathlib.Core.Path.{subst}
use mathlib.Core.List.{map-append}
use team_otw_os_labs.Disk.{Host, Disk}
use team_otw_os_labs.Fs.State.{FileMeta, info_block}
use team_otw_os_labs.Fs.Mount.{load_meta, parse_list, unused_meta}
use team_otw_os_labs.Fs.Cut.{second_block, third_block}
use team_otw_os_labs.Fs.Bytes.{parse_short-bytes}
use team_otw_os_labs.Fs.Content.{Faithful, block_of, block_read_lem, after_read}
use team_otw_os_labs.Fs.Patch.{length-take, drop-length}
use team_otw_os_labs.Fs.Encode.{
  reread, IsShort, list_block-full, length-list_block, take-append-drop,
}
use team_otw_os_labs.Fs.Info.{info_block-Holds}

-- A slot that fits on the disk: its numbers are `short`s from 0 on, and its name and its list are
-- full arrays.
pub record Fits (f : FileMeta) : Type 0 where
  pub name_size : length f.name ≡ 15
  pub list_size : length f.blocks ≡ 4096
  pub count : IsShort f.num_blocks
  pub last : IsShort f.size_last
  pub entries : All IsShort f.blocks

-- The file as it is read back.
abbrev pub reread_file : FileMeta → FileMeta
reread_file f = record f {
  num_blocks = reread f.num_blocks;
  size_last = reread f.size_last;
  blocks = map reread f.blocks;
}

abbrev pub restored : List ℕ → FileMeta → FileMeta
restored junk f = if f.in_use == 0 then unused_meta junk else reread_file f

module _ (f : FileMeta) (fits : Fits f) where
  abbrev lower : List ℕ
  lower = take 2048 f.blocks

  abbrev upper : List ℕ
  upper = take 2048 (drop 2048 f.blocks)

  two_halves : lower ++ upper ≡ f.blocks
  two_halves =
      ap (λ l. lower ++ l)
        (take-all (drop 2048 f.blocks) 2048
          (omega (arith, drop-length f.blocks 2048, fits.list_size)))
      ∙ take-append-drop 2048 f.blocks

  halves : All IsShort lower × All IsShort upper
  halves = All-split IsShort lower upper (subst (All IsShort) (sym two_halves) fits.entries)

  lower_size : length lower ≡ 2048
  lower_size = length-take f.blocks 2048 (omega (arith, fits.list_size))

  upper_size : length upper ≡ 2048
  upper_size =
      length-take (drop 2048 f.blocks) 2048
        (omega (arith, drop-length f.blocks 2048, fits.list_size))

  module _ (host : Host) (junk : List ℕ) (whole : length junk ≡ 4096) where
    info_size : length (info_block junk f) ≡ 4096
    info_size = (info_block-Holds junk f whole fits.name_size).size

    second_size : length (second_block host junk f) ≡ 4096
    second_size = length-list_block 0 lower (info_block junk f) ∙ info_size

    lists_back :
        parse_list (second_block host junk f) ++ parse_list (third_block host junk f)
        ≡ map reread f.blocks
    lists_back =
        rw
          (
            list_block-full lower (info_block junk f) halves.0 lower_size info_size,
            list_block-full upper (second_block host junk f) halves.1 upper_size second_size,
          )
          (sym (map-append reread lower upper) ∙ ap (map reread) two_halves)

module _ (host : Host) (faith : Faithful host) where
  -- The three blocks of the slot `n` are those of the file, of which only the first counts where
  -- the slot is not in use.
  pub record Keeps (d : Disk host) (n : ℕ) (f : FileMeta) : Type 0 where
    pub junk : List ℕ
    pub junk_size : length junk ≡ 4096
    pub info_at : block_of host faith d (3 * n + 1) ≡ info_block junk f
    pub second_at : f.in_use ≢ 0 → block_of host faith d (3 * n + 2) ≡ second_block host junk f
    pub third_at : f.in_use ≢ 0 → block_of host faith d (3 * n + 3) ≡ third_block host junk f

  -- Two disks with the same blocks.
  abbrev pub Agree : Disk host → Disk host → Type 0
  Agree d d1 =
      (d1.active ≡ d.active) × ((b : ℕ) → block_of host faith d1 b ≡ block_of host faith d b)

  pub load_meta_lem :
      (junk bytes : List ℕ) (n : ℕ) (f : FileMeta) (d : Disk host)
      → d.active ≡ true
      → n < 64
      → Fits f
      → Keeps d n f
      → (out : List ℕ) × (d1 : Disk host) × (load_meta host junk n bytes d
          ≡ ok (restored junk f, out, d1))
        × Agree d d1
  unfolding load_meta
  load_meta_lem junk bytes n f d act few fits keeps =
      let k = keeps.junk in
      let at = info_block-Holds k f keeps.junk_size fits.name_size in
      let d1 = after_read host faith d (3 * n + 1) in
      let d2 = after_read host faith d1 (3 * n + 2) in
      elim (Bool-cases (f.in_use == 0)) [
        | inl e ↦ (
          info_block k f,
          d1,
          rw
              (
                block_read_lem host faith (3 * n + 1) bytes d act (omega arith),
                keeps.info_at,
                at.use_at,
                e,
              )
              refl,
          (refl, λ b. faith.reads_keep d.world d.handle (3 * n + 1) b),
        )
        | inr e ↦
            let used : f.in_use ≢ 0 = ground arith in
            (
              third_block host k f,
              after_read host faith d2 (3 * n + 3),
              rw
                  (
                    block_read_lem host faith (3 * n + 1) bytes d act (omega arith),
                    keeps.info_at,
                    at.use_at,
                    e,
                    at.num_high,
                    at.num_low,
                    at.last_high,
                    at.last_low,
                    block_read_lem host faith (3 * n + 2) (info_block k f) d1 act (omega arith),
                    second_now used,
                    block_read_lem host faith (3 * n + 3) (second_block host k f) d2 act
                        (omega arith),
                    third_now used,
                    parse_short-bytes f.num_blocks fits.count,
                    parse_short-bytes f.size_last fits.last,
                    lists_back f fits host k keeps.junk_size,
                    at.name_at,
                  )
                  refl,
              (
                refl,
                λ b.
                    faith.reads_keep _ d.handle (3 * n + 3) b
                    ∙ (faith.reads_keep _ d.handle (3 * n + 2) b
                        ∙ faith.reads_keep d.world d.handle (3 * n + 1) b),
              ),
            )
      ]
    where
      second_now :
          f.in_use ≢ 0
          → block_of host faith (after_read host faith d (3 * n + 1)) (3 * n + 2)
            ≡ second_block host keeps.junk f
      second_now u = faith.reads_keep d.world d.handle (3 * n + 1) (3 * n + 2) ∙ keeps.second_at u

      third_now :
          f.in_use ≢ 0
          → block_of host faith
              (after_read host faith (after_read host faith d (3 * n + 1)) (3 * n + 2))
              (3 * n + 3)
            ≡ third_block host keeps.junk f
      third_now u =
          faith.reads_keep _ d.handle (3 * n + 2) (3 * n + 3)
          ∙ (faith.reads_keep d.world d.handle (3 * n + 1) (3 * n + 3) ∙ keeps.third_at u)
