-- ===== src/Fs/Fixture.antt =====
-- A disk in memory on which every slot is saved as an empty one, for the examples.
use mathlib.Core.Path.{subst}
use team_otw_os_labs.Base.{
  ℕ, zero, suc, ◌+◌, ◌*◌, ◌%◌, ◌≡◌, ◌==◌, if◌then◌else◌, ap, ◌∙◌, List, true, ok, arith, load,
  length, get_or, replicate, length-replicate, ok-injective,
}
use team_otw_os_labs.Disk.{Disk}
use team_otw_os_labs.Fs.Memory.{memory, memory_keeps, tabulate, tabulate-get}
use team_otw_os_labs.Fs.State.{FileMeta, info_block}
use team_otw_os_labs.Fs.Cut.{second_block, third_block}
use team_otw_os_labs.Fs.Encode.{length-list_block}
use team_otw_os_labs.Fs.Info.{info_block-Holds}
use team_otw_os_labs.Fs.Wiped.{zeros_fit}
use team_otw_os_labs.Fs.Persist.{Fits, Keeps}

-- What a fresh buffer holds.
abbrev pub page : List ℕ
page = replicate 4096 0

abbrev pub slot : FileMeta
slot = record { in_use = 0; name = replicate 15 0; num_blocks = 0; size_last = 0; blocks = page }

pub page_size : length page ≡ 4096
page_size = length-replicate {A = ℕ} 4096 0

-- Every slot is saved as an empty one.
abbrev pub empty_block : ℕ → List ℕ
empty_block r =
    if r == 1
    then info_block page slot
    else if r == 2
    then second_block memory page slot
    else third_block memory page slot

-- The disk on which every slot is saved as an empty one.
abbrev pub slate : Disk memory
slate = record { world = λ b j. get_or (empty_block (b % 3)) j 0; handle = 3; active = true }

pub slot-Fits : Fits slot
slot-Fits = record {
  name_size = length-replicate {A = ℕ} 15 0;
  list_size = page_size;
  count = omega arith;
  last = omega arith;
  entries = zeros_fit 4096;
}

info_size : length (info_block page slot) ≡ 4096
info_size = (info_block-Holds page slot page_size slot-Fits.name_size).size

second_size : length (second_block memory page slot) ≡ 4096
second_size = length-list_block 0 _ (info_block page slot) ∙ info_size

third_size : length (third_block memory page slot) ≡ 4096
third_size = length-list_block 0 _ (second_block memory page slot) ∙ second_size

same_block :
    (a r : ℕ)
    → a ≡ r
    → tabulate (λ j. get_or (empty_block a) j 0) ≡ tabulate (λ j. get_or (empty_block r) j 0)
same_block a r e = ap (λ x. tabulate (λ j. get_or (empty_block x) j 0)) e

pub slot-Keeps : (m : ℕ) → Keeps memory memory_keeps slate m slot
unfolding memory_keeps
slot-Keeps m =
    let one : (3 * m + 1) % 3 ≡ 1 = omega arith in
    let two : (3 * m + 2) % 3 ≡ 2 = omega arith in
    let none_left : (3 * m + 3) % 3 ≡ 0 = omega arith in
    record {
      junk = page;
      junk_size = page_size;
      info_at = same_block _ 1 one ∙ tabulate-get (info_block page slot) info_size;
      second_at =
          λ u. same_block _ 2 two ∙ tabulate-get (second_block memory page slot) second_size;
      third_at =
          λ u. same_block _ 0 none_left ∙ tabulate-get (third_block memory page slot) third_size;
    }

pub of_slots :
    (P : FileMeta → Type 0)
    → P slot
    → (n m : ℕ) (f : FileMeta) → load (replicate n slot) m ≡ ok f
    → P f
unfolding load
of_slots P h zero m f e = cc
of_slots P h (suc n) zero f e = subst P (ok-injective e) h
of_slots P h (suc n) (suc m) f e = of_slots P h n m f e
