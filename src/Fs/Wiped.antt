-- ===== src/Fs/Wiped.antt =====
-- The blank disk that `make_fs` makes, and the slots on it.
use team_otw_os_labs.Base.{
  ℕ, zero, suc, ◌+◌, ◌<◌, ◌≤◌, ◌≡◌, ◌==◌, refl, sym, ap, ◌∙◌, List, true, ok, length, load, set,
  drop, replicate, arith, All, length-replicate, length-append, to_char, div_int, rem_int,
  int_of_short, set-load, All-append, All-split, take, Bool-cases, inl, inr,
}
use mathlib.Core.Path.{subst}
use team_otw_os_labs.Disk.{Host, Disk, block_write}
use team_otw_os_labs.Fs.State.{info_block, high_byte, low_byte, copy_to}
use team_otw_os_labs.Fs.Mount.{wipe_loop, unused_meta}
use team_otw_os_labs.Fs.Cut.{block_write-active}
use team_otw_os_labs.Fs.Content.{Faithful, block_of}
use team_otw_os_labs.Fs.Patch.{drop-length}
use team_otw_os_labs.Fs.Saved.{write_elsewhere, write_there}
use team_otw_os_labs.Fs.Encode.{IsShort, take-append-drop}
use team_otw_os_labs.Fs.Persist.{Fits}

abbrev pub zeros : List ℕ
zeros = replicate 4096 0

pub zeros_size : length zeros ≡ 4096
zeros_size = length-replicate {A = ℕ} 4096 0

load-zeros : (n i : ℕ) → i < n → load {A = ℕ} (replicate n 0) i ≡ ok 0
unfolding load
load-zeros zero i h = absurd (omega arith)
load-zeros (suc n) zero h = refl
load-zeros (suc n) (suc i) h = load-zeros n i (omega arith)

set-zeros : (i : ℕ) → i < 4096 → set zeros i 0 ≡ zeros
set-zeros i h = set-load zeros i 0 (load-zeros 4096 i h)

no_name : copy_to zeros 1 (replicate 15 0) 15 ≡ zeros
unfolding copy_to
no_name = refl

pub info_block-unused : (junk : List ℕ) → info_block zeros (unused_meta junk) ≡ zeros
unfolding info_block unused_meta high_byte low_byte copy_to to_char div_int rem_int int_of_short
info_block-unused junk = refl

pub zeros_fit : (n : ℕ) → All IsShort (replicate n 0)
zeros_fit zero = tt
zeros_fit (suc n) = (omega arith, zeros_fit n)

pub unused_meta-Fits :
    (junk : List ℕ) → length junk ≡ 4096 → All IsShort junk → Fits (unused_meta junk)
unfolding unused_meta
unused_meta-Fits junk whole short = record {
  name_size = length-replicate {A = ℕ} 15 0;
  list_size = omega (
    arith,
    length-append (replicate 2048 0) (drop 2048 junk),
    length-replicate {A = ℕ} 2048 0,
    drop-length junk 2048,
  );
  count = omega arith;
  last = omega arith;
  entries =
      All-append IsShort (replicate 2048 0) (drop 2048 junk) (zeros_fit 2048)
        (All-split IsShort (take 2048 junk) (drop 2048 junk)
          (subst (All IsShort) (sym (take-append-drop 2048 junk)) short)).1;
}

module _ (host : Host) (faith : Faithful host) where
  pub wipe_loop_lem :
      (left i : ℕ) (d : Disk host)
      → d.active ≡ true
      → i + left ≤ 8192
      → ((wipe_loop host left i d).active ≡ true)
        × ((b : ℕ) → i ≤ b → b < i + left → block_of host faith (wipe_loop host left i d) b ≡ zeros)
        × ((b : ℕ)
            → b < i
            → block_of host faith (wipe_loop host left i d) b ≡ block_of host faith d b)
  unfolding wipe_loop
  wipe_loop_lem zero i d act small = (act, λ b h h'. absurd (omega arith), λ b h. refl)
  wipe_loop_lem (suc left) i d act small =
      let d1 = (block_write host i zeros d).1 in
      let (on, wiped, before) =
        wipe_loop_lem left (suc i) d1 (block_write-active host i zeros d act) (omega arith) in
      (
        on,
        λ b h h'. elim (Bool-cases (b == i)) [
          | inl q ↦
              let q' : b ≡ i = ground arith in
              ap (block_of host faith (wipe_loop host left (suc i) d1)) q'
              ∙ (before i (omega arith)
                  ∙ write_there host faith i zeros d act (omega arith) zeros_size)
          | inr q ↦ wiped b (ground arith) (omega arith)
        ],
        λ b h.
            before b (omega arith)
            ∙ write_elsewhere host faith i b zeros d act (omega arith) (λ e. omega arith),
      )
