-- ===== src/Fs/Grown.antt =====
-- A file that a round of `fs_write` has made longer.
use team_otw_os_labs.Base.{
  ℕ, ◌+◌, ◌<◌, ◌≤◌, ◌≡◌, refl, true, arith, ltb, int_of_short, add_int, sub_int, mul_int,
}
use team_otw_os_labs.Disk.{Host}
use team_otw_os_labs.Fs.State.{FileMeta}
use team_otw_os_labs.Fs.Files.{file_size}
use team_otw_os_labs.Fs.Cut.{IsSized}
use team_otw_os_labs.Fs.Content.{Faithful}
use team_otw_os_labs.Fs.Least.{HasBlocks, least}
use team_otw_os_labs.Fs.WriteRound.{grown}

pub file_size-add :
    (f : FileMeta) (n : ℕ)
    → IsSized f
    → n ≤ 4096
    → file_size (record f { size_last = f.size_last + n }) ≡ file_size f + n
unfolding file_size add_int mul_int sub_int int_of_short
file_size-add f n s h =
    let a = s.some_block in let b = s.few_blocks in let c = s.last_block in ground arith

pub all_of : (n room : ℕ) → n ≤ room → n ≡ least n room
all_of n room h = ground arith

module _ (host : Host) (faith : Faithful host) (f : FileMeta) (blocks : HasBlocks f) where
  pub grown_past :
      (c n size : ℕ)
      → file_size f ≡ size
      → size < c + n
      → grown host faith f blocks c n ≡ record f { size_last = f.size_last + n }
  grown_past c n size e h =
      let same : ltb (file_size f) (c + n) ≡ true = ground arith in rw same refl
