-- ===== src/Fs/Cut.antt =====
-- Lemmas on sizes, on `save_file_meta` and on the numbers that `fs_truncate` computes.
use team_otw_os_labs.Base.{
  ℕ, ◌+◌, ◌-◌, ◌*◌, ◌/◌, ◌%◌, ◌<◌, ◌≤◌, ◌≡◌, List, Bool, not, if◌then◌else◌, ok, load, true, false,
  ◌∙◌, int_of_short, add_int, sub_int, mul_int, lt_long, to_size, to_int, IsSmall, arith, rem_long,
  div_long, take, drop,
}
use team_otw_os_labs.Disk.{Host, Disk, block_write, out_of_bounds}
use team_otw_os_labs.Fs.State.{FileMeta, Fs, save_file_meta, info_block, list_block}
use team_otw_os_labs.Fs.Files.{file_size}
use team_otw_os_labs.Fs.Truncate.{target_of}
use team_otw_os_labs.Fs.Open.{guard-active}

-- A file of at least one block, no more than its list has entries.
pub record IsSized (f : FileMeta) : Type 0 where
  pub some_block : 0 < f.num_blocks
  pub few_blocks : f.num_blocks ≤ 4096
  pub last_block : f.size_last ≤ 4096

pub file_size-small :
    (f : FileMeta) → IsSized f → file_size f ≡ (f.num_blocks - 1) * 4096 + f.size_last
unfolding file_size add_int mul_int sub_int int_of_short
file_size-small f s =
    let a = s.some_block in let b = s.few_blocks in let c = s.last_block in ground arith

pub size_bound : (f : FileMeta) (size : ℕ) → IsSized f → file_size f ≡ size → size ≤ 4096 * 4096
size_bound f size s e =
    let a = s.some_block in
    let b = s.few_blocks in let c = s.last_block in omega (arith, e, file_size-small f s)

pub size-IsSmall : (f : FileMeta) (size : ℕ) → IsSized f → file_size f ≡ size → IsSmall size
size-IsSmall f size s e =
    let a = s.some_block in
    let b = s.few_blocks in let c = s.last_block in omega (arith, e, file_size-small f s)

-- A place before the end is in a block of the file.
pub inside_file :
    (f : FileMeta) (c size : ℕ)
    → IsSized f
    → file_size f ≡ size
    → c < size
    → c / 4096 < f.num_blocks
inside_file f c size s e h =
    let a = s.some_block in let l = s.last_block in omega (arith, e, file_size-small f s)

pub rem_long-small : (n : ℕ) → IsSmall n → rem_long n 4096 ≡ n % 4096
unfolding rem_long
rem_long-small n h = ground arith

div_long-small : (n : ℕ) → IsSmall n → div_long n 4096 ≡ n / 4096
unfolding div_long
div_long-small n h = ground arith

pub target_of-small : (n : ℕ) → IsSmall n → target_of n ≡ (n + 4095) / 4096
unfolding target_of lt_long add_int to_int
target_of-small n h = rw (rem_long-small n h, div_long-small n h) (ground arith)

pub within : (size n : ℕ) → IsSmall size → n ≤ size → lt_long (to_size size) n ≡ false
unfolding lt_long to_size
within size n h k = ground arith

module _ (host : Host) where
  if_active :
      (b : Bool) (x y : Bool × Disk host)
      → x.1.active ≡ true
      → y.1.active ≡ true
      → (if b then x else y).1.active ≡ true
  if_active true x y h k = h
  if_active false x y h k = k

  pub block_write-active :
      (b : ℕ) (buf : List ℕ) (d : Disk host)
      → d.active ≡ true
      → (block_write host b buf d).1.active ≡ true
  unfolding block_write
  block_write-active b buf d e =
      if_active (not d.active) (false, d) (if out_of_bounds b then (false, d) else written) e
        (if_active (out_of_bounds b) (false, d) written e e)
    where
      written : Bool × Disk host
      written =
          let (done, w) = host.write_at d.handle b buf d.world in (done, record d { world = w })

  -- The blocks of the metadata of a file, and the disk with them.
  abbrev pub second_block : List ℕ → FileMeta → List ℕ
  second_block junk f = list_block 0 (take 2048 f.blocks) (info_block junk f)

  abbrev pub third_block : List ℕ → FileMeta → List ℕ
  third_block junk f = list_block 0 (take 2048 (drop 2048 f.blocks)) (second_block junk f)

  abbrev pub saved : List ℕ → ℕ → FileMeta → Disk host → Disk host
  saved junk n f d =
      (block_write host (3 * n + 3) (third_block junk f)
        (block_write host (3 * n + 2) (second_block junk f)
          (block_write host (3 * n + 1) (info_block junk f) d).1).1).1

  pub saved-active :
      (junk : List ℕ) (n : ℕ) (f : FileMeta) (d : Disk host)
      → d.active ≡ true
      → (saved junk n f d).active ≡ true
  saved-active junk n f d e =
      block_write-active (3 * n + 3) _ _
        (block_write-active (3 * n + 2) _ _ (block_write-active (3 * n + 1) _ d e))

  pub save_runs :
      (junk : List ℕ) (n : ℕ) (fs : Fs host) (f : FileMeta)
      → fs.disk.active ≡ true
      → load fs.file_metas n ≡ ok f
      → save_file_meta host junk n fs ≡ ok (true, record fs { disk = saved junk n f fs.disk })
  unfolding save_file_meta
  save_runs junk n fs f e h = guard-active _ e ∙ rw h

  pub save_lem :
      (junk : List ℕ) (n : ℕ) (fs : Fs host) (f : FileMeta)
      → fs.disk.active ≡ true
      → load fs.file_metas n ≡ ok f
      → (d : Disk host) × (d.active ≡ true)
        × (save_file_meta host junk n fs ≡ ok (true, record fs { disk = d }))
  save_lem junk n fs f e h =
      (saved junk n f fs.disk, saved-active junk n f fs.disk e, save_runs junk n fs f e h)
