-- ===== src/Fs/Trim.antt =====
-- What `fs_truncate` does to an open file, within its last block and below it.
use team_otw_os_labs.Base.{
  ℕ, zero, suc, ◌+◌, ◌-◌, ◌*◌, ◌/◌, ◌%◌, ◌<◌, ◌≤◌, ◌≡◌, List, [], ◌∷◌, ◌==◌, if◌then◌else◌, ok,
  fault, load, store, set, true, false, refl, ap, ◌∙◌, int_of_char, int_of_short, sub_int, to_int,
  to_short, IsSmall, arith, lt_int, rem_long, length,
}
use team_otw_os_labs.Disk.{Host}
use team_otw_os_labs.Fs.State.{FileMeta, Descriptor, Fs}
use team_otw_os_labs.Fs.Files.{fs_get_filesize}
use team_otw_os_labs.Fs.Truncate.{free_blocks, fs_truncate}
use team_otw_os_labs.Fs.Open.{IsOpen, guard-active, filesize_open, store-set, load-set}
use team_otw_os_labs.Fs.Cut.{
  IsSized, file_size-small, target_of-small, within, rem_long-small, save_lem,
}

store-out : {A : Type 0} (xs : List A) (i : ℕ) (v : A) → length xs ≤ i → store xs i v ≡ fault
unfolding store
store-out [] i v h = refl
store-out (x ∷ xs) zero v h = absurd (omega arith)
store-out (x ∷ xs) (suc i) v h = rw (store-out xs i v (omega arith))

free_crash :
    (k target : ℕ) (blocks usage : List ℕ) (n b : ℕ)
    → lt_int target (int_of_short n) ≡ true
    → load blocks (int_of_short n) ≡ ok b
    → store usage (sub_int (int_of_short b) 4096) 0 ≡ fault
    → free_blocks (suc k) target blocks n usage ≡ fault
unfolding free_blocks
free_crash k target blocks usage n b h1 h2 h3 = rw (h1, h2, h3)

free_none :
    (k target : ℕ) (blocks usage : List ℕ) (n : ℕ)
    → lt_int target (int_of_short n) ≡ false
    → free_blocks (suc k) target blocks n usage ≡ ok (n, usage)
unfolding free_blocks
free_none k target blocks usage n h = rw h

short_small : (n : ℕ) → n ≤ 4096 → int_of_short n ≡ n
unfolding int_of_short
short_small n h = ground arith

lt_target :
    (n len : ℕ) → n ≤ 4096 → len ≤ (n - 1) * 4096 → 0 < n → lt_int ((len + 4095) / 4096) n ≡ true
unfolding lt_int
lt_target n len h k p = ground arith

ge_target :
    (n len : ℕ)
    → n ≤ 4096
    → (n - 1) * 4096 < len
    → len ≤ n * 4096
    → lt_int ((len + 4095) / 4096) n ≡ false
unfolding lt_int
ge_target n len h k p = ground arith

below_usage : (b : ℕ) → b < 4096 → 4096 ≤ sub_int (int_of_short b) 4096
unfolding sub_int int_of_short
below_usage b h = ground arith

short_rest : (n : ℕ) → to_short (to_int (n % 4096)) ≡ n % 4096
unfolding to_short to_int
short_rest n = omega arith

module _ (host : Host) (junk : List ℕ) (fs : Fs host) (i : ℕ) (d : Descriptor) (f : FileMeta)
    (o : IsOpen host fs i d f) (s : IsSized f) where
  -- An open file of at least one block cannot be cut down by a whole block where the entry after
  -- the file's last block is no data block, such as the 0 of an entry that was never set: the loop
  -- of `fs_truncate` takes that entry and writes outside `usage`, a crash.
  pub fs_truncate-crash :
      (len b : ℕ)
      → len ≤ (f.num_blocks - 1) * 4096
      → load f.blocks f.num_blocks ≡ ok b
      → b < 4096
      → length fs.usage ≤ 4096
      → fs_truncate host junk i len fs ≡ fault
  unfolding fs_truncate
  fs_truncate-crash len b h e k u =
      guard-active _ o.mounted
      ∙ rw (
        filesize_open host fs i d f o,
        o.found,
        o.taken,
        file_size-small f s,
        within ((f.num_blocks - 1) * 4096 + f.size_last) len size-IsSmall (omega arith),
        o.has_file,
        target_of-small len (omega (arith, s.few_blocks, h)),
        free_crash (sub_int (int_of_short f.num_blocks) target) target f.blocks fs.usage
            f.num_blocks b (rw short (lt_target f.num_blocks len s.few_blocks h s.some_block))
            (rw short e) (store-out fs.usage _ 0 (omega (arith, below_usage b k, u))),
      )
    where
      target : ℕ
      target = (len + 4095) / 4096

      short : int_of_short f.num_blocks ≡ f.num_blocks
      short = short_small f.num_blocks s.few_blocks

      size-IsSmall : IsSmall ((f.num_blocks - 1) * 4096 + f.size_last)
      size-IsSmall = omega (arith, s.few_blocks, s.last_block)

  -- On an open file of at least one block, a new length within its last block is set: afterwards
  -- `fs_get_filesize` gives that length, but one that is a multiple of the block size comes out a
  -- block shorter.
  pub fs_truncate-last :
      (len : ℕ)
      → (f.num_blocks - 1) * 4096 < len
      → len ≤ (f.num_blocks - 1) * 4096 + f.size_last
      → (fs1 : Fs host) × (fs_truncate host junk i len fs ≡ ok (true, fs1))
        × (fs_get_filesize host i fs1 ≡ ok (if len % 4096 == 0 then len - 4096 else len))
  unfolding fs_truncate
  fs_truncate-last len h k =
      let (disk, active, saved) =
        save_lem host junk (int_of_char d.file) cut f1 o.mounted has_file1 in
      (
        record cut { disk = disk },
        guard-active _ o.mounted
            ∙ rw (
              filesize_open host fs i d f o,
              o.found,
              o.taken,
              file_size-small f s,
              within ((f.num_blocks - 1) * 4096 + f.size_last) len size-IsSmall k,
              o.has_file,
              target_of-small len len_small,
              free_none (sub_int (int_of_short f.num_blocks) target) target f.blocks fs.usage
                  f.num_blocks kept,
              rest,
              store-set fs.file_metas (int_of_char d.file) f1 f o.has_file,
              saved,
            ),
        filesize_open host (record cut { disk = disk }) i d f1
              (record { mounted = active; found = o.found; taken = o.taken; has_file = has_file1 })
            ∙ ap ok (file_size-small f1 sized ∙ arithmetic),
      )
    where
      target : ℕ
      target = (len + 4095) / 4096

      f1 : FileMeta
      f1 = record f { size_last = len % 4096 }

      cut : Fs host
      cut = record fs { file_metas = set fs.file_metas (int_of_char d.file) f1 }

      has_file1 : load cut.file_metas (int_of_char d.file) ≡ ok f1
      has_file1 = load-set fs.file_metas (int_of_char d.file) f1 f o.has_file

      sized : IsSized f1
      sized = record {
        some_block = s.some_block;
        few_blocks = s.few_blocks;
        last_block = omega arith;
      }

      size-IsSmall : IsSmall ((f.num_blocks - 1) * 4096 + f.size_last)
      size-IsSmall = omega (arith, s.few_blocks, s.last_block)

      len_small : IsSmall len
      len_small = omega (arith, k, size-IsSmall)

      kept : lt_int target (int_of_short f.num_blocks) ≡ false
      kept =
          rw (short_small f.num_blocks s.few_blocks) (
            ge_target f.num_blocks len s.few_blocks h
              (omega (arith, k, s.last_block, s.some_block)))

      rest : to_short (to_int (rem_long len 4096)) ≡ len % 4096
      rest = rw (rem_long-small len len_small) (short_rest len)

      arithmetic :
          (f.num_blocks - 1) * 4096 + len % 4096 ≡ (if len % 4096 == 0 then len - 4096 else len)
      arithmetic = let a = s.some_block in let b = s.last_block in ground arith
