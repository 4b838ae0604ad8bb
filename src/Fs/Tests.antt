-- ===== src/Fs/Tests.antt =====
-- Examples: a host whose disk reads as zeros, and a file system with one file.
use team_otw_os_labs.Base.{
  ℕ, ◌≡◌, List, [], ◌∷◌, true, some, ok, fault, refl, arith, replicate, load, int_of_char, to_char,
}
use team_otw_os_labs.Disk.{Host, block_size}
use team_otw_os_labs.Fs.State.{FileMeta, Descriptor, Fs, no_file}
use team_otw_os_labs.Fs.Files.{fs_get_filesize, fs_open, is_named}
use team_otw_os_labs.Fs.Truncate.{fs_truncate}
use team_otw_os_labs.Fs.Open.{IsOpen}
use team_otw_os_labs.Fs.Cut.{IsSized}
use team_otw_os_labs.Fs.Trim.{fs_truncate-crash, fs_truncate-last}
use team_otw_os_labs.Fs.Search.{fs_open_lem}

abbrev quiet : Host
quiet = record {
  World = Unit;
  Name = Unit;
  create = λ n b k w. (true, w);
  open_rw = λ n w. (some 3, w);
  close = λ h w. w;
  write_at = λ h b d w. (true, w);
  read_at = λ h b w. (some (replicate block_size 0), w);
}

-- A file of two blocks with 100 bytes in the second one.
abbrev letters : FileMeta
letters = record {
  in_use = 1;
  name = 97 ∷ 98 ∷ replicate 13 0;
  num_blocks = 2;
  size_last = 100;
  blocks = 4096 ∷ 4097 ∷ 0 ∷ [];
}

abbrev cursor_at : ℕ → Descriptor
cursor_at n = record { file = 0; cursor = n }

abbrev mounted_fs : List Descriptor → Fs quiet
mounted_fs ds = record {
  disk = record { world = tt; handle = 3; active = true };
  usage = 1 ∷ 1 ∷ 0 ∷ [];
  file_metas = letters ∷ [];
  descriptors = ds;
}

letters-IsOpen : IsOpen quiet (mounted_fs (cursor_at 7 ∷ [])) 0 (cursor_at 7) letters
unfolding load int_of_char
letters-IsOpen = record { mounted = refl; found = refl; taken = refl; has_file = refl }

letters-IsSized : IsSized letters
letters-IsSized = record {
  some_block = omega arith;
  few_blocks = omega arith;
  last_block = omega arith;
}

fs_truncate-crash_example : fs_truncate quiet [] 0 4096 (mounted_fs (cursor_at 7 ∷ [])) ≡ fault
unfolding load
fs_truncate-crash_example =
    fs_truncate-crash quiet [] (mounted_fs (cursor_at 7 ∷ [])) 0 (cursor_at 7) letters
      letters-IsOpen letters-IsSized 4096 0 (omega arith) refl (omega arith) (omega arith)

fs_truncate-last_example :
    (fs1 : Fs quiet) × (fs_truncate quiet [] 0 4100 (mounted_fs (cursor_at 7 ∷ []))
      ≡ ok (true, fs1))
    × (fs_get_filesize quiet 0 fs1 ≡ ok 4100)
fs_truncate-last_example =
    fs_truncate-last quiet [] (mounted_fs (cursor_at 7 ∷ [])) 0 (cursor_at 7) letters letters-IsOpen
      letters-IsSized 4100 (omega arith) (omega arith)

abbrev closed_fs : Fs quiet
closed_fs = mounted_fs (record { file = no_file; cursor = 5 } ∷ [])

fs_open_lem_example :
    (fs1 : Fs quiet) × (fs_open quiet (97 ∷ 98 ∷ 0 ∷ []) closed_fs ≡ ok (some 0, fs1))
    × IsOpen quiet fs1 0 (cursor_at 0) letters
unfolding load is_named to_char
fs_open_lem_example =
    fs_open_lem quiet closed_fs (97 ∷ 98 ∷ 0 ∷ []) 0 letters 0
      (record { file = no_file; cursor = 5 }) refl (omega arith)
      (refl, refl, λ j l h. absurd (omega arith)) (omega arith)
      (refl, refl, λ j l h. absurd (omega arith))
