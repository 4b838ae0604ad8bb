-- ===== src/Fs/ReadTests.antt =====
-- Examples: a file of two blocks on a disk in memory, which is read and written.
use team_otw_os_labs.Base.{ℕ, ◌+◌, List, [], ◌∷◌, true, replicate}
use team_otw_os_labs.Fs.Memory.{memory}
use team_otw_os_labs.Fs.State.{FileMeta, Descriptor, Fs}

-- A buffer from `malloc`.
abbrev fresh : List ℕ
fresh = replicate 4096 0

-- A file of two blocks with 100 bytes in the second one.
abbrev page : FileMeta
page = record {
  in_use = 1;
  name = 97 ∷ replicate 14 0;
  num_blocks = 2;
  size_last = 100;
  blocks = 4096 ∷ 4097 ∷ 0 ∷ [];
}

abbrev page_at : ℕ → Descriptor
page_at n = record { file = 0; cursor = n }

abbrev drive_at : ℕ → Fs memory
drive_at n = record {
  disk = record { world = λ b j. b + j; handle = 3; active = true };
  usage = 1 ∷ 1 ∷ 0 ∷ [];
  file_metas = page ∷ [];
  descriptors = page_at n ∷ [];
}

abbrev drive : Fs memory
drive = drive_at 4094

abbrev three_bytes : List ℕ
three_bytes = 65 ∷ 66 ∷ 67 ∷ []
