-- ===== src/Fs/Memory.antt =====
-- A disk in memory that keeps what is written.
use team_otw_os_labs.Base.{
  ℕ, zero, suc, ◌≡◌, ◌≢◌, List, true, some, ◌==◌, refl, sym, ap, ◌∙◌, arith, length, get_or,
  if◌then◌else◌, take-all,
}
use team_otw_os_labs.Disk.{Host}
use team_otw_os_labs.Fs.Content.{span, take-span, Faithful}

-- The block with these bytes.
unfoldable pub tabulate : (ℕ → ℕ) → List ℕ
tabulate g = span g 0 4096

length-span : (g : ℕ → ℕ) (c n : ℕ) → length (span g c n) ≡ n
length-span g c zero = refl
length-span g c (suc n) = ap suc (length-span g (suc c) n)

pub length-tabulate : (g : ℕ → ℕ) → length (tabulate g) ≡ 4096
unfolding tabulate
length-tabulate g = length-span g 0 4096

pub tabulate-get : (xs : List ℕ) → length xs ≡ 4096 → tabulate (λ j. get_or xs j 0) ≡ xs
unfolding tabulate
tabulate-get xs h = sym (take-span xs 4096 (omega arith)) ∙ take-all xs 4096 (omega arith)

abbrev pub put : ℕ → List ℕ → (ℕ → ℕ → ℕ) → ℕ → ℕ → ℕ
put b d w c = if c == b then (λ j. get_or d j 0) else w c

abbrev pub memory : Host
memory = record {
  World = ℕ → ℕ → ℕ;
  Name = Unit;
  create = λ n b k w. (true, w);
  open_rw = λ n w. (some 3, w);
  close = λ h w. w;
  write_at = λ h b d w. (true, put b d w);
  read_at = λ h b w. (some (tabulate (w b)), w);
}

pub put-there : (b : ℕ) (d : List ℕ) (w : ℕ → ℕ → ℕ) → length d ≡ 4096 → tabulate (put b d w b) ≡ d
put-there b d w h = let same : (b == b) ≡ true = ground arith in rw same (tabulate-get d h)

pub put-elsewhere : (b c : ℕ) (d : List ℕ) (w : ℕ → ℕ → ℕ) → c ≢ b → put b d w c ≡ w c
put-elsewhere b c d w h = ground arith

unfoldable pub memory_keeps : Faithful memory
memory_keeps = record {
  contents = λ w h b. tabulate (w b);
  whole = λ w h b. length-tabulate (w b);
  reads = λ w h b l. refl;
  reads_keep = λ w h b c. refl;
  writes = λ w h b d l e. put-there b d w e;
  writes_keep = λ w h b c d n. ap tabulate (put-elsewhere b c d w n);
}
