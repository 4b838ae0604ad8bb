-- ===== src/Fs/Info.antt =====
-- The first block of a file's metadata, byte by byte.
use team_otw_os_labs.Base.{
  ℕ, ◌+◌, ◌-◌, ◌<◌, ◌≡◌, sym, ap, ◌∙◌, List, length, get_or, set, take, drop, load, ok, true, arith,
  ltb, leb, get_or-set, get_or-set_ne, length-set, take-all, load-get_or,
}
use team_otw_os_labs.Fs.State.{FileMeta, high_byte, low_byte, info_block, copy_to}
use team_otw_os_labs.Fs.Content.{span-eq, take-span, drop-span}
use team_otw_os_labs.Fs.Patch.{patched, get_or-copy_to, length-copy_to}

-- Four bytes from 17 on.
abbrev four : List ℕ → ℕ → ℕ → ℕ → ℕ → List ℕ
four xs a b c d = set (set (set (set xs 17 a) 18 b) 19 c) 20 d

module _ (xs : List ℕ) (a b c d : ℕ) where
  length-four : length (four xs a b c d) ≡ length xs
  length-four = omega (
    arith,
    length-set (set (set (set xs 17 a) 18 b) 19 c) 20 d,
    length-set (set (set xs 17 a) 18 b) 19 c,
    length-set (set xs 17 a) 18 b,
    length-set xs 17 a,
  )

  before_four : (j : ℕ) → j < 17 → get_or (four xs a b c d) j 0 ≡ get_or xs j 0
  before_four j h =
      get_or-set_ne (set (set (set xs 17 a) 18 b) 19 c) 20 j d 0 (λ e. omega arith)
      ∙ (get_or-set_ne (set (set xs 17 a) 18 b) 19 j c 0 (λ e. omega arith)
          ∙ (get_or-set_ne (set xs 17 a) 18 j b 0 (λ e. omega arith)
              ∙ get_or-set_ne xs 17 j a 0 (λ e. omega arith)))

  four_are :
      20 < length xs
      → (get_or (four xs a b c d) 17 0 ≡ a)
        × (get_or (four xs a b c d) 18 0 ≡ b)
        × (get_or (four xs a b c d) 19 0 ≡ c)
        × (get_or (four xs a b c d) 20 0 ≡ d)
  four_are h =
      let l1 = length-set xs 17 a in
      let l2 = length-set (set xs 17 a) 18 b in
      let l3 = length-set (set (set xs 17 a) 18 b) 19 c in
      (
        get_or-set_ne (set (set (set xs 17 a) 18 b) 19 c) 20 17 d 0 (λ e. omega (arith, e))
            ∙ (get_or-set_ne (set (set xs 17 a) 18 b) 19 17 c 0 (λ e. omega (arith, e))
                ∙ (get_or-set_ne (set xs 17 a) 18 17 b 0 (λ e. omega (arith, e))
                    ∙ get_or-set xs 17 a 0 (omega arith))),
        get_or-set_ne (set (set (set xs 17 a) 18 b) 19 c) 20 18 d 0 (λ e. omega (arith, e))
            ∙ (get_or-set_ne (set (set xs 17 a) 18 b) 19 18 c 0 (λ e. omega (arith, e))
                ∙ get_or-set (set xs 17 a) 18 b 0 (omega arith)),
        get_or-set_ne (set (set (set xs 17 a) 18 b) 19 c) 20 19 d 0 (λ e. omega (arith, e))
            ∙ get_or-set (set (set xs 17 a) 18 b) 19 c 0 (omega arith),
        get_or-set (set (set (set xs 17 a) 18 b) 19 c) 20 d 0 (omega arith),
      )

-- What the block holds.
pub record Holds (info : List ℕ) (f : FileMeta) : Type 0 where
  pub size : length info ≡ 4096
  pub use_at : load info 0 ≡ ok f.in_use
  pub name_at : take 15 (drop 1 info) ≡ f.name
  pub num_high : load info 17 ≡ ok (high_byte f.num_blocks)
  pub num_low : load info 18 ≡ ok (low_byte f.num_blocks)
  pub last_high : load info 19 ≡ ok (high_byte f.size_last)
  pub last_low : load info 20 ≡ ok (low_byte f.size_last)

module _ (junk : List ℕ) (f : FileMeta) (whole : length junk ≡ 4096)
    (named : length f.name ≡ 15) where
  abbrev old : List ℕ
  old = set junk 0 f.in_use

  abbrev with_name : List ℕ
  with_name = copy_to old 1 f.name 15

  all_name : take 15 f.name ≡ f.name
  all_name = take-all f.name 15 (omega arith)

  length_named : length with_name ≡ 4096
  length_named =
      ap (λ s. length (copy_to old 1 s 15)) (sym all_name)
      ∙ (length-copy_to old f.name 1 15 (omega (arith, length-set junk 0 f.in_use)) (omega arith)
          ∙ (length-set junk 0 f.in_use ∙ whole))

  get_named : (j : ℕ) → get_or with_name j 0 ≡ patched (λ i. get_or old i 0) 1 15 f.name j
  get_named j =
      ap (λ s. get_or (copy_to old 1 s 15) j 0) (sym all_name)
      ∙ get_or-copy_to old f.name 1 15 (omega (arith, length-set junk 0 f.in_use)) (omega arith) j

  abbrev info : List ℕ
  info =
      four with_name (high_byte f.num_blocks) (low_byte f.num_blocks) (high_byte f.size_last)
        (low_byte f.size_last)

  info_size : length info ≡ 4096
  info_size = length-four with_name _ _ _ _ ∙ length_named

  load_at : (j v : ℕ) → j < 4096 → get_or info j 0 ≡ v → load info j ≡ ok v
  load_at j v h e = load-get_or info j 0 (omega (arith, info_size)) ∙ ap ok e

  inside_name :
      (j : ℕ) → j < 15 → patched (λ i. get_or old i 0) 1 15 f.name (1 + j) ≡ get_or f.name j 0
  inside_name j h =
      let a : leb 1 (1 + j) ≡ true = ground arith in
      let b : ltb (1 + j) 16 ≡ true = ground arith in
      let c : 1 + j - 1 ≡ j = omega arith in rw (a, b, c)

  zero_plus : (j : ℕ) → j ≡ 0 + j
  zero_plus j = omega arith

  pub info_block-Holds : Holds (info_block junk f) f
  unfolding info_block
  info_block-Holds =
      let (a, b, c, d) =
        four_are with_name (high_byte f.num_blocks) (low_byte f.num_blocks) (high_byte f.size_last)
          (low_byte f.size_last) (omega (arith, length_named)) in
      record {
        size = info_size;
        use_at = load_at 0 f.in_use (omega arith) (
            before_four with_name _ _ _ _ 0 (omega arith)
            ∙ (get_named 0 ∙ get_or-set junk 0 f.in_use 0 (omega arith)));
        name_at =
            drop-span info 1 15 (omega (arith, info_size))
            ∙ (span-eq (λ j. get_or info j 0) (λ j. get_or f.name j 0) 1 0 15
                  (λ j h.
                    before_four with_name _ _ _ _ (1 + j) (omega arith)
                    ∙ (get_named (1 + j)
                        ∙ (inside_name j h ∙ ap (λ i. get_or f.name i 0) (zero_plus j))))
                ∙ (sym (take-span f.name 15 (omega arith)) ∙ all_name));
        num_high = load_at 17 _ (omega arith) a;
        num_low = load_at 18 _ (omega arith) b;
        last_high = load_at 19 _ (omega arith) c;
        last_low = load_at 20 _ (omega arith) d;
      }
