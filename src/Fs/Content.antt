-- ===== src/Fs/Content.antt =====
-- The bytes of a file on the disk, and pieces of them.
use team_otw_os_labs.Base.{
  ℕ, zero, suc, ◌+◌, ◌/◌, ◌%◌, ◌<◌, ◌≤◌, ◌≡◌, ◌≢◌, refl, sym, ap, ◌∙◌, List, [], ◌∷◌, ◌++◌, true,
  false, some, ok, length, get_or, take, drop, arith, ltb, lt_int,
}
use team_otw_os_labs.Disk.{Host, Disk, block_read, out_of_bounds}
use team_otw_os_labs.Fs.State.{FileMeta}
use team_otw_os_labs.Fs.Files.{read_bytes}
use team_otw_os_labs.Fs.Open.{guard-active}

-- `f c`, `f (c + 1)` and so on, `n` of them.
abbrev pub span : (ℕ → ℕ) → ℕ → ℕ → List ℕ
span f c zero = []
span f c (suc n) = f c ∷ span f (suc c) n

pub span-eq :
    (f g : ℕ → ℕ) (a b n : ℕ) → ((j : ℕ) → j < n → f (a + j) ≡ g (b + j)) → span f a n ≡ span g b n
span-eq f g a b zero h = refl
span-eq f g a b (suc n) h =
    let first : f a ≡ g b = rw (plus_zero a, plus_zero b) at (h 0 (omega arith)) in
    rw (
      first,
      span-eq f g (suc a) (suc b) n
          (λ j l. rw (plus_suc a j, plus_suc b j) at (h (suc j) (omega arith))),
    )
  where
    plus_zero : (x : ℕ) → x + 0 ≡ x
    plus_zero x = omega arith

    plus_suc : (x j : ℕ) → x + suc j ≡ suc x + j
    plus_suc x j = omega arith

pub span-append : (f : ℕ → ℕ) (c m n : ℕ) → span f c m ++ span f (c + m) n ≡ span f c (m + n)
span-append f c zero n = ap (λ x. span f x n) (plus_zero c) ∙ ap (span f c) (zero_plus n)
  where
    plus_zero : (x : ℕ) → x + 0 ≡ x
    plus_zero x = omega arith

    zero_plus : (x : ℕ) → x ≡ 0 + x
    zero_plus x = omega arith
span-append f c (suc m) n =
    ap (λ l. f c ∷ l) (ap (λ x. span f (suc c) m ++ span f x n) later ∙ span-append f (suc c) m n)
    ∙ ap (span f c) total
  where
    later : c + suc m ≡ suc c + m
    later = omega arith

    total : suc (m + n) ≡ suc m + n
    total = omega arith

span-shift : (f : ℕ → ℕ) (c n : ℕ) → span f (suc c) n ≡ span (λ j. f (suc j)) c n
span-shift f c zero = refl
span-shift f c (suc n) = ap (λ l. f (suc c) ∷ l) (span-shift f (suc c) n)

pub take-span : (xs : List ℕ) (n : ℕ) → n ≤ length xs → take n xs ≡ span (λ j. get_or xs j 0) 0 n
take-span xs zero h = refl
take-span [] (suc n) h = absurd (omega arith)
take-span (x ∷ xs) (suc n) h =
    ap (λ l. x ∷ l) (take-span xs n (omega arith) ∙ sym (span-shift (λ j. get_or (x ∷ xs) j 0) 0 n))

pub drop-span :
    (xs : List ℕ) (o n : ℕ) → o + n ≤ length xs → take n (drop o xs) ≡ span (λ j. get_or xs j 0) o n
drop-span xs zero n h = take-span xs n (omega arith)
drop-span [] (suc o) n h = absurd (omega arith)
drop-span (x ∷ xs) (suc o) n h =
    drop-span xs o n (omega arith) ∙ sym (span-shift (λ j. get_or (x ∷ xs) j 0) o n)

pub length-drop : (xs : List ℕ) (o n : ℕ) → o + n ≤ length xs → n ≤ length (drop o xs)
length-drop xs zero n h = omega arith
length-drop [] (suc o) n h = absurd (omega arith)
length-drop (x ∷ xs) (suc o) n h = length-drop xs o n (omega arith)

not_ltb : (a b : ℕ) → b ≤ a → ltb a b ≡ false
not_ltb a b h = ground arith

pub read_bytes-span :
    (xs : List ℕ) (o n : ℕ)
    → o + n ≤ length xs
    → read_bytes n (drop o xs) ≡ ok (span (λ j. get_or xs j 0) o n)
unfolding read_bytes
read_bytes-span xs o n h =
    rw (not_ltb (length (drop o xs)) n (length-drop xs o n h)) (ap ok (drop-span xs o n h))

-- What a disk of `DISK_BLOCKS` blocks promises about `lseek`, `read` and `write`: a block read is
-- the block's contents, and a block written has the contents that were written, the others staying
-- as they are.
pub record Faithful (host : Host) : Type 0 where
  pub contents : host.World → ℕ → ℕ → List ℕ
  pub whole : (w : host.World) (h b : ℕ) → length (contents w h b) ≡ 4096
  pub reads : (w : host.World) (h b : ℕ) → b < 8192 → (host.read_at h b w).0 ≡ some (contents w h b)
  pub reads_keep :
      (w : host.World) (h b c : ℕ) → contents (host.read_at h b w).1 h c ≡ contents w h c
  pub writes :
      (w : host.World) (h b : ℕ) (d : List ℕ)
      → b < 8192
      → length d ≡ 4096
      → contents (host.write_at h b d w).1 h b ≡ d
  pub writes_keep :
      (w : host.World) (h b c : ℕ) (d : List ℕ)
      → c ≢ b
      → contents (host.write_at h b d w).1 h c ≡ contents w h c

pub in_bounds : (b : ℕ) → b < 8192 → out_of_bounds b ≡ false
unfolding out_of_bounds lt_int
in_bounds b h = ground arith

module _ (host : Host) (faith : Faithful host) where
  abbrev pub block_of : Disk host → ℕ → List ℕ
  block_of d b = faith.contents d.world d.handle b

  abbrev pub after_read : Disk host → ℕ → Disk host
  after_read d b = record d { world = (host.read_at d.handle b d.world).1 }

  pub block_read_lem :
      (b : ℕ) (buf : List ℕ) (d : Disk host)
      → d.active ≡ true
      → b < 8192
      → block_read host b buf d ≡ (true, block_of d b, after_read d b)
  unfolding block_read
  block_read_lem b buf d act h =
      guard-active _ act ∙ rw (in_bounds b h, faith.reads d.world d.handle b h)

  -- The byte `i` of a file.
  abbrev pub byte_of : Disk host → FileMeta → ℕ → ℕ
  byte_of d f i = get_or (block_of d (get_or f.blocks (i / 4096) 0)) (i % 4096) 0
