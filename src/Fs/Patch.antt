-- ===== src/Fs/Patch.antt =====
-- Bytes that are written over others, and a block that is written.
use team_otw_os_labs.Base.{
  ℕ, zero, suc, ◌+◌, ◌-◌, ◌<◌, ◌≤◌, ◌≡◌, refl, ap, ◌∙◌, List, [], ◌∷◌, ◌++◌, true, length, get_or,
  take, drop, arith, if◌then◌else◌, ltb, leb, ◌&&◌, length-append, Bool-cases, inl, inr,
}
use team_otw_os_labs.Disk.{Host, Disk, block_write}
use team_otw_os_labs.Fs.State.{copy_to}
use team_otw_os_labs.Fs.Content.{Faithful, in_bounds}

-- `g` with the first `n` bytes of `source` over it, from `c` on.
abbrev pub patched : (ℕ → ℕ) → ℕ → ℕ → List ℕ → ℕ → ℕ
patched g c n source i = if leb c i && ltb i (c + n) then get_or source (i - c) 0 else g i

left_of : (xs ys : List ℕ) (j : ℕ) → j < length xs → get_or (xs ++ ys) j 0 ≡ get_or xs j 0
left_of [] ys j h = absurd (omega arith)
left_of (x ∷ xs) ys zero h = refl
left_of (x ∷ xs) ys (suc j) h = left_of xs ys j (omega arith)

right_of : (xs ys : List ℕ) (k j : ℕ) → j ≡ length xs + k → get_or (xs ++ ys) j 0 ≡ get_or ys k 0
right_of [] ys k j h = ap (λ i. get_or ys i 0) (omega arith)
right_of (x ∷ xs) ys k zero h = absurd (omega arith)
right_of (x ∷ xs) ys k (suc j) h = right_of xs ys k j (omega arith)

get_or-take : (xs : List ℕ) (n j : ℕ) → j < n → get_or (take n xs) j 0 ≡ get_or xs j 0
get_or-take xs zero j h = absurd (omega arith)
get_or-take [] (suc n) j h = refl
get_or-take (x ∷ xs) (suc n) zero h = refl
get_or-take (x ∷ xs) (suc n) (suc j) h = get_or-take xs n j (omega arith)

pub get_or-drop : (xs : List ℕ) (n j k : ℕ) → k ≡ n + j → get_or (drop n xs) j 0 ≡ get_or xs k 0
get_or-drop xs zero j k h = ap (λ i. get_or xs i 0) (omega arith)
get_or-drop [] (suc n) j k h = refl
get_or-drop (x ∷ xs) (suc n) j zero h = absurd (omega arith)
get_or-drop (x ∷ xs) (suc n) j (suc k) h = get_or-drop xs n j k (omega arith)

pub length-take : (xs : List ℕ) (n : ℕ) → n ≤ length xs → length (take n xs) ≡ n
length-take xs zero h = refl
length-take [] (suc n) h = absurd (omega arith)
length-take (x ∷ xs) (suc n) h = ap suc (length-take xs n (omega arith))

pub drop-length : (xs : List ℕ) (n : ℕ) → length (drop n xs) ≡ length xs - n
drop-length xs zero = omega arith
drop-length [] (suc n) = omega arith
drop-length (x ∷ xs) (suc n) = omega (arith, drop-length xs n)

module _ (old source : List ℕ) (at n : ℕ) (fits : at + n ≤ length old)
    (given : n ≤ length source) where
  head_is : length (take at old) ≡ at
  head_is = length-take old at (omega arith)

  piece_is : length (take n (take n source)) ≡ n
  piece_is = length-take (take n source) n (omega (arith, length-take source n given))

  pub length-copy_to : length (copy_to old at (take n source) n) ≡ length old
  unfolding copy_to
  length-copy_to = omega (
    arith,
    length-append (take at old) (take n (take n source) ++ drop (at + n) old),
    length-append (take n (take n source)) (drop (at + n) old),
    head_is,
    piece_is,
    drop-length old (at + n),
  )

  pub get_or-copy_to :
      (j : ℕ)
      → get_or (copy_to old at (take n source) n) j 0 ≡ patched (λ i. get_or old i 0) at n source j
  unfolding copy_to
  get_or-copy_to j = elim (Bool-cases (leb at j)) [
    | inr e ↦ let l : j < at = ground arith in rw e (before l)
    | inl e ↦ elim (Bool-cases (ltb j (at + n))) [
      | inl e' ↦
          let l : at ≤ j = ground arith in
          let l' : j < at + n = ground arith in rw (e, e') (within l l')
      | inr e' ↦ let l : at + n ≤ j = ground arith in rw (e, e') (behind l)
    ]
  ]
    where
      before :
          j < at
          → get_or (take at old ++ (take n (take n source) ++ drop (at + n) old)) j 0
            ≡ get_or old j 0
      before l = left_of (take at old) _ j (omega (arith, head_is)) ∙ get_or-take old at j l

      within :
          at ≤ j
          → j < at + n
          → get_or (take at old ++ (take n (take n source) ++ drop (at + n) old)) j 0
            ≡ get_or source (j - at) 0
      within l l' =
          right_of (take at old) _ (j - at) j (omega (arith, head_is))
          ∙ (left_of (take n (take n source)) _ (j - at) (omega (arith, piece_is))
              ∙ (get_or-take (take n source) n (j - at) (omega arith)
                  ∙ get_or-take source n (j - at) (omega arith)))

      behind :
          at + n ≤ j
          → get_or (take at old ++ (take n (take n source) ++ drop (at + n) old)) j 0
            ≡ get_or old j 0
      behind l =
          right_of (take at old) _ (j - at) j (omega (arith, head_is))
          ∙ (right_of (take n (take n source)) _ (j - at - n) (j - at) (omega (arith, piece_is))
              ∙ get_or-drop old (at + n) (j - at - n) j (omega arith))

module _ (host : Host) (faith : Faithful host) where
  abbrev pub after_write : Disk host → ℕ → List ℕ → Disk host
  after_write d b bytes = record d { world = (host.write_at d.handle b bytes d.world).1 }

  pub block_write_lem :
      (b : ℕ) (buf : List ℕ) (d : Disk host)
      → d.active ≡ true
      → b < 8192
      → (block_write host b buf d).1 ≡ after_write d b buf
  unfolding block_write
  block_write_lem b buf d act h = rw (act, in_bounds b h)
