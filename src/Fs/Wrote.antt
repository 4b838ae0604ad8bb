-- ===== src/Fs/Wrote.antt =====
-- What a round of `fs_write` leaves in the file.
use team_otw_os_labs.Base.{
  ℕ, ◌+◌, ◌-◌, ◌/◌, ◌%◌, ◌<◌, ◌≤◌, ◌≡◌, ◌≢◌, sym, ap, ◌∙◌, List, true, ◌==◌, ◌&&◌, get_or, length,
  drop, arith, ltb, leb, Bool-cases, inl, inr,
}
use team_otw_os_labs.Disk.{Host}
use team_otw_os_labs.Fs.State.{FileMeta, Descriptor}
use team_otw_os_labs.Fs.Transfer.{Writing}
use team_otw_os_labs.Fs.Content.{Faithful, block_of, byte_of}
use team_otw_os_labs.Fs.Least.{HasBlocks}
use team_otw_os_labs.Fs.Patch.{patched, get_or-copy_to, length-copy_to, get_or-drop}
use team_otw_os_labs.Fs.WriteRound.{written, wrote}

-- The file's blocks are different ones.
abbrev pub Apart : FileMeta → Type 0
Apart f =
    (k l : ℕ)
    → k < f.num_blocks
    → l < f.num_blocks
    → k ≢ l
    → get_or f.blocks k 0 ≢ get_or f.blocks l 0

-- `b` is none of the file's blocks.
abbrev pub NotIn : FileMeta → ℕ → Type 0
NotIn f b = (k : ℕ) → k < f.num_blocks → b ≢ get_or f.blocks k 0

-- One write after another.
pub patched-patched :
    (g : ℕ → ℕ) (c n m : ℕ) (source : List ℕ) (x : ℕ)
    → patched (patched g c n source) (c + n) m (drop n source) x ≡ patched g c (n + m) source x
patched-patched g c n m source x = elim (Bool-cases (leb (c + n) x && ltb x (c + n + m))) [
  | inl e ↦
      let l : c + n ≤ x = ground arith in
      let there : (leb c x && ltb x (c + (n + m))) ≡ true = ground arith in
      rw (e, there) (get_or-drop source n (x - (c + n)) (x - c) (omega arith))
  | inr e ↦
      let there : (leb c x && ltb x (c + (n + m))) ≡ (leb c x && ltb x (c + n)) = ground arith in
      rw (e, there)
]

-- Nothing written.
pub patched-nothing : (g : ℕ → ℕ) (c : ℕ) (source : List ℕ) (x : ℕ) → patched g c 0 source x ≡ g x
patched-nothing g c source x = ground arith

-- Within one block, places in the block and in the file go together.
same_block :
    (g h : ℕ → ℕ) (c n : ℕ) (source : List ℕ) (x : ℕ)
    → x / 4096 ≡ c / 4096
    → h (x % 4096) ≡ g x
    → patched h (c % 4096) n source (x % 4096) ≡ patched g c n source x
same_block g h c n source x q e =
    let le : leb (c % 4096) (x % 4096) ≡ leb c x = ground arith in
    let lt : ltb (x % 4096) (c % 4096 + n) ≡ ltb x (c + n) = ground arith in
    let minus : leb c x ≡ true → x % 4096 - c % 4096 ≡ x - c = λ l. ground arith in
    elim (Bool-cases (leb c x)) [ inl l ↦ rw (le, lt, minus l, e) | inr l ↦ rw (le, l, e) ]

other_block :
    (g : ℕ → ℕ) (c n : ℕ) (source : List ℕ) (x : ℕ)
    → x / 4096 ≢ c / 4096
    → c % 4096 + n ≤ 4096
    → patched g c n source x ≡ g x
other_block g c n source x q room = ground arith

module _ (host : Host) (faith : Faithful host) (f : FileMeta) (blocks : HasBlocks f)
    (apart : Apart f) where
  -- A round keeps every block but the one at the cursor.
  pub wrote_elsewhere :
      (i : ℕ) (d : Descriptor) (n : ℕ) (w : Writing host) (b : ℕ)
      → b ≢ get_or f.blocks (d.cursor / 4096) 0
      → block_of host faith (wrote host faith f blocks i d n w).fs.disk b
        ≡ block_of host faith w.fs.disk b
  wrote_elsewhere i d n w b ne =
      faith.writes_keep _ w.fs.disk.handle (get_or f.blocks (d.cursor / 4096) 0) b _ ne
      ∙ faith.reads_keep w.fs.disk.world w.fs.disk.handle (get_or f.blocks (d.cursor / 4096) 0) b

  -- What a round leaves in the file.
  pub wrote_bytes :
      (i : ℕ) (d : Descriptor) (n : ℕ) (w : Writing host) (x : ℕ)
      → d.cursor % 4096 + n ≤ 4096
      → n ≤ length w.source
      → d.cursor / 4096 < f.num_blocks
      → x / 4096 < f.num_blocks
      → byte_of host faith (wrote host faith f blocks i d n w).fs.disk f x
        ≡ patched (byte_of host faith w.fs.disk f) d.cursor n w.source x
  wrote_bytes i d n w x room given inside here = elim (Bool-cases (x / 4096 == d.cursor / 4096)) [
    | inl e ↦
        let q : x / 4096 ≡ d.cursor / 4096 = ground arith in
        ap
          (λ k.
            get_or
              (block_of host faith (wrote host faith f blocks i d n w).fs.disk
                (get_or f.blocks k 0))
              (x % 4096) 0)
          q
        ∙ (ap (λ l. get_or l (x % 4096) 0) in_block
            ∙ (get_or-copy_to old w.source (d.cursor % 4096) n fits given (x % 4096)
                ∙ same_block (byte_of host faith w.fs.disk f) (λ j. get_or old j 0) d.cursor n
                    w.source x q
                    (ap
                      (λ k.
                        get_or (block_of host faith w.fs.disk (get_or f.blocks k 0)) (x % 4096) 0)
                      (sym q))))
    | inr e ↦
        let q : x / 4096 ≢ d.cursor / 4096 = ground arith in
        ap (λ l. get_or l (x % 4096) 0)
          (wrote_elsewhere i d n w (get_or f.blocks (x / 4096) 0) (apart _ _ here inside q))
        ∙ sym (other_block (byte_of host faith w.fs.disk f) d.cursor n w.source x q room)
  ]
    where
      old : List ℕ
      old = block_of host faith w.fs.disk (get_or f.blocks (d.cursor / 4096) 0)

      fits : d.cursor % 4096 + n ≤ length old
      fits = omega (
        arith,
        faith.whole w.fs.disk.world w.fs.disk.handle (get_or f.blocks (d.cursor / 4096) 0),
        room,
      )

      in_block :
          block_of host faith
            (wrote host faith f blocks i d n w).fs.disk
            (get_or f.blocks (d.cursor / 4096) 0)
          ≡ written host faith f blocks d n w
      in_block =
          faith.writes _ w.fs.disk.handle (get_or f.blocks (d.cursor / 4096) 0) _
            (blocks (d.cursor / 4096) inside).1
            (length-copy_to old w.source (d.cursor % 4096) n fits given
              ∙ faith.whole w.fs.disk.world w.fs.disk.handle (get_or f.blocks (d.cursor / 4096) 0))
