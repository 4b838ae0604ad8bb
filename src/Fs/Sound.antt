-- ===== src/Fs/Sound.antt =====
-- Files whose blocks are laid out well, and the table of the blocks that are in use.
use team_otw_os_labs.Base.{
  ℕ, ◌+◌, ◌-◌, ◌*◌, ◌<◌, ◌≤◌, ◌≡◌, ◌≢◌, List, length, get_or, set, arith, get_or-set, get_or-set_ne,
  load-get_or, length-set, ◌⊎◌, ◌==◌, Bool-cases, inl, inr, ◌∙◌, ap, sym,
}
use team_otw_os_labs.Fs.State.{FileMeta}
use team_otw_os_labs.Fs.Files.{file_size}
use team_otw_os_labs.Fs.Cut.{IsSized, file_size-small}
use team_otw_os_labs.Fs.Least.{HasBlocks}
use team_otw_os_labs.Fs.Wrote.{Apart}
use team_otw_os_labs.Fs.Write.{IsData}

-- The file has a full list of entries, of which the first `num_blocks` are different data blocks.
pub record IsLaidOut (f : FileMeta) : Type 0 where
  pub room : length f.blocks ≡ 4096
  pub few : f.num_blocks ≤ 4096
  pub last_block : f.size_last ≤ 4096
  pub in_data :
      (k : ℕ) → k < f.num_blocks → (4096 ≤ get_or f.blocks k 0) × (get_or f.blocks k 0 < 8192)
  pub apart : Apart f

-- The file's blocks are in use.
abbrev pub Marked : List ℕ → FileMeta → Type 0
Marked usage f = (k : ℕ) → k < f.num_blocks → get_or usage (get_or f.blocks k 0 - 4096) 0 ≢ 0

module _ (f : FileMeta) (l : IsLaidOut f) where
  pub blocks_of : HasBlocks f
  blocks_of k h =
      let room = l.room in
      let few = l.few in (load-get_or f.blocks k 0 (omega arith), (l.in_data k h).1)

  pub in_second_half : IsData f
  in_second_half k h = (l.in_data k h).0

  pub shape_of : 0 < f.num_blocks → IsSized f
  shape_of h = record { some_block = h; few_blocks = l.few; last_block = l.last_block }

  pub size-add-block : 0 < f.num_blocks → file_size f + 4096 ≡ f.num_blocks * 4096 + f.size_last
  size-add-block h = omega (arith, file_size-small f (shape_of h))

pub size_none : (f : FileMeta) → f.num_blocks ≡ 0 → file_size f ≡ 0
unfolding file_size
size_none f h = rw h

-- A file with one more block, which is still empty.
abbrev pub longer : ℕ → FileMeta → FileMeta
longer b f = record f {
  blocks = set f.blocks f.num_blocks (b + 4096);
  num_blocks = f.num_blocks + 1;
  size_last = 0;
}

module _ (usage : List ℕ) (f : FileMeta) (l : IsLaidOut f) (marks : Marked usage f) (b : ℕ)
    (small : b < 4096) (unused : get_or usage b 0 ≡ 0) (more : f.num_blocks < 4096) where
  pub old_entry : (k : ℕ) → k < f.num_blocks → get_or (longer b f).blocks k 0 ≡ get_or f.blocks k 0
  old_entry k h = get_or-set_ne f.blocks f.num_blocks k (b + 4096) 0 (λ e. omega arith)

  pub new_entry : get_or (longer b f).blocks f.num_blocks 0 ≡ b + 4096
  new_entry = let room = l.room in get_or-set f.blocks f.num_blocks (b + 4096) 0 (omega arith)

  pub old_ne : (k : ℕ) → k < f.num_blocks → get_or f.blocks k 0 ≢ b + 4096
  old_ne k h e =
      let index : get_or f.blocks k 0 - 4096 ≡ b = omega arith in
      marks k h (ap (λ j. get_or usage j 0) index ∙ unused)

  -- An entry of the longer file is the new one or an old one.
  pub entry_is :
      (k : ℕ)
      → k < f.num_blocks + 1
      → ((k ≡ f.num_blocks) × (get_or (longer b f).blocks k 0 ≡ b + 4096))
        ⊎ ((k < f.num_blocks) × (get_or (longer b f).blocks k 0 ≡ get_or f.blocks k 0))
  entry_is k h = elim (Bool-cases (k == f.num_blocks)) [
    | inl e ↦
        let q : k ≡ f.num_blocks = ground arith in
        inl (q, ap (λ j. get_or (longer b f).blocks j 0) q ∙ new_entry)
    | inr e ↦ let lt : k < f.num_blocks = ground arith in inr (lt, old_entry k lt)
  ]

  in_data_longer :
      (k : ℕ)
      → k < f.num_blocks + 1
      → (4096 ≤ get_or (longer b f).blocks k 0) × (get_or (longer b f).blocks k 0 < 8192)
  in_data_longer k h = elim (entry_is k h) [
    | inl (q, e) ↦ (omega (arith, e), omega (arith, e))
    | inr (lt, e) ↦
        let (low, high) = l.in_data k lt in (omega (arith, e, low), omega (arith, e, high))
  ]

  entries_differ : Apart (longer b f)
  entries_differ k m hk hm ne same = elim (entry_is k hk) [
    | inl (q, e) ↦ elim (entry_is m hm) [
      | inl (q', e') ↦ ne (q ∙ sym q')
      | inr (lt', e') ↦ old_ne m lt' (sym e' ∙ (sym same ∙ e))
    ]
    | inr (lt, e) ↦ elim (entry_is m hm) [
      | inl (q', e') ↦ old_ne k lt (sym e ∙ (same ∙ e'))
      | inr (lt', e') ↦ l.apart k m lt lt' ne (sym e ∙ (same ∙ e'))
    ]
  ]

  pub longer-IsLaidOut : IsLaidOut (longer b f)
  longer-IsLaidOut = record {
    room = length-set f.blocks f.num_blocks (b + 4096) ∙ l.room;
    few = omega arith;
    last_block = omega arith;
    in_data = in_data_longer;
    apart = entries_differ;
  }

  pub longer-Marked : length usage ≡ 4096 → Marked (set usage b 1) (longer b f)
  longer-Marked table k h zero_is = elim (entry_is k h) [
    | inl (q, e) ↦
        let index : get_or (longer b f).blocks k 0 - 4096 ≡ b = omega (arith, e) in
        let one = get_or-set usage b 1 0 (omega arith) in
        absurd (omega (arith, one, ap (λ j. get_or (set usage b 1) j 0) index, zero_is))
    | inr (lt, e) ↦
        let index : get_or (longer b f).blocks k 0 - 4096 ≡ get_or f.blocks k 0 - 4096 =
          omega (arith, e) in
        let (low, high) = l.in_data k lt in
        let ne : get_or f.blocks k 0 - 4096 ≢ b = λ q. old_ne k lt (omega (arith, q, low)) in
        marks k lt (
          sym (get_or-set_ne usage b (get_or f.blocks k 0 - 4096) 1 0 ne)
          ∙ (sym (ap (λ j. get_or (set usage b 1) j 0) index) ∙ zero_is))
  ]
