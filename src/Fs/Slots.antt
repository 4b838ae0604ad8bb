-- ===== src/Fs/Slots.antt =====
-- The loops of `fs_create` and `fs_delete` over the files, and the one that frees blocks.
use team_otw_os_labs.Base.{
  ℕ, zero, suc, ◌+◌, ◌-◌, ◌<◌, ◌≤◌, ◌≡◌, ◌≢◌, ◌==◌, refl, sym, ap, ◌∙◌, Bool, true, false, not,
  List, [], ◌∷◌, Run, ok, Option, none, some, length, load, get_or, set, arith, inl, inr,
  Bool-cases, int_of_short, sub_int, load-get_or, get_or-set, get_or-set_ne, length-set,
  ok-injective,
}
use team_otw_os_labs.Fs.State.{FileMeta}
use team_otw_os_labs.Fs.Files.{unused_loop, used_loop, clear_loop, rounds}
use team_otw_os_labs.Fs.Open.{store-set}
use team_otw_os_labs.Fs.Sound.{IsLaidOut}

-- Every file before the `n`th fails the test.
abbrev pub NoneBefore : (FileMeta → Bool) → List FileMeta → ℕ → Type 0
NoneBefore test metas n = (j : ℕ) (g : FileMeta) → j < n → load metas j ≡ ok g → test g ≡ false

-- The search `r` for the first file that passes the test.
pub data FirstFile (test : FileMeta → Bool) (metas : List FileMeta) (r : Run (Option ℕ))
    : Type 0 where
  nothing : r ≡ ok none → NoneBefore test metas (length metas) → FirstFile test metas r
  first :
      (n : ℕ) (f : FileMeta)
      → r ≡ ok (some n)
      → load metas n ≡ ok f
      → test f ≡ true
      → NoneBefore test metas n
      → FirstFile test metas r

one_more :
    (test : FileMeta → Bool) (metas : List FileMeta) (i : ℕ) (f : FileMeta)
    → NoneBefore test metas i
    → load metas i ≡ ok f
    → test f ≡ false
    → NoneBefore test metas (suc i)
one_more test metas i f before here fails j g h at = elim (Bool-cases (j == i)) [
  | inl q ↦
      let q' : j ≡ i = ground arith in
      let same : f ≡ g = ok-injective (sym here ∙ (ap (load metas) (sym q') ∙ at)) in
      ap test (sym same) ∙ fails
  | inr q ↦ before j g (ground arith) at
]

abbrev pub is_unused : FileMeta → Bool
is_unused f = f.in_use == 0

abbrev pub is_used : FileMeta → Bool
is_used f = not (f.in_use == 0)

-- The file at an index within the array.
entry : (metas : List FileMeta) (i : ℕ) → i < length metas → (f : FileMeta) × (load metas i ≡ ok f)
unfolding load
entry [] i h = absurd (omega arith)
entry (f ∷ metas) zero h = (f, refl)
entry (f ∷ metas) (suc i) h = entry metas i (omega arith)

pub unused_loop-FirstFile :
    (left i : ℕ) (metas : List FileMeta)
    → i + left ≡ length metas
    → NoneBefore is_unused metas i
    → FirstFile is_unused metas (unused_loop left i metas)
unfolding unused_loop
unused_loop-FirstFile zero i metas h before =
    nothing refl (λ j g lt at. before j g (omega arith) at)
unused_loop-FirstFile (suc left) i metas h before =
    let (f, here) = entry metas i (omega arith) in
    elim (Bool-cases (is_unused f)) [
      | inl e ↦ first i f (rw (here, e) refl) here e before
      | inr e ↦
          rw (here, e)
            (unused_loop-FirstFile left (suc i) metas (omega arith)
              (one_more is_unused metas i f before here e))
    ]

pub used_loop-FirstFile :
    (left i : ℕ) (metas : List FileMeta)
    → i + left ≡ length metas
    → NoneBefore is_used metas i
    → FirstFile is_used metas (used_loop left i metas)
unfolding used_loop
used_loop-FirstFile zero i metas h before = nothing refl (λ j g lt at. before j g (omega arith) at)
used_loop-FirstFile (suc left) i metas h before =
    let (f, here) = entry metas i (omega arith) in
    elim (Bool-cases (is_used f)) [
      | inl e ↦ first i f (rw (here, e) refl) here e before
      | inr e ↦
          rw (here, e)
            (used_loop-FirstFile left (suc i) metas (omega arith)
              (one_more is_used metas i f before here e))
    ]

pub rounds_small : (n : ℕ) → n ≤ 4096 → rounds n ≡ n
unfolding rounds
rounds_small n h = ground arith

index_small : (b : ℕ) → 4096 ≤ b → b < 8192 → sub_int (int_of_short b) 4096 ≡ b - 4096
unfolding sub_int int_of_short
index_small b h k = ground arith

-- The place of the file's block `k` in the table.
abbrev pub index_of : FileMeta → ℕ → ℕ
index_of f k = get_or f.blocks k 0 - 4096

module _ (f : FileMeta) (l : IsLaidOut f) where
  pub index_ne :
      (k m : ℕ) → k < f.num_blocks → m < f.num_blocks → k ≢ m → index_of f k ≢ index_of f m
  index_ne k m hk hm ne e =
      let low = (l.in_data k hk).0 in
      let low' = (l.in_data m hm).0 in l.apart k m hk hm ne (omega arith)

  -- The blocks from `k` on are free, and the rest of the table is as it was.
  pub clear_loop_lem :
      (left k : ℕ) (usage : List ℕ)
      → k + left ≡ f.num_blocks
      → length usage ≡ 4096
      → (u : List ℕ) × (clear_loop left k f.blocks usage ≡ ok u)
        × (length u ≡ 4096)
        × ((m : ℕ) → k ≤ m → m < f.num_blocks → get_or u (index_of f m) 0 ≡ 0)
        × ((j : ℕ)
            → ((m : ℕ) → k ≤ m → m < f.num_blocks → j ≢ index_of f m)
            → get_or u j 0 ≡ get_or usage j 0)
  unfolding clear_loop
  clear_loop_lem zero k usage h table =
      (usage, refl, table, λ m low high. absurd (omega arith), λ j other. refl)
  clear_loop_lem (suc left) k usage h table =
      let room = l.room in
      let few = l.few in
      let inside : k < f.num_blocks = omega arith in
      let (low, high) = l.in_data k inside in
      let (u, runs, table1, cleared, others) =
        clear_loop_lem left (suc k) (set usage (index_of f k) 0) (omega arith)
          (length-set usage (index_of f k) 0 ∙ table) in
      (
        u,
        rw (
          load-get_or f.blocks k 0 (omega arith),
          index_small (get_or f.blocks k 0) low high,
          store-set usage (index_of f k) 0 _
              (load-get_or usage (index_of f k) 0 (omega (arith, high))),
          runs,
        ),
        table1,
        λ m from to. elim (Bool-cases (m == k)) [
          | inl q ↦
              let q' : m ≡ k = ground arith in
              ap (λ j. get_or u (index_of f j) 0) q'
              ∙ (others (index_of f k) (λ m' from' to'. index_ne k m' inside to' (λ e. omega arith))
                  ∙ get_or-set usage (index_of f k) 0 0 (omega (arith, high)))
          | inr q ↦ cleared m (ground arith) to
        ],
        λ j other.
            others j (λ m from to. other m (omega arith) to)
            ∙ get_or-set_ne usage (index_of f k) j 0 0 (other k (omega arith) inside),
      )
