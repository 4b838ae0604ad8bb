-- ===== src/Mem/Granted.antt =====
-- `mymalloc` with a strategy that searches: what it returns and what it leaves.
use team_otw_os_labs.Base.{
  ℕ, ◌+◌, ◌^◌, ◌<◌, ◌≤◌, ◌≡◌, refl, List, [], ◌∷◌, ◌++◌, true, false, some, arith, All, All-zip,
  All-split, IsSmall, Run, ok,
}
use team_otw_os_labs.Mem.State.{null, Strategy, not_set, first, best, worst, next_fit, Block, Mem}
use team_otw_os_labs.Mem.Layout.{total, IsLayout, around}
use team_otw_os_labs.Mem.Valid.{IsValid}
use team_otw_os_labs.Mem.Malloc.{fits, is_next_fit, is_set, take_block, mymalloc}
use team_otw_os_labs.Mem.Choice.{
  Found, NoneFits, Hit, Searches, IsChoice, nothing, something, choose-Chosen, best_key, worst_key,
}
use team_otw_os_labs.Mem.Carve.{pieces, splice-append, split-pieces, fits_small, fits-of_le}

-- The heap that results from a block of `r` bytes taken out of the node `u`.
abbrev pub carved : (fresh r : ℕ) (m : Mem) (u : Block) → Found u m.blocks → Mem
carved fresh r m u f = record m { blocks = f.before ++ (pieces fresh r u ++ f.after) }

abbrev pub TooSmall : ℕ → List Block → Type 0
TooSmall r = All (λ b. b.alloc ≡ false → b.size < r)

-- Which of the free nodes that are large enough a strategy takes.
abbrev pub Picks : Strategy → (r : ℕ) (u : Block) (bs : List Block) → Found u bs → Type 0
Picks first r u bs f = TooSmall r f.before
Picks best r u bs f = All (λ b. b.alloc ≡ false → r ≤ b.size → u.size ≤ b.size) bs
Picks worst r u bs f = All (λ b. b.alloc ≡ false → r ≤ b.size → b.size ≤ u.size) bs
Picks _ r u bs f = ⊥

-- All that `mymalloc` can do to a valid heap under a strategy that searches.
pub data Malloced (fresh r : ℕ) (m : Mem) (out : Run (ℕ × Mem)) : Type 0 where
  refused : TooSmall r m.blocks → out ≡ ok (null, m) → Malloced fresh r m out
  granted :
      (u : Block) (f : Found u m.blocks)
      → u.alloc ≡ false
      → r ≤ u.size
      → Picks m.my_strategy r u m.blocks f
      → out ≡ ok (u.ptr, carved fresh r m u f)
      → Malloced fresh r m out

pub All-IsSmall :
    (n : ℕ) (bs : List Block) → total bs ≤ n → IsSmall n → All (λ b. IsSmall b.size) bs
All-IsSmall n [] h s = tt
All-IsSmall n (b ∷ bs) h s = (omega arith, All-IsSmall n bs (omega arith) s)

too_small : (r : ℕ) (bs : List Block) → All (λ b. IsSmall b.size) bs → NoneFits r bs → TooSmall r bs
too_small r = All-zip λ b s (n : fits r b ≡ false) free. ground (arith, fits-of_le r b s)

Searches-is_set : (s : Strategy) → Searches s → (is_set s ≡ true) × (is_next_fit s ≡ false)
unfolding is_set is_next_fit
Searches-is_set first h = (refl, refl)
Searches-is_set best h = (refl, refl)
Searches-is_set worst h = (refl, refl)
Searches-is_set not_set h = elim h [ ]
Searches-is_set next_fit h = elim h [ ]

Hit-Picks :
    (s : Strategy) (r : ℕ) (u : Block) (bs : List Block) (h : Hit r u bs)
    → All (λ b. IsSmall b.size) bs
    → IsSmall u.size
    → All (λ b. IsSmall b.size) h.found.before
    → IsChoice s r u bs h
    → Picks s r u bs h.found
unfolding best_key worst_key
Hit-Picks first r u bs h small us front c = too_small r h.found.before front c
Hit-Picks best r u bs h small us front c =
    All-zip {P = λ b. IsSmall b.size} {Q = λ b. fits r b ≡ true → best_key u ≤ best_key b}
      {R = λ b. b.alloc ≡ false → r ≤ b.size → u.size ≤ b.size}
      (λ b s k free le. ground (arith, k (fits-of_le r b s le free))) bs small c
Hit-Picks worst r u bs h small us front c =
    All-zip {P = λ b. IsSmall b.size} {Q = λ b. fits r b ≡ true → worst_key u ≤ worst_key b}
      {R = λ b. b.alloc ≡ false → r ≤ b.size → b.size ≤ u.size}
      (λ b s k free le. ground (arith, k (fits-of_le r b s le free))) bs small c
Hit-Picks not_set r u bs h small us front c = elim c [ ]
Hit-Picks next_fit r u bs h small us front c = elim c [ ]

-- The sizes and the place of a node of a valid heap.
pub record Bounds (m : Mem) (u : Block) : Type 0 where
  pub small : IsSmall u.size
  pub space : u.ptr + u.size < 2 ^ 64
  pub pos : 0 < u.ptr
  pub above : m.my_memory ≤ u.ptr
  pub sized : 0 < u.size

pub bounds : {m : Mem} (v : IsValid m) {u : Block} (f : Found u m.blocks) → Bounds m u
bounds {m} v {u} f =
    let l : IsLayout m.my_memory m.my_size (f.before ++ u ∷ f.after) = rw f.eq at v.layout in
    let a = around f.before u f.after l in
    record {
      small = omega (arith, a.sizes, v.small);
      space = omega (arith, a.sizes, a.place, v.in_space);
      pos = omega (arith, a.place, v.pool);
      above = omega (arith, a.place);
      sized = a.sized;
    }

take_block_lem :
    (fresh r : ℕ) (m : Mem) (u : Block) (f : Found u m.blocks)
    → IsValid m
    → is_next_fit m.my_strategy ≡ false
    → r ≤ u.size
    → take_block fresh r m (some u) ≡ ok (u.ptr, carved fresh r m u f)
unfolding take_block
take_block_lem fresh r m u f v nf le =
    let l : IsLayout m.my_memory m.my_size (f.before ++ u ∷ f.after) = rw f.eq at v.layout in
    let a = around f.before u f.after l in
    let b = bounds v f in
    rw (
      nf,
      f.eq,
      split-pieces fresh r u b.small le b.space,
      splice-append f.before u _ f.after a.not_before,
    )

-- On a valid heap under first-, best- or worst-fit `mymalloc` returns NULL and changes nothing if
-- every free node is too small; otherwise it takes the block out of the node that the strategy
-- picks.
pub mymalloc_lem :
    (fresh r : ℕ) (m : Mem)
    → Searches m.my_strategy
    → IsValid m
    → Malloced fresh r m (mymalloc fresh r m)
unfolding mymalloc take_block
mymalloc_lem fresh r m s v =
    let (o, e, c) = choose-Chosen m.my_strategy r m s in
    let t = Searches-is_set m.my_strategy s in
    let small = All-IsSmall m.my_size m.blocks (omega (arith, v.layout.whole)) v.small in
    elim c [
      | nothing e' n ↦ refused (too_small r m.blocks small n) (rw (t.0, e, e'))
      | something u e' h p ↦
          let b = bounds v h.found in
          let g = fits_small r u b.small h.good in
          let front =
            (All-split (λ (x : Block). IsSmall x.size) h.found.before (u ∷ h.found.after)
              (rw h.found.eq at small)).0 in
          granted u h.found g.1 g.0 (Hit-Picks m.my_strategy r u m.blocks h small b.small front p)
            (rw (t.0, e, e') (take_block_lem fresh r m u h.found v t.1 g.0))
    ]
