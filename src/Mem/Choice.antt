-- ===== src/Mem/Choice.antt =====
-- What the search loops of `mymalloc` find.
use team_otw_os_labs.Base.{
  ℕ, ◌+◌, ◌-◌, ◌%◌, ◌^◌, ◌≤◌, ◌≡◌, refl, ap, List, [], ◌∷◌, ◌++◌, Bool, true, false, ◌&&◌, Option,
  none, some, arith, ltb, if◌then◌else◌, All, Bool-cases, inl, inr, lt_int, ok, Option-cases,
}
use team_otw_os_labs.Mem.State.{Strategy, not_set, first, best, worst, next_fit, Block, Mem}
use team_otw_os_labs.Mem.Malloc.{fits, first_loop, best_loop, worst_loop, smaller, larger, choose}

-- `u` stands in the list behind `before`.
pub record Found (u : Block) (bs : List Block) : Type 0 where
  pub before : List Block
  pub after : List Block
  pub eq : bs ≡ before ++ u ∷ after

abbrev here : {b u : Block} (bs : List Block) → b ≡ u → Found u (b ∷ bs)
here bs e = record { before = []; after = bs; eq = ap (λ x. x ∷ bs) e }

abbrev there : (b : Block) {u : Block} {bs : List Block} → Found u bs → Found u (b ∷ bs)
there b f = record { before = b ∷ f.before; after = f.after; eq = ap (λ l. b ∷ l) f.eq }

abbrev pub NoneFits : ℕ → List Block → Type 0
NoneFits r = All (λ b. fits r b ≡ false)

-- The outcome of a search among `bs`.
pub record Hit (r : ℕ) (u : Block) (bs : List Block) : Type 0 where
  pub found : Found u bs
  pub good : fits r u ≡ true

pub first_loop-none : (r : ℕ) (bs : List Block) → first_loop r bs ≡ none → NoneFits r bs
unfolding first_loop
first_loop-none r [] e = tt
first_loop-none r (b ∷ bs) e = ground (arith, first_loop-none r bs)

-- The first block that fits: none before it does.
pub first_loop-some :
    (r : ℕ) (u : Block) (bs : List Block)
    → first_loop r bs ≡ some u
    → (h : Hit r u bs) × NoneFits r h.found.before
unfolding first_loop
first_loop-some r u [] e = absurd (ground arith)
first_loop-some r u (b ∷ bs) e = elim (Bool-cases (fits r b)) [
  | inl hit ↦
      let same : b ≡ u = ground arith in
      (record { found = here bs same; good = rw (← same) hit }, tt)
  | inr miss ↦
      let (h, n) = first_loop-some r u bs (ground arith) in
      (record { found = there b h.found; good = h.good }, (miss, n))
]

-- The best-fit and the worst-fit loop keep the fitting block with the least key.
module _ (key : Block → ℕ) where
  prefers : Block → Option Block → Bool
  prefers b none = true
  prefers b (some u) = ltb (key b) (key u)

  select : ℕ → Option Block → List Block → Option Block
  unfolding prefers
  select r acc [] = acc
  select r acc (b ∷ bs) = select r (if fits r b && prefers b acc then some b else acc) bs

  -- A block that is kept came from the list, or was held before it.
  data Source (r : ℕ) (acc : Option Block) (bs : List Block) (u : Block) : Type 0 where
    held : acc ≡ some u → Source r acc bs u
    fresh : Hit r u bs → Source r acc bs u

  select-Source :
      (r : ℕ) (acc : Option Block) (bs : List Block) {u : Block}
      → select r acc bs ≡ some u
      → Source r acc bs u
  unfolding select
  select-Source r acc [] e = held e
  select-Source r acc (b ∷ bs) {u} e =
      elim (select-Source r (if fits r b && prefers b acc then some b else acc) bs e) [
        | held h ↦ elim (Bool-cases (fits r b && prefers b acc)) [
          | inl t ↦
              let same : b ≡ u = ground arith in
              let good : fits r b ≡ true = ground arith in
              fresh (record { found = here bs same; good = rw (← same) good })
          | inr f ↦ held (ground arith)
        ]
        | fresh h ↦ fresh (record { found = there b h.found; good = h.good })
      ]

  abbrev Least : ℕ → Block → List Block → Type 0
  Least r u = All (λ b. fits r b ≡ true → key u ≤ key b)

  AtMost : Block → Option Block → Type 0
  AtMost u none = Unit
  AtMost u (some a) = key u ≤ key a

  AtMost-step :
      (b u : Block) (t : Bool) (acc : Option Block)
      → AtMost u (if t && prefers b acc then some b else acc)
      → AtMost u acc × (t ≡ true → key u ≤ key b)
  unfolding AtMost prefers
  AtMost-step b u true none m = (tt, λ _. m)
  AtMost-step b u false none m = (tt, λ e. cc)
  AtMost-step b u true (some a) m = (ground arith, λ _. ground arith)
  AtMost-step b u false (some a) m = (m, λ e. cc)

  select-Least :
      (r : ℕ) (acc : Option Block) (bs : List Block) {u : Block}
      → select r acc bs ≡ some u
      → AtMost u acc × Least r u bs
  unfolding select AtMost
  select-Least r none [] e = (tt, tt)
  select-Least r (some a) [] e = (ground arith, tt)
  select-Least r acc (b ∷ bs) {u} e =
      let (m, l) = select-Least r (if fits r b && prefers b acc then some b else acc) bs e in
      let (n, k) = AtMost-step b u (fits r b) acc m in (n, (k, l))

  select-none :
      (r : ℕ) (acc : Option Block) (bs : List Block)
      → select r acc bs ≡ none
      → (acc ≡ none) × NoneFits r bs
  unfolding select prefers
  select-none r acc [] e = (e, tt)
  select-none r acc (b ∷ bs) e =
      ground (arith, select-none r (if fits r b && prefers b acc then some b else acc) bs e)

  select-Hit :
      (r : ℕ) (bs : List Block) {u : Block} → select r none bs ≡ some u → Hit r u bs × Least r u bs
  select-Hit r bs e = elim (select-Source r none bs e) [
    | held h ↦ absurd (ground arith)
    | fresh h ↦ (h, (select-Least r none bs e).1)
  ]

unfoldable pub best_key : Block → ℕ
best_key b = (b.size + 2 ^ 31) % 2 ^ 32

unfoldable pub worst_key : Block → ℕ
worst_key b = 2 ^ 32 - (b.size + 2 ^ 31) % 2 ^ 32

smaller-prefers : (b : Block) (o : Option Block) → smaller b o ≡ prefers best_key b o
unfolding smaller prefers best_key lt_int
smaller-prefers b none = refl
smaller-prefers b (some u) = refl

larger-prefers : (b : Block) (o : Option Block) → larger b o ≡ prefers worst_key b o
unfolding larger prefers worst_key lt_int
larger-prefers b none = refl
larger-prefers b (some u) = ground arith

best_loop-select :
    (r : ℕ) (acc : Option Block) (bs : List Block) → best_loop r acc bs ≡ select best_key r acc bs
unfolding best_loop select
best_loop-select r acc [] = refl
best_loop-select r acc (b ∷ bs) =
    rw (smaller-prefers)
      (best_loop-select r (if fits r b && prefers best_key b acc then some b else acc) bs)

worst_loop-select :
    (r : ℕ) (acc : Option Block) (bs : List Block) → worst_loop r acc bs ≡ select worst_key r acc bs
unfolding worst_loop select
worst_loop-select r acc [] = refl
worst_loop-select r acc (b ∷ bs) =
    rw (larger-prefers)
      (worst_loop-select r (if fits r b && prefers worst_key b acc then some b else acc) bs)

-- The strategies that look at every node's size.
abbrev pub Searches : Strategy → Type 0
Searches first = Unit
Searches best = Unit
Searches worst = Unit
Searches _ = ⊥

-- What `first`, `best` and `worst` say of the block that they choose.
abbrev pub IsChoice : Strategy → (r : ℕ) (u : Block) (bs : List Block) → Hit r u bs → Type 0
IsChoice first r u bs h = NoneFits r h.found.before
IsChoice best r u bs h = All (λ b. fits r b ≡ true → best_key u ≤ best_key b) bs
IsChoice worst r u bs h = All (λ b. fits r b ≡ true → worst_key u ≤ worst_key b) bs
IsChoice _ r u bs h = ⊥

pub data Chosen (s : Strategy) (r : ℕ) (bs : List Block) (o : Option Block) : Type 0 where
  nothing : o ≡ none → NoneFits r bs → Chosen s r bs o
  something : (u : Block) → o ≡ some u → (h : Hit r u bs) → IsChoice s r u bs h → Chosen s r bs o

first-Chosen : (r : ℕ) (bs : List Block) → Chosen first r bs (first_loop r bs)
first-Chosen r bs = elim (Option-cases (first_loop r bs)) [
  | inl e ↦ nothing e (first_loop-none r bs e)
  | inr (u, e) ↦ let (h, n) = first_loop-some r u bs e in something u e h n
]

best-Chosen : (r : ℕ) (bs : List Block) → Chosen best r bs (best_loop r none bs)
best-Chosen r bs = rw best_loop-select (elim (Option-cases (select best_key r none bs)) [
  | inl e ↦ nothing e (select-none best_key r none bs e).1
  | inr (u, e) ↦ let (h, n) = select-Hit best_key r bs e in something u e h n
])

worst-Chosen : (r : ℕ) (bs : List Block) → Chosen worst r bs (worst_loop r none bs)
worst-Chosen r bs = rw worst_loop-select (elim (Option-cases (select worst_key r none bs)) [
  | inl e ↦ nothing e (select-none worst_key r none bs e).1
  | inr (u, e) ↦ let (h, n) = select-Hit worst_key r bs e in something u e h n
])

pub choose-Chosen :
    (s : Strategy) (r : ℕ) (m : Mem)
    → Searches s
    → (o : Option Block) × (choose s r m ≡ ok o) × Chosen s r m.blocks o
unfolding choose
choose-Chosen first r m h = (first_loop r m.blocks, refl, first-Chosen r m.blocks)
choose-Chosen best r m h = (best_loop r none m.blocks, refl, best-Chosen r m.blocks)
choose-Chosen worst r m h = (worst_loop r none m.blocks, refl, worst-Chosen r m.blocks)
choose-Chosen not_set r m h = elim h [ ]
choose-Chosen next_fit r m h = elim h [ ]
