-- ===== src/Mem/Regions.antt =====
-- The allocations of a heap as regions of the pool.
use team_otw_os_labs.Base.{
  ℕ, ◌+◌, ◌<◌, ◌≤◌, ◌≡◌, ◌≢◌, ap, ◌∙◌, sym, List, [], ◌∷◌, ◌++◌, Bool-cases, inl, inr, arith, ◌==◌,
  ok, ok-fst, ok-snd, false,
}
use team_otw_os_labs.Mem.State.{null, Block, Mem}
use team_otw_os_labs.Mem.Layout.{total, Tiles, Sized}
use team_otw_os_labs.Mem.Valid.{IsValid}
use team_otw_os_labs.Mem.Malloc.{mymalloc}
use team_otw_os_labs.Mem.Choice.{Found, Searches}
use team_otw_os_labs.Mem.Carve.{pieces}
use team_otw_os_labs.Mem.Granted.{carved, refused, granted, mymalloc_lem, bounds}
use team_otw_os_labs.Mem.Live.{live, live-append}

-- From `lo` to `hi` the regions follow one another, each of at least one byte, and none overlaps
-- another.
abbrev pub InOrder : ℕ → ℕ → List (ℕ × ℕ) → Type 0
InOrder lo hi [] = lo ≤ hi
InOrder lo hi ((p, n) ∷ l) = (lo ≤ p) × (0 < n) × InOrder (p + n) hi l

InOrder-weaken : (lo lo' hi : ℕ) (l : List (ℕ × ℕ)) → lo ≤ lo' → InOrder lo' hi l → InOrder lo hi l
InOrder-weaken lo lo' hi [] h k = omega arith
InOrder-weaken lo lo' hi ((p, n) ∷ l) h k = (omega arith, k.1, k.2)

live-InOrder :
    (p hi : ℕ) (bs : List Block)
    → Tiles p bs
    → Sized bs
    → p + total bs ≡ hi
    → InOrder p hi (live bs)
live-InOrder p hi [] t s e = omega arith
live-InOrder p hi (b ∷ bs) t s e =
    let ih = live-InOrder (p + b.size) hi bs t.1 s.1 (omega arith) in
    elim (Bool-cases b.alloc) [
      | inl a ↦ rw a (
        omega arith,
        s.0,
        InOrder-weaken (b.ptr + b.size) (p + b.size) hi (live bs) (omega arith) ih,
      )
      | inr n ↦ rw n (InOrder-weaken p (p + b.size) hi (live bs) (omega arith) ih)
    ]

-- The allocations of a valid heap lie in the pool, and no two overlap.
pub live-Disjoint :
    (m : Mem) → IsValid m → InOrder m.my_memory (m.my_memory + m.my_size) (live m.blocks)
live-Disjoint m v =
    live-InOrder m.my_memory (m.my_memory + m.my_size) m.blocks v.layout.tiles v.layout.sized
      (omega (arith, v.layout.whole))

-- A list with one entry more.
pub record Inserted (p n : ℕ) (l l' : List (ℕ × ℕ)) : Type 0 where
  pub before : List (ℕ × ℕ)
  pub after : List (ℕ × ℕ)
  pub old : l ≡ before ++ after
  pub new : l' ≡ before ++ (p, n) ∷ after

live-pieces :
    (fresh r : ℕ) (u : Block) (ys : List Block)
    → live (pieces fresh r u ++ ys) ≡ (u.ptr, r) ∷ live ys
live-pieces fresh r u ys = elim (Bool-cases (u.size == r)) [
  | inl e ↦ let s : u.size ≡ r = ground arith in rw e (ap (λ k. (u.ptr, k) ∷ live ys) s)
  | inr n ↦ rw n
]

carved-Inserted :
    (fresh r : ℕ) (m : Mem) (u : Block) (f : Found u m.blocks)
    → u.alloc ≡ false
    → Inserted u.ptr r (live m.blocks) (live (carved fresh r m u f).blocks)
carved-Inserted fresh r m u f free = record {
  before = live f.before;
  after = live f.after;
  old = ap live f.eq ∙ live-append f.before (u ∷ f.after) ∙ (rw free);
  new = live-append f.before (pieces fresh r u ++ f.after) ∙ (rw live-pieces);
}

-- On a valid heap under first-, best- or worst-fit a call of `mymalloc` that does not return NULL
-- adds one allocation, of the requested size at the returned address, and keeps all others; one
-- that returns NULL changes nothing.
pub mymalloc-live :
    (fresh r p : ℕ) (m m' : Mem)
    → Searches m.my_strategy
    → IsValid m
    → mymalloc fresh r m ≡ ok (p, m')
    → (p ≡ null → m' ≡ m) × (p ≢ null → Inserted p r (live m.blocks) (live m'.blocks))
mymalloc-live fresh r p m m' s v e = elim (mymalloc_lem fresh r m s v) [
  | refused t e' ↦ let x = sym e' ∙ e in (λ _. sym (ok-snd x), λ n. absurd (n (sym (ok-fst x))))
  | granted u f free le k e' ↦
      let x = sym e' ∙ e in
      (
        λ z. absurd (omega (arith, (bounds v f).pos, ok-fst x, z)),
        λ n. rw (← ok-fst x, ← ok-snd x) (carved-Inserted fresh r m u f free),
      )
]
