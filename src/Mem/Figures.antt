-- ===== src/Mem/Figures.antt =====
-- `mem_largest_free`, `mem_holes` and `mem_small_free`, and what they say of the next `mymalloc`.
use Prim.Native.Nat.{max}
use team_otw_os_labs.Base.{
  ℕ, ◌+◌, ◌<◌, ◌≤◌, ◌≡◌, ◌↔◌, ◌++◌, refl, List, [], ◌∷◌, false, arith, if◌then◌else◌, leb, length,
  IsSmall, add_int_small, lt_int_small, All, ok,
}
use team_otw_os_labs.Mem.State.{null, Block, Mem}
use team_otw_os_labs.Mem.Layout.{total, Sized}
use team_otw_os_labs.Mem.Valid.{IsValid}
use team_otw_os_labs.Mem.Malloc.{mymalloc}
use team_otw_os_labs.Mem.Choice.{Searches}
use team_otw_os_labs.Mem.Granted.{TooSmall, refused, granted, mymalloc_lem, All-IsSmall, bounds}
use team_otw_os_labs.Mem.Status.{
  mem_holes, holes_loop, mem_largest_free, largest_loop, mem_small_free, small_loop,
}

abbrev pub max_free : List Block → ℕ
max_free [] = 0
max_free (b ∷ bs) = if b.alloc then max_free bs else max b.size (max_free bs)

-- The sizes of the free nodes, and of those among them of at most `n` bytes.
abbrev pub free_sizes : List Block → List ℕ
free_sizes [] = []
free_sizes (b ∷ bs) = if b.alloc then free_sizes bs else b.size ∷ free_sizes bs

abbrev pub count_le : ℕ → List ℕ → ℕ
count_le n [] = 0
count_le n (x ∷ xs) = if leb x n then count_le n xs + 1 else count_le n xs

largest_loop_lem :
    (acc : ℕ) (bs : List Block)
    → IsSmall acc
    → All (λ b. IsSmall b.size) bs
    → largest_loop acc bs ≡ max acc (max_free bs)
unfolding largest_loop
largest_loop_lem acc [] h s = omega arith
largest_loop_lem acc (b ∷ bs) h s = ground (
  arith,
  lt_int_small acc b.size,
  largest_loop_lem acc bs h s.1,
  largest_loop_lem b.size bs s.0 s.1,
)

holes_loop_lem :
    (acc : ℕ) (bs : List Block)
    → Sized bs
    → IsSmall (acc + total bs)
    → holes_loop acc bs ≡ acc + length (free_sizes bs)
unfolding holes_loop
holes_loop_lem acc [] s h = omega arith
holes_loop_lem acc (b ∷ bs) s h =
    ground (arith, add_int_small acc 1, holes_loop_lem acc bs s.1, holes_loop_lem (acc + 1) bs s.1)

small_loop_lem :
    (n acc : ℕ) (bs : List Block)
    → IsSmall n
    → All (λ b. IsSmall b.size) bs
    → Sized bs
    → IsSmall (acc + total bs)
    → small_loop n acc bs ≡ acc + count_le n (free_sizes bs)
unfolding small_loop
small_loop_lem n acc [] k t s h = omega arith
small_loop_lem n acc (b ∷ bs) k t s h = ground (
  arith,
  lt_int_small n b.size,
  add_int_small acc 1,
  small_loop_lem n acc bs k t.1 s.1,
  small_loop_lem n (acc + 1) bs k t.1 s.1,
)

max_free-TooSmall : (r : ℕ) (bs : List Block) → max_free bs < r → TooSmall r bs
max_free-TooSmall r [] h = tt
max_free-TooSmall r (b ∷ bs) h = (λ free. ground arith, max_free-TooSmall r bs (ground arith))

TooSmall-max_free : (r : ℕ) (bs : List Block) → 0 < r → TooSmall r bs → max_free bs < r
TooSmall-max_free r [] p h = p
TooSmall-max_free r (b ∷ bs) p h = ground (arith, h.0, TooSmall-max_free r bs p h.1)

max_free-ge : (u : Block) (xs ys : List Block) → u.alloc ≡ false → u.size ≤ max_free (xs ++ u ∷ ys)
max_free-ge u [] ys e = ground arith
max_free-ge u (x ∷ xs) ys e = ground (arith, max_free-ge u xs ys e)

module _ {m : Mem} (v : IsValid m) where
  mem_largest_free-max_free : mem_largest_free m ≡ max_free m.blocks
  unfolding mem_largest_free
  mem_largest_free-max_free =
      let s = All-IsSmall m.my_size m.blocks (omega (arith, v.layout.whole)) v.small in
      omega (arith, largest_loop_lem 0 m.blocks (omega arith) s)

  -- On a valid heap `mem_holes` counts the free nodes, and `mem_small_free n` those among them of
  -- at most `n` bytes.
  holes-small_free :
      (n : ℕ)
      → IsSmall n
      → (mem_holes m ≡ length (free_sizes m.blocks))
        × (mem_small_free n m ≡ count_le n (free_sizes m.blocks))
  unfolding mem_holes mem_small_free
  holes-small_free n h =
      let s = All-IsSmall m.my_size m.blocks (omega (arith, v.layout.whole)) v.small in
      let t : IsSmall (0 + total m.blocks) = omega (arith, v.layout.whole, v.small) in
      (
        omega (arith, holes_loop_lem 0 m.blocks v.layout.sized t),
        omega (arith, small_loop_lem n 0 m.blocks h s v.layout.sized t),
      )

  -- On a valid heap, under a strategy that searches, a request of at least one byte is refused with
  -- NULL exactly when it is larger than what `mem_largest_free` reports.
  pub mymalloc-largest :
      (fresh r : ℕ)
      → Searches m.my_strategy
      → 0 < r
      → (p : ℕ) × (m' : Mem) × (mymalloc fresh r m ≡ ok (p, m'))
        × ((p ≡ null) ↔ (mem_largest_free m < r))
  mymalloc-largest fresh r s pos = elim (mymalloc_lem fresh r m s v) [
    | refused t e ↦ (
      null,
      m,
      e,
      (λ _. rw mem_largest_free-max_free (TooSmall-max_free r m.blocks pos t), λ _. refl),
    )
    | granted u f free le k e ↦
        let big : u.size ≤ max_free m.blocks = rw f.eq (max_free-ge u f.before f.after free) in
        (
          u.ptr,
          _,
          e,
          (
            λ z. absurd (omega (arith, (bounds v f).pos)),
            λ lt. absurd (omega (arith, mem_largest_free-max_free)),
          ),
        )
  ]
