-- ===== src/Mem/RoundTrip.antt =====
-- `myfree` undoes `mymalloc`.
use team_otw_os_labs.Base.{
  ℕ, ◌-◌, ◌≤◌, ◌≡◌, ◌≢◌, refl, ap, ◌∙◌, sym, List, [], ◌∷◌, ◌++◌, Bool-cases, inl, inr, arith, ◌==◌,
  if◌then◌else◌, All, true, false, ok, ok-fst, ok-snd, IsSmall, add_int_small, not,
}
use mathlib.Core.Bool.{true≢false}
use team_otw_os_labs.Mem.State.{null, Block, Mem}
use team_otw_os_labs.Mem.Layout.{IsLayout, around, has_node, ends_free, Coalesced}
use team_otw_os_labs.Mem.Valid.{IsValid}
use team_otw_os_labs.Mem.Malloc.{mymalloc}
use team_otw_os_labs.Mem.Choice.{Found, Searches}
use team_otw_os_labs.Mem.Carve.{used, rest}
use team_otw_os_labs.Mem.Granted.{carved, refused, granted, mymalloc_lem, bounds}
use team_otw_os_labs.Mem.Free.{merge_loop, myfree}
use team_otw_os_labs.Mem.Merge.{
  joined, moved, free_loop-append, MergedRight, merge_loop_stop, merge_blocks-right,
}
use team_otw_os_labs.Mem.Dispose.{ptrs-before}

with_blocks : Mem → List Block → Mem
with_blocks m bs = record m { blocks = bs }

myfree_at :
    (m : Mem) (xs : List Block) (u : Block) (ys : List Block)
    → All (λ b. b.ptr ≢ u.ptr) xs
    → ends_free false xs ≡ false
    → (r : MergedRight m.next (record u { alloc = false }) ys)
    → myfree u.ptr (with_blocks m (xs ++ u ∷ ys))
      ≡ record m { blocks = xs ++ joined u r.taken ∷ r.left; next = moved m.next u.node r.taken }
unfolding myfree with_blocks
myfree_at m xs u ys h e r =
    ap (λ (t : List Block × ℕ). record m { blocks = t.0; next = t.1 })
      (free_loop-append m.next u.ptr [] xs u ys h refl
        ∙ merge_blocks-right m.next xs (record u { alloc = false }) ys refl e r)

merged_none : (next : ℕ) (b : Block) (ys : List Block) → Coalesced true ys → MergedRight next b ys
merged_none next b ys c = record {
  taken = [];
  left = ys;
  eq = refl;
  stop = c;
  dead = refl;
  lem = merge_loop_stop next b ys c ∙ (ground arith);
}

merged_rest :
    (next fresh r : ℕ) (u : Block) (ys : List Block)
    → Coalesced true ys
    → IsSmall u.size
    → r ≤ u.size
    → MergedRight next (record u { alloc = false; size = r }) (rest fresh r u ∷ ys)
unfolding merge_loop
merged_rest next fresh r u ys c small le = record {
  taken = rest fresh r u ∷ [];
  left = ys;
  eq = refl;
  stop = c;
  dead = refl;
  lem = ground (
    arith,
    add_int_small r (u.size - r),
    merge_loop_stop (if next == fresh then u.node else next) (record u { alloc = false }) ys c,
  );
}

put_back :
    (m : Mem) (xs : List Block) {u : Block} (w : Block) (ys : List Block) (n : ℕ)
    → m.blocks ≡ xs ++ u ∷ ys
    → w ≡ u
    → n ≡ m.next
    → record m { blocks = xs ++ w ∷ ys; next = n } ≡ m
put_back m xs w ys n e k h =
    let bs : xs ++ w ∷ ys ≡ m.blocks = ap (λ b. xs ++ b ∷ ys) k ∙ sym e in
    λ i. record m { blocks = bs i; next = h i }

exact_back :
    (m : Mem) (xs : List Block) (u : Block) (ys : List Block)
    → m.blocks ≡ xs ++ u ∷ ys
    → u.alloc ≡ false
    → ends_free false xs ≡ false
    → Coalesced true ys
    → All (λ b. b.ptr ≢ u.ptr) xs
    → myfree u.ptr (with_blocks m (xs ++ record u { alloc = true } ∷ ys)) ≡ m
unfolding merged_none
exact_back m xs u ys eq free e c h =
    myfree_at m xs (record u { alloc = true }) ys h e
      (merged_none m.next (record u { alloc = false }) ys c)
    ∙ put_back m xs _ ys _ eq (ground arith) refl

split_back :
    (fresh r : ℕ) (m : Mem) (xs : List Block) (u : Block) (ys : List Block)
    → m.blocks ≡ xs ++ u ∷ ys
    → u.alloc ≡ false
    → ends_free false xs ≡ false
    → Coalesced true ys
    → All (λ b. b.ptr ≢ u.ptr) xs
    → IsSmall u.size
    → r ≤ u.size
    → (fresh == m.next) ≡ false
    → myfree u.ptr (with_blocks m (xs ++ used r u ∷ rest fresh r u ∷ ys)) ≡ m
unfolding merged_rest
split_back fresh r m xs u ys eq free e c h small le n =
    myfree_at m xs (used r u) (rest fresh r u ∷ ys) h e (merged_rest m.next fresh r u ys c small le)
    ∙ put_back m xs _ ys _ eq (ground arith) (rw n)

has_node-ne :
    (p q : ℕ) (bs : List Block) → has_node p bs ≡ false → has_node q bs ≡ true → (p == q) ≡ false
has_node-ne p q bs h k = elim (Bool-cases (p == q)) [
  | inl e ↦ let same : p ≡ q = ground arith in absurd (true≢false (sym k ∙ (rw (← same) h)))
  | inr n ↦ n
]

carved-myfree :
    (fresh r : ℕ) (m : Mem) (u : Block) (f : Found u m.blocks)
    → IsValid m
    → u.alloc ≡ false
    → r ≤ u.size
    → has_node fresh m.blocks ≡ false
    → myfree u.ptr (carved fresh r m u f) ≡ m
unfolding with_blocks
carved-myfree fresh r m u f v free le unused =
    let xs = f.before in
    let ys = f.after in
    let l : IsLayout m.my_memory m.my_size (xs ++ u ∷ ys) = rw f.eq at v.layout in
    let a = around xs u ys l in
    let h =
      ptrs-before m.my_memory u.ptr xs a.tiles_before a.sized_before (omega (arith, a.place)) in
    let e : ends_free false xs ≡ false = ground (arith, a.joint) in
    let c : Coalesced true ys = rw (ap not free) at a.coalesced_after in
    let n = has_node-ne fresh m.next m.blocks unused v.rover in
    elim (Bool-cases (u.size == r)) [
      | inl q ↦ rw q (exact_back m xs u ys f.eq free e c h)
      | inr q ↦ rw q (split_back fresh r m xs u ys f.eq free e c h (bounds v f).small le n)
    ]

-- On a valid heap under first-, best- or worst-fit, and with a new node at an address that no node
-- has, freeing at once what `mymalloc` returned, if it is not NULL, restores the heap exactly: the
-- nodes, their sizes, the pool and `next`.
pub myfree-mymalloc :
    (fresh r p : ℕ) (m m' : Mem)
    → Searches m.my_strategy
    → IsValid m
    → has_node fresh m.blocks ≡ false
    → mymalloc fresh r m ≡ ok (p, m')
    → p ≢ null
    → myfree p m' ≡ m
myfree-mymalloc fresh r p m m' s v unused e ne = elim (mymalloc_lem fresh r m s v) [
  | refused t e' ↦ absurd (ne (sym (ok-fst (sym e' ∙ e))))
  | granted u f free le k e' ↦
      let x = sym e' ∙ e in
      rw (← ok-fst x, ← ok-snd x) (carved-myfree fresh r m u f v free le unused)
]
