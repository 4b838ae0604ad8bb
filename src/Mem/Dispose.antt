-- ===== src/Mem/Dispose.antt =====
-- `myfree` keeps the invariant and gives back one allocation.
use team_otw_os_labs.Base.{
  ℕ, ◌+◌, ◌<◌, ◌≤◌, ◌≡◌, ◌≢◌, refl, ap, ◌∙◌, sym, List, [], ◌∷◌, ◌++◌, arith, ◌==◌, if◌then◌else◌,
  All, true,
}
use team_otw_os_labs.Mem.State.{Block, Mem}
use team_otw_os_labs.Mem.Layout.{total, Tiles, Sized, IsLayout, around, has_node, has_node-append}
use team_otw_os_labs.Mem.Valid.{IsValid}
use team_otw_os_labs.Mem.Free.{myfree}
use team_otw_os_labs.Mem.Live.{live, live-append}
use team_otw_os_labs.Mem.Merge.{joined, joined-IsLayout, moved}
use team_otw_os_labs.Mem.Freed.{Freed, freed, ignored, released, myfree_lem}

rover_kept :
    (n : ℕ) (xs : List Block) (q : Block) (zs ys : List Block)
    → has_node n (xs ++ q ∷ (zs ++ ys)) ≡ true
    → has_node (moved n q.node zs) (xs ++ joined q zs ∷ ys) ≡ true
rover_kept n xs q zs ys h = ground (
  arith,
  has_node-append n xs (q ∷ (zs ++ ys)),
  has_node-append n zs ys,
  has_node-append n xs (joined q zs ∷ ys),
  has_node-append q.node xs (joined q zs ∷ ys),
)

freed-IsValid : {u : Block} (m : Mem) (f : Freed u m.blocks) → IsValid m → IsValid (freed m f)
freed-IsValid m f v = record {
  layout =
      joined-IsLayout f.front f.block f.taken f.back (rw f.eq at v.layout) f.left_stop f.right_stop;
  small = v.small;
  pool = v.pool;
  in_space = v.in_space;
  rover = rover_kept m.next f.front f.block f.taken f.back (rw f.eq at v.rover);
}

-- `myfree` leaves a valid heap, whatever address it is given.
pub myfree-IsValid : (p : ℕ) (m : Mem) → IsValid m → IsValid (myfree p m)
myfree-IsValid p m v = elim (myfree_lem p m v) [
  | ignored h e ↦ rw e v
  | released xs u ys eq k f o e ↦ rw e (freed-IsValid m f v)
]

-- The allocations at other addresses than `p`.
abbrev pub without : ℕ → List (ℕ × ℕ) → List (ℕ × ℕ)
without p [] = []
without p ((q, n) ∷ l) = if q == p then without p l else (q, n) ∷ without p l

without-append : (p : ℕ) (l k : List (ℕ × ℕ)) → without p (l ++ k) ≡ without p l ++ without p k
without-append p [] k = refl
without-append p ((q, n) ∷ l) k = ground (arith, without-append p l k)

without_none : (p : ℕ) (bs : List Block) → All (λ b. b.ptr ≢ p) bs → without p (live bs) ≡ live bs
without_none p [] h = refl
without_none p (b ∷ bs) h = ground (arith, h.0, without_none p bs h.1)

-- Nodes before an address, and nodes from an address on.
pub ptrs-before :
    (base p : ℕ) (xs : List Block)
    → Tiles base xs
    → Sized xs
    → base + total xs ≤ p
    → All (λ b. b.ptr ≢ p) xs
ptrs-before base p [] t s h = tt
ptrs-before base p (x ∷ xs) t s h =
    (λ e. absurd (omega arith), ptrs-before (base + x.size) p xs t.1 s.1 (omega arith))

pub ptrs-after :
    (q p : ℕ) (ys : List Block) → Tiles q ys → Sized ys → p < q → All (λ b. b.ptr ≢ p) ys
ptrs-after q p [] t s h = tt
ptrs-after q p (y ∷ ys) t s h =
    (λ e. absurd (omega arith), ptrs-after (q + y.size) p ys t.1 s.1 (omega arith))

live_found :
    {base size : ℕ} (xs : List Block) (u : Block) (ys : List Block)
    → IsLayout base size (xs ++ u ∷ ys)
    → without u.ptr (live (xs ++ u ∷ ys)) ≡ live (xs ++ ys)
live_found {base} xs u ys l =
    let a = around xs u ys l in
    let b = ptrs-before base u.ptr xs a.tiles_before a.sized_before (omega (arith, a.place)) in
    let c =
      ptrs-after (base + total xs + u.size) u.ptr ys a.tiles_after a.sized_after
        (omega (arith, a.place, a.sized)) in
    ground (
      arith,
      live-append xs (u ∷ ys),
      live-append xs ys,
      without-append u.ptr (live xs) (live (u ∷ ys)),
      without_none u.ptr xs b,
      without_none u.ptr ys c,
    )

live-freed :
    {u : Block} (m : Mem) (f : Freed u m.blocks)
    → live (freed m f).blocks ≡ live (f.front ++ f.back)
live-freed m f =
    live-append f.front (joined f.block f.taken ∷ f.back) ∙ sym (live-append f.front f.back)

-- `myfree p` on a valid heap gives back the allocation at `p`, if there is one, and no other.
pub myfree-live :
    (p : ℕ) (m : Mem) → IsValid m → live (myfree p m).blocks ≡ without p (live m.blocks)
myfree-live p m v = elim (myfree_lem p m v) [
  | ignored h e ↦ rw e (sym (without_none p m.blocks h))
  | released xs u ys eq k f o e ↦
      ap (λ (t : Mem). live t.blocks) e
      ∙ live-freed m f
      ∙ o
      ∙ sym (live_found xs u ys (rw eq at v.layout))
      ∙ (rw (eq, k))
]
