-- ===== src/Mem/IsAlloc.antt =====
-- `mem_is_alloc` against the allocations of the heap.
use team_otw_os_labs.Base.{
  ℕ, ◌+◌, ◌≡◌, ◌≢◌, refl, List, [], ◌∷◌, Bool, Bool-cases, inl, inr, false, arith, ◌==◌, ◌||◌, All,
}
use team_otw_os_labs.Mem.State.{Block, Mem}
use team_otw_os_labs.Mem.Layout.{Tiles, Sized}
use team_otw_os_labs.Mem.Valid.{IsValid}
use team_otw_os_labs.Mem.Status.{mem_is_alloc, is_alloc_loop}
use team_otw_os_labs.Mem.Live.{live}
use team_otw_os_labs.Mem.Dispose.{ptrs-after}

abbrev pub has_region : ℕ → List (ℕ × ℕ) → Bool
has_region p [] = false
has_region p ((q, n) ∷ l) = (q == p) || has_region p l

not_region : (p : ℕ) (bs : List Block) → All (λ b. b.ptr ≢ p) bs → has_region p (live bs) ≡ false
not_region p [] h = refl
not_region p (b ∷ bs) h = ground (arith, h.0, not_region p bs h.1)

is_alloc_loop-live :
    (p q : ℕ) (bs : List Block)
    → Tiles q bs
    → Sized bs
    → is_alloc_loop p bs ≡ has_region p (live bs)
unfolding is_alloc_loop
is_alloc_loop-live p q [] t s = refl
is_alloc_loop-live p q (b ∷ bs) t s = elim (Bool-cases (b.ptr == p)) [
  | inl e ↦
      let h = not_region p bs (ptrs-after (q + b.size) p bs t.1 s.1 (ground arith)) in
      ground (arith, h)
  | inr n ↦ ground (arith, is_alloc_loop-live p (q + b.size) bs t.1 s.1)
]

-- On a valid heap `mem_is_alloc p` says whether there is an allocation at the address `p`.
pub mem_is_alloc-live :
    (p : ℕ) {m : Mem} → IsValid m → mem_is_alloc p m ≡ has_region p (live m.blocks)
unfolding mem_is_alloc
mem_is_alloc-live p {m} v = is_alloc_loop-live p m.my_memory m.blocks v.layout.tiles v.layout.sized
