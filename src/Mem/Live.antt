-- ===== src/Mem/Live.antt =====
-- The allocations that a list of nodes stands for, and the sums of the status functions.
use team_otw_os_labs.Base.{
  ℕ, ◌+◌, ◌≡◌, refl, List, [], ◌∷◌, ◌++◌, arith, if◌then◌else◌, IsSmall, add_int_small,
  to_int_small,
}
use team_otw_os_labs.Mem.State.{Block, Mem, mem_total}
use team_otw_os_labs.Mem.Layout.{total}
use team_otw_os_labs.Mem.Valid.{IsValid}
use team_otw_os_labs.Mem.Status.{mem_allocated, allocated_loop, mem_free, free_bytes_loop}

-- Address and size of each allocated node, in order.
abbrev pub live : List Block → List (ℕ × ℕ)
live [] = []
live (b ∷ bs) = if b.alloc then (b.ptr, b.size) ∷ live bs else live bs

pub live-append : (xs ys : List Block) → live (xs ++ ys) ≡ live xs ++ live ys
live-append [] ys = refl
live-append (x ∷ xs) ys = ground (arith, live-append xs ys)

abbrev pub sum_sizes : List (ℕ × ℕ) → ℕ
sum_sizes [] = 0
sum_sizes ((p, n) ∷ l) = n + sum_sizes l

abbrev pub free_total : List Block → ℕ
free_total [] = 0
free_total (b ∷ bs) = if b.alloc then free_total bs else b.size + free_total bs

pub total_parts : (bs : List Block) → sum_sizes (live bs) + free_total bs ≡ total bs
total_parts [] = refl
total_parts (b ∷ bs) = ground (arith, total_parts bs)

allocated_loop_lem :
    (acc : ℕ) (bs : List Block)
    → IsSmall (acc + total bs)
    → allocated_loop acc bs ≡ acc + sum_sizes (live bs)
unfolding allocated_loop
allocated_loop_lem acc [] h = omega arith
allocated_loop_lem acc (b ∷ bs) h = ground (
  arith,
  add_int_small acc b.size,
  allocated_loop_lem acc bs,
  allocated_loop_lem (acc + b.size) bs,
)

free_bytes_loop_lem :
    (acc : ℕ) (bs : List Block)
    → IsSmall (acc + total bs)
    → free_bytes_loop acc bs ≡ acc + free_total bs
unfolding free_bytes_loop
free_bytes_loop_lem acc [] h = omega arith
free_bytes_loop_lem acc (b ∷ bs) h = ground (
  arith,
  add_int_small acc b.size,
  free_bytes_loop_lem acc bs,
  free_bytes_loop_lem (acc + b.size) bs,
)

module _ {m : Mem} (v : IsValid m) where
  pub mem_allocated-live : mem_allocated m ≡ sum_sizes (live m.blocks)
  unfolding mem_allocated
  mem_allocated-live = omega (arith, allocated_loop_lem 0 m.blocks, v.layout.whole, v.small)

  pub mem_free-free_total : mem_free m ≡ free_total m.blocks
  unfolding mem_free
  mem_free-free_total = omega (arith, free_bytes_loop_lem 0 m.blocks, v.layout.whole, v.small)

  -- The allocated bytes and the free bytes of a valid heap make up the pool.
  pub mem_allocated-add-mem_free : mem_allocated m + mem_free m ≡ mem_total m
  unfolding mem_total
  mem_allocated-add-mem_free = omega (
    arith,
    mem_allocated-live,
    mem_free-free_total,
    total_parts m.blocks,
    v.layout.whole,
    to_int_small m.my_size v.small,
  )
