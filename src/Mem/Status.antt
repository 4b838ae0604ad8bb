-- ===== src/Mem/Status.antt =====
-- The status functions of totw_p5/mymem.c, each a loop over the list from `head`.
use team_otw_os_labs.Base.{
  ℕ, List, [], ◌∷◌, Bool, false, not, ◌&&◌, ◌==◌, if◌then◌else◌, add_int, lt_int,
}
use team_otw_os_labs.Mem.State.{Block, Mem}

unfoldable pub holes_loop : ℕ → List Block → ℕ
holes_loop holes [] = holes
holes_loop holes (b ∷ rest) = holes_loop (if not b.alloc then add_int holes 1 else holes) rest

unfoldable pub mem_holes : Mem → ℕ
unfolding holes_loop
mem_holes m = holes_loop 0 m.blocks

unfoldable pub allocated_loop : ℕ → List Block → ℕ
allocated_loop bytes [] = bytes
allocated_loop bytes (b ∷ rest) =
    allocated_loop (if b.alloc then add_int bytes b.size else bytes) rest

unfoldable pub mem_allocated : Mem → ℕ
unfolding allocated_loop
mem_allocated m = allocated_loop 0 m.blocks

unfoldable pub free_bytes_loop : ℕ → List Block → ℕ
free_bytes_loop bytes [] = bytes
free_bytes_loop bytes (b ∷ rest) =
    free_bytes_loop (if not b.alloc then add_int bytes b.size else bytes) rest

unfoldable pub mem_free : Mem → ℕ
unfolding free_bytes_loop
mem_free m = free_bytes_loop 0 m.blocks

unfoldable pub largest_loop : ℕ → List Block → ℕ
largest_loop bytes [] = bytes
largest_loop bytes (b ∷ rest) =
    largest_loop (if not b.alloc && lt_int bytes b.size then b.size else bytes) rest

unfoldable pub mem_largest_free : Mem → ℕ
unfolding largest_loop
mem_largest_free m = largest_loop 0 m.blocks

-- `tmp->size <= size` of two `int`s
unfoldable pub small_loop : ℕ → ℕ → List Block → ℕ
small_loop size count [] = count
small_loop size count (b ∷ rest) =
    small_loop size (if not b.alloc && not (lt_int size b.size) then add_int count 1 else count)
      rest

unfoldable pub mem_small_free : ℕ → Mem → ℕ
unfolding small_loop
mem_small_free size m = small_loop size 0 m.blocks

unfoldable pub is_alloc_loop : ℕ → List Block → Bool
is_alloc_loop ptr [] = false
is_alloc_loop ptr (b ∷ rest) = if b.ptr == ptr then b.alloc else is_alloc_loop ptr rest

unfoldable pub mem_is_alloc : ℕ → Mem → Bool
unfolding is_alloc_loop
mem_is_alloc ptr m = is_alloc_loop ptr m.blocks
