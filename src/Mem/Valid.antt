-- ===== src/Mem/Valid.antt =====
-- The invariant of the allocator's global variables.
use team_otw_os_labs.Base.{ℕ, ◌+◌, ◌^◌, ◌<◌, ◌≤◌, ◌≡◌, true, List, ◌∷◌, ◌++◌, arith, IsSmall}
use team_otw_os_labs.Base.{to_int_small}
use team_otw_os_labs.Mem.State.{Block, Strategy, Mem, initmem}
use team_otw_os_labs.Mem.Layout.{IsLayout, total, has_node, total-append}

pub record IsValid (m : Mem) : Type 0 where
  pub layout : IsLayout m.my_memory m.my_size m.blocks
  pub small : IsSmall m.my_size
  pub pool : 0 < m.my_memory
  pub in_space : m.my_memory + m.my_size < 2 ^ 64
  pub rover : has_node m.next m.blocks ≡ true

-- A pool that is no larger than an `int` can count, at an address that `malloc` may return.
-- `initmem` sets up a valid heap from any earlier state.
pub initmem-IsValid :
    (pool node : ℕ) (s : Strategy) (sz : ℕ) (m : Mem)
    → 0 < pool
    → 0 < sz
    → IsSmall sz
    → pool + sz < 2 ^ 64
    → IsValid (initmem pool node s sz m)
unfolding initmem
initmem-IsValid pool node s sz m hp hs small space = record {
  layout = ground (arith, to_int_small sz small);
  small = small;
  pool = hp;
  in_space = space;
  rover = ground arith;
}

pub size-le-total : (xs : List Block) (u : Block) (ys : List Block) → u.size ≤ total (xs ++ u ∷ ys)
size-le-total xs u ys = omega (arith, total-append xs (u ∷ ys))
