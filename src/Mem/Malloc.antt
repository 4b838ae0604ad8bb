-- ===== src/Mem/Malloc.antt =====
-- `mymalloc` of totw_p5/mymem.c. A pointer that walks the list is the rest of the list from its
-- node on, so `p->next` is the tail and NULL the empty list.
use team_otw_os_labs.Base.{
  ℕ, zero, suc, ◌+◌, ◌*◌, List, [], ◌∷◌, ◌++◌, Bool, true, false, not, ◌&&◌, Option, none, some,
  leb, ◌==◌, if◌then◌else◌, length, to_int, to_size, lt_int, sub_size, add_ptr, Run, ok, fault,
  out_of_fuel, ◌>>=◌,
}
use team_otw_os_labs.Mem.State.{null, Strategy, not_set, best, worst, first, next_fit, Block, Mem}

-- `to_use->size >= requested && !to_use->alloc`; the comparison is made in `size_t`.
unfoldable pub fits : ℕ → Block → Bool
fits requested b = leb requested (to_size b.size) && not b.alloc

unfoldable pub first_loop : ℕ → List Block → Option Block
first_loop requested [] = none
first_loop requested (b ∷ rest) = if fits requested b then some b else first_loop requested rest

-- `!to_use || tmp->size < to_use->size`
unfoldable pub smaller : Block → Option Block → Bool
smaller b none = true
smaller b (some u) = lt_int b.size u.size

unfoldable pub larger : Block → Option Block → Bool
larger b none = true
larger b (some u) = lt_int u.size b.size

unfoldable pub best_loop : ℕ → Option Block → List Block → Option Block
best_loop requested to_use [] = to_use
best_loop requested to_use (b ∷ rest) =
    best_loop requested (if fits requested b && smaller b to_use then some b else to_use) rest

unfoldable pub worst_loop : ℕ → Option Block → List Block → Option Block
worst_loop requested to_use [] = to_use
worst_loop requested to_use (b ∷ rest) =
    worst_loop requested (if fits requested b && larger b to_use then some b else to_use) rest

-- The list from the node `p` on; empty if `p` is no node.
unfoldable pub from_node : ℕ → List Block → List Block
from_node p [] = []
from_node p (b ∷ rest) = if b.node == p then b ∷ rest else from_node p rest

-- `while (next->alloc) next = next->next;`, a crash where `next` becomes NULL.
unfoldable pub next_loop : List Block → Run (Option Block)
next_loop [] = fault
next_loop (b ∷ rest) = if b.alloc then next_loop rest else ok (some b)

-- The `switch`: the block to use, if any.
unfoldable pub choose : Strategy → ℕ → Mem → Run (Option Block)
unfolding first_loop best_loop worst_loop from_node next_loop fits smaller larger
choose not_set requested m = ok none
choose first requested m = ok (first_loop requested m.blocks)
choose best requested m = ok (best_loop requested none m.blocks)
choose worst requested m = ok (worst_loop requested none m.blocks)
choose next_fit requested m = next_loop (from_node m.next m.blocks)

-- The list with the node `p` replaced by the nodes `new`.
unfoldable pub splice : ℕ → List Block → List Block → List Block
splice p new [] = []
splice p new (b ∷ rest) = if b.node == p then new ++ rest else b ∷ splice p new rest

-- `new_list`, the node for the rest, at the address `fresh`.
abbrev pub leftover : (fresh : ℕ) → ℕ → Block → Block
leftover fresh requested u = record {
  node = fresh;
  size = to_int (sub_size (to_size u.size) requested);
  alloc = false;
  ptr = add_ptr u.ptr requested;
}

-- The nodes that take the place of `to_use`.
unfoldable pub split : (fresh : ℕ) → ℕ → Block → List Block
split fresh requested u =
    if to_size u.size == requested
    then record u { alloc = true } ∷ []
    else record u { alloc = true; size = to_int requested } ∷ leftover fresh requested u ∷ []

-- `while (!next || (next->alloc && next != to_use)) …`, started at `next`.
unfoldable pub rover_loop : ℕ → List Block → ℕ → List Block → Run ℕ
rover_loop zero blocks to_use next = out_of_fuel
rover_loop (suc fuel) blocks to_use [] = rover_loop fuel blocks to_use blocks
rover_loop (suc fuel) blocks to_use (b ∷ rest) =
    let later = rover_loop fuel blocks to_use rest in
    if b.alloc && not (b.node == to_use) then later else ok b.node

abbrev pub head_node : List Block → ℕ
head_node [] = null
head_node (b ∷ rest) = b.node

abbrev pub tail_of : List Block → List Block
tail_of [] = []
tail_of (b ∷ rest) = rest

-- The update of `next` that follows a next-fit allocation, on enough rounds for two passes.
unfoldable pub advance : ℕ → List Block → Run ℕ
unfolding rover_loop from_node
advance to_use blocks = do
  next ← rover_loop (2 * length blocks + 3) blocks to_use (tail_of (from_node to_use blocks))
  ok (if next == to_use then head_node blocks else next)

unfoldable pub is_next_fit : Strategy → Bool
is_next_fit next_fit = true
is_next_fit _ = false

unfoldable pub is_set : Strategy → Bool
is_set not_set = false
is_set _ = true

-- What follows the `switch`; `NULL` if there is no block to use.
unfoldable pub take_block : (fresh : ℕ) → ℕ → Mem → Option Block → Run (ℕ × Mem)
unfolding splice split advance is_next_fit
take_block fresh requested m none = ok (null, m)
take_block fresh requested m (some u) =
    let blocks = splice u.node (split fresh requested u) m.blocks in
    let m' = record m { blocks = blocks } in
    if is_next_fit m.my_strategy
    then (do next ← advance u.node blocks; ok (u.ptr, record m' { next = next }))
    else ok (u.ptr, m')

-- `fresh` is what `malloc` returns for a new node.
unfoldable pub mymalloc : (fresh : ℕ) → ℕ → Mem → Run (ℕ × Mem)
unfolding choose take_block is_set
mymalloc fresh requested m =
    if is_set m.my_strategy
    then (do to_use ← choose m.my_strategy requested m; take_block fresh requested m to_use)
    else fault
