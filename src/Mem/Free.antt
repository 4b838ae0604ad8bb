-- ===== src/Mem/Free.antt =====
-- `merge_blocks` and `myfree` of totw_p5/mymem.c. A node in the middle of the list is seen with the
-- nodes before it, nearest first (`prev`), and those after it (`next`).
use team_otw_os_labs.Base.{ℕ, List, [], ◌∷◌, reverse_aux, false, not, ◌==◌, if◌then◌else◌, add_int}
use team_otw_os_labs.Mem.State.{Block, Mem}

pub record Cursor : Type 0 where
  pub before : List Block
  pub block : Block
  pub after : List Block

abbrev pub cursor : List Block → Block → List Block → Cursor
cursor before block after = record { before = before; block = block; after = after }

abbrev pub whole : Cursor → List Block
whole c = reverse_aux c.before (c.block ∷ c.after)

-- `while (block->prev && !block->prev->alloc) block = block->prev;`
unfoldable pub walk_back : List Block → Block → List Block → Cursor
walk_back [] b after = cursor [] b after
walk_back (q ∷ before) b after =
    if not q.alloc then walk_back before q (b ∷ after) else cursor (q ∷ before) b after

pub record Merged : Type 0 where
  pub block : Block
  pub after : List Block
  pub next : ℕ

-- `while (block->next && !block->next->alloc) …`, with the node that `next` points to.
unfoldable pub merge_loop : ℕ → Block → List Block → Merged
merge_loop next b [] = record { block = b; after = []; next = next }
merge_loop next b (t ∷ after) =
    if not t.alloc
    then merge_loop (if next == t.node then b.node else next)
        (record b { size = add_int b.size t.size }) after
    else record { block = b; after = t ∷ after; next = next }

-- `merge_blocks` at a node of the list: the new list, and the new `next`.
unfoldable pub merge_blocks : ℕ → Cursor → List Block × ℕ
unfolding walk_back merge_loop
merge_blocks next c =
    if c.block.alloc
    then (whole c, next)
    else let s = walk_back c.before c.block c.after in
      let r = merge_loop next s.block s.after in (reverse_aux s.before (r.block ∷ r.after), r.next)

-- The walk from `head` to the node whose `ptr` is `block`.
unfoldable pub free_loop : ℕ → ℕ → List Block → List Block → List Block × ℕ
unfolding merge_blocks
free_loop next block before [] = (reverse_aux before [], next)
free_loop next block before (tmp ∷ after) =
    let later = free_loop next block (tmp ∷ before) after in
    if tmp.ptr == block
    then merge_blocks next (cursor before (record tmp { alloc = false }) after)
    else later

unfoldable pub myfree : ℕ → Mem → Mem
unfolding free_loop
myfree block m =
    let (blocks, next) = free_loop m.next block [] m.blocks in
    record m { blocks = blocks; next = next }
