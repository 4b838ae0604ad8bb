-- ===== src/Mem/Merge.antt =====
-- `merge_blocks` and the walk of `myfree` on a list of nodes that is laid out.
use team_otw_os_labs.Base.{
  Last, none_last, last, Last-of, ℕ, ◌+◌, ◌<◌, ◌≡◌, ◌≢◌, refl, sym, ap, ◌∙◌, List, [], ◌∷◌, ◌++◌,
  reverse_aux, Bool, true, false, not, arith, ◌==◌, if◌then◌else◌, All, All-split, Bool-cases, inl,
  inr, IsSmall, add_int, add_int_small,
}
use team_otw_os_labs.Mem.State.{Block}
use team_otw_os_labs.Mem.Layout.{
  total, Tiles-split, Tiles-at, Coalesced, ends_free, has_node, has_node-append, Distinct-split,
  Apart, IsLayout, around, of_Around, total-append,
}
use team_otw_os_labs.Mem.Live.{live}
use team_otw_os_labs.Mem.Free.{cursor, walk_back, Merged, merge_loop, merge_blocks, free_loop}

-- The node that stands for `q` and the nodes `zs` behind it, once they are merged.
abbrev pub joined : Block → List Block → Block
joined q zs = record q { size = q.size + total zs; alloc = false }

Apart-drop : (xs zs ys : List Block) → Apart xs (zs ++ ys) → Apart xs ys
Apart-drop [] zs ys a = tt
Apart-drop (x ∷ xs) zs ys a =
    (ground (arith, has_node-append x.node zs ys), Apart-drop xs zs ys a.1)

-- Adjacent nodes may be merged into one free node between nodes that are not free.
pub joined-IsLayout :
    {base size : ℕ} (xs : List Block) (q : Block) (zs ys : List Block)
    → IsLayout base size (xs ++ q ∷ (zs ++ ys))
    → ends_free false xs ≡ false
    → Coalesced true ys
    → IsLayout base size (xs ++ joined q zs ∷ ys)
joined-IsLayout {base} {size} xs q zs ys l left right =
    let a = around xs q (zs ++ ys) l in
    let t = Tiles-split (base + total xs + q.size) zs ys a.tiles_after in
    let s = All-split (λ (b : Block). 0 < b.size) zs ys a.sized_after in
    let d = Distinct-split zs ys a.distinct_after in
    of_Around xs (joined q zs) ys (record {
      tiles_before = a.tiles_before;
      place = a.place;
      tiles_after = Tiles-at ys (omega arith) t.1;
      sizes = omega (arith, a.sizes, total-append zs ys);
      sized_before = a.sized_before;
      sized = omega (arith, a.sized);
      sized_after = s.1;
      coalesced_before = a.coalesced_before;
      joint = ground arith;
      coalesced_after = right;
      distinct_before = a.distinct_before;
      distinct_after = d.1;
      not_before = a.not_before;
      not_after = ground (arith, a.not_after, has_node-append q.node zs ys);
      apart = Apart-drop xs zs ys a.apart;
    })

-- The walk reaches the first node whose `ptr` is the block's.
pub free_loop-append :
    (next p : ℕ) (before xs : List Block) (u : Block) (ys : List Block)
    → All (λ b. b.ptr ≢ p) xs
    → u.ptr ≡ p
    → free_loop next p before (xs ++ u ∷ ys)
      ≡ merge_blocks next (cursor (reverse_aux xs before) (record u { alloc = false }) ys)
unfolding free_loop
free_loop-append next p before [] u ys h e = ground arith
free_loop-append next p before (x ∷ xs) u ys h e =
    ground (arith, h.0, free_loop-append next p (x ∷ before) xs u ys h.1 e)

-- No node has the address: the list stays as it is.
pub free_loop_none :
    (next p : ℕ) (before bs : List Block)
    → All (λ b. b.ptr ≢ p) bs
    → free_loop next p before bs ≡ (reverse_aux before bs, next)
unfolding free_loop
free_loop_none next p before [] h = refl
free_loop_none next p before (b ∷ bs) h =
    ground (arith, h.0, free_loop_none next p (b ∷ before) bs h.1)

-- Where `next` points after the nodes `zs` have been merged into the node `q`.
abbrev pub moved : ℕ → ℕ → List Block → ℕ
moved next q zs = if has_node next zs then q else next

pub merge_loop_stop :
    (next : ℕ) (b : Block) (ys : List Block)
    → Coalesced true ys
    → merge_loop next b ys ≡ record { block = b; after = ys; next = next }
unfolding merge_loop
merge_loop_stop next b [] c = refl
merge_loop_stop next b (y ∷ ys) c = ground arith

-- What the forward loop does behind the node `b`.
pub record MergedRight (next : ℕ) (b : Block) (ys : List Block) : Type 0 where
  pub taken : List Block
  pub left : List Block
  pub eq : ys ≡ taken ++ left
  pub stop : Coalesced true left
  pub dead : live taken ≡ []
  pub lem : merge_loop next b ys ≡ record {
    block = record b { size = b.size + total taken };
    after = left;
    next = moved next b.node taken;
  }

pub merge_right :
    (next : ℕ) (b : Block) (f : Bool) (ys : List Block)
    → Coalesced f ys
    → IsSmall (b.size + total ys)
    → MergedRight next b ys
unfolding merge_loop
merge_right next b f [] c s = record {
  taken = [];
  left = [];
  eq = refl;
  stop = tt;
  dead = refl;
  lem = ground arith;
}
merge_right next b f (y ∷ ys) c s = elim (Bool-cases y.alloc) [
  | inl a ↦ record {
    taken = [];
    left = y ∷ ys;
    eq = refl;
    stop = ground arith;
    dead = refl;
    lem = ground arith;
  }
  | inr n ↦
      let c' : Coalesced true ys = rw (ap not n) at c.1 in
      record {
        taken = y ∷ [];
        left = ys;
        eq = refl;
        stop = c';
        dead = rw n;
        lem = ground (
          arith,
          add_int_small b.size y.size,
          merge_loop_stop (if next == y.node then b.node else next)
              (record b { size = add_int b.size y.size }) ys c',
        );
      }
]

-- The nodes before a node, nearest first, are put back in order.
pub reverse_aux-reverse_aux :
    (xs acc zs : List Block) → reverse_aux (reverse_aux xs acc) zs ≡ reverse_aux acc (xs ++ zs)
reverse_aux-reverse_aux [] acc zs = refl
reverse_aux-reverse_aux (x ∷ xs) acc zs = reverse_aux-reverse_aux xs (x ∷ acc) zs

pub ends_free-last :
    (f : Bool) (xs : List Block) (q : Block) → ends_free f (xs ++ q ∷ []) ≡ not q.alloc
ends_free-last f [] q = refl
ends_free-last f (x ∷ xs) q = ends_free-last (not x.alloc) xs q

pub reverse_aux-last :
    (xs acc : List Block) (q : Block) → reverse_aux (xs ++ q ∷ []) acc ≡ q ∷ reverse_aux xs acc
reverse_aux-last [] acc q = refl
reverse_aux-last (x ∷ xs) acc q = reverse_aux-last xs (x ∷ acc) q

walk_back_stop :
    {xs : List Block} (b : Block) (after : List Block)
    → Last xs
    → ends_free false xs ≡ false
    → walk_back (reverse_aux xs []) b after ≡ cursor (reverse_aux xs []) b after
unfolding walk_back
walk_back_stop b after (none_last eq) e = rw eq
walk_back_stop b after (last xs q eq) e =
    rw (eq, reverse_aux-last)
      (let k : not q.alloc ≡ false = sym (ends_free-last false xs q) ∙ (rw eq at e) in ground arith)

-- With no free node before it, a freed node is merged with the free nodes behind it.
pub merge_blocks-right :
    (next : ℕ) (xs : List Block) (b : Block) (ys : List Block)
    → b.alloc ≡ false
    → ends_free false xs ≡ false
    → (r : MergedRight next b ys)
    → merge_blocks next (cursor (reverse_aux xs []) b ys)
      ≡ (xs ++ joined b r.taken ∷ r.left, moved next b.node r.taken)
unfolding merge_blocks
merge_blocks-right next xs b ys free e r =
    simp free
      (rw (walk_back_stop b ys (Last-of xs) e, r.lem, reverse_aux-reverse_aux) (ground arith))

-- A free node before it takes a freed node in.
pub merge_blocks-left :
    (next : ℕ) (xs : List Block) (q b : Block) (ys : List Block)
    → b.alloc ≡ false
    → q.alloc ≡ false
    → ends_free false xs ≡ false
    → (r : Merged) → merge_loop next q (b ∷ ys) ≡ r
    → merge_blocks next (cursor (reverse_aux (xs ++ q ∷ []) []) b ys)
      ≡ (xs ++ r.block ∷ r.after, r.next)
unfolding merge_blocks walk_back
merge_blocks-left next xs q b ys free qfree e r lem =
    simp (free, reverse_aux-last, qfree)
      (rw (walk_back_stop q (b ∷ ys) (Last-of xs) e, lem, reverse_aux-reverse_aux))

pub merge_through :
    (next : ℕ) (q u : Block) (f : Bool) (ys : List Block)
    → u.alloc ≡ false
    → Coalesced f ys
    → IsSmall (q.size + (u.size + total ys))
    → q.alloc ≡ false
    → (t : List Block) × (k : List Block) × (ys ≡ t ++ k)
      × Coalesced true k
      × (live t ≡ [])
      × (merge_loop next q (u ∷ ys)
          ≡ record { block = joined q (u ∷ t); after = k; next = moved next q.node (u ∷ t) })
unfolding merge_loop
merge_through next q u f ys free c s qf =
    let small : add_int q.size u.size ≡ q.size + u.size =
      add_int_small q.size u.size (omega arith) in
    let r =
      merge_right (if next == u.node then q.node else next) (record q { size = q.size + u.size }) f
        ys c (omega arith) in
    (r.taken, r.left, r.eq, r.stop, r.dead, ground (arith, r.lem, small))
