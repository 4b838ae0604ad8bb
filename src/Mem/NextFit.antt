-- ===== src/Mem/NextFit.antt =====
-- `mymalloc` under the next-fit strategy. It takes the first free node from `next` on, and does not
-- compare its size with the request.
use team_otw_os_labs.Base.{
  ℕ, ◌≡◌, ◌⊎◌, refl, ap, ◌∙◌, sym, List, [], ◌∷◌, ◌++◌, Bool-cases, inl, inr, arith, ◌==◌, true,
  false, some, ok, fault, Run, append_assoc, to_int, to_size,
}
use team_otw_os_labs.Mem.State.{Strategy, next_fit, Block, Mem}
use team_otw_os_labs.Mem.Layout.{has_node, has_node-append, Distinct, IsLayout, around}
use team_otw_os_labs.Mem.Choice.{Found}
use team_otw_os_labs.Mem.Carve.{splice-append}
use team_otw_os_labs.Mem.Malloc.{
  next_loop, from_node, advance, head_node, leftover, splice, split, is_set, is_next_fit, choose,
  take_block, mymalloc,
}
use team_otw_os_labs.Mem.Rover.{
  Full, has_free, Sought, crashed, reached, next_loop_lem, from_node-head, from_node-suffix, Rests,
  advance_lem,
}

-- Where `next` stands between two calls: at a free node or at the head.
abbrev pub Ready : List Block → ℕ → Type 0
Ready bs n = (has_free n bs ≡ true) ⊎ (n ≡ head_node bs)

abbrev Behind : ℕ → List Block → Type 0
Behind n bs = Full (from_node n bs) → Full bs

Full-has_free : (n : ℕ) (bs : List Block) → Full bs → has_free n bs ≡ false
Full-has_free n [] f = refl
Full-has_free n (b ∷ bs) f = ground (arith, f.0, Full-has_free n bs f.1)

no_node-has_free : (n : ℕ) (bs : List Block) → has_node n bs ≡ false → has_free n bs ≡ false
no_node-has_free n [] h = refl
no_node-has_free n (b ∷ bs) h = ground (arith, no_node-has_free n bs)

-- With distinct nodes the walk from a free node on meets a free node.
free-Behind :
    (n : ℕ) (bs : List Block) → has_free n bs ≡ true → Distinct bs → Full (from_node n bs) → ⊥
unfolding from_node
free-Behind n [] h d f = absurd (ground arith)
free-Behind n (b ∷ bs) h d f = elim (Bool-cases (b.node == n)) [
  | inl e ↦
      let full : Full (b ∷ bs) = rw e at f in absurd (ground (arith, Full-has_free n (b ∷ bs) full))
  | inr ne ↦ free-Behind n bs (ground arith) d.1 (rw ne at f)
]

-- From a ready `next` on, the search finds a free node unless there is none in the whole list.
search_lem :
    (bs : List Block) (n : ℕ) → Distinct bs → Ready bs n → Sought bs (next_loop (from_node n bs))
search_lem bs n d (inr e) = rw (e, from_node-head) (next_loop_lem bs)
search_lem bs n d (inl h) = elim (next_loop_lem (from_node n bs)) [
  | crashed f e ↦ absurd (free-Behind n bs h d f)
  | reached u f free e ↦
      let (xs, eq) = from_node-suffix n bs in
      reached u
        (record {
          before = xs ++ f.before;
          after = f.after;
          eq = eq ∙ ap (λ l. xs ++ l) f.eq ∙ sym (append_assoc xs f.before (u ∷ f.after));
        })
        free e
]

-- The update of `next` behind the nodes that replace the chosen one.
advance-split :
    (fresh r : ℕ) (xs : List Block) (u : Block) (ys : List Block)
    → has_node u.node xs ≡ false
    → has_node u.node ys ≡ false
    → (fresh == u.node) ≡ false
    → let bs = xs ++ (split fresh r u ++ ys) in (n : ℕ) × (advance u.node bs ≡ ok n) × Rests bs n
unfolding split
advance-split fresh r xs u ys nb na ne = elim (Bool-cases (to_size u.size == r)) [
  | inl e ↦ rw e (advance_lem xs (record u { alloc = true }) ys refl nb na)
  | inr n ↦ rw n (
      advance_lem xs (record u { alloc = true; size = to_int r }) (leftover fresh r u ∷ ys) refl nb
        (ground (arith, na, ne)))
]

abbrev pub replaced : (fresh r : ℕ) (m : Mem) (u : Block) → Found u m.blocks → List Block
replaced fresh r m u f = f.before ++ (split fresh r u ++ f.after)

-- All that `mymalloc` can do under next-fit.
pub data Taken (fresh r : ℕ) (m : Mem) (out : Run (ℕ × Mem)) : Type 0 where
  stopped : Full m.blocks → out ≡ fault → Taken fresh r m out
  granted :
      (u : Block) (f : Found u m.blocks) (n : ℕ)
      → u.alloc ≡ false
      → Rests (replaced fresh r m u f) n
      → out ≡ ok (u.ptr, record m { blocks = replaced fresh r m u f; next = n })
      → Taken fresh r m out

next_choose : (r : ℕ) (m : Mem) → choose next_fit r m ≡ next_loop (from_node m.next m.blocks)
unfolding choose
next_choose r m = refl

next_fit_is : {s : Strategy} → s ≡ next_fit → is_next_fit s ≡ true
unfolding is_next_fit
next_fit_is e = rw e

next_fit_set : {s : Strategy} → s ≡ next_fit → is_set s ≡ true
unfolding is_set
next_fit_set e = rw e

-- The rest of the call, once a free node is chosen.
next_take :
    (fresh r : ℕ) (m : Mem) (u : Block) (f : Found u m.blocks)
    → m.my_strategy ≡ next_fit
    → IsLayout m.my_memory m.my_size m.blocks
    → has_node fresh m.blocks ≡ false
    → (n : ℕ) × (take_block fresh r m (some u)
        ≡ ok (u.ptr, record m { blocks = replaced fresh r m u f; next = n }))
      × Rests (replaced fresh r m u f) n
unfolding take_block
next_take fresh r m u f s l unused =
    let xs = f.before in
    let ys = f.after in
    let a = around xs u ys (rw f.eq at l) in
    let unused' : has_node fresh (xs ++ u ∷ ys) ≡ false = rw f.eq at unused in
    let ne : (fresh == u.node) ≡ false = ground (arith, has_node-append fresh xs (u ∷ ys)) in
    let (n, e, w) = advance-split fresh r xs u ys a.not_before a.not_after ne in
    let nf : is_next_fit m.my_strategy ≡ true = next_fit_is s in
    let shape : splice u.node (split fresh r u) m.blocks ≡ replaced fresh r m u f =
      ap (splice u.node (split fresh r u)) f.eq
      ∙ splice-append xs u (split fresh r u) ys a.not_before in
    (n, rw (nf, shape, e), w)

-- Under next-fit, on a heap that is laid out and with `next` at a free node or at the head,
-- `mymalloc` crashes if no node is free; otherwise it takes a free node, whatever its size, never
-- returns without a block, and its loops end.
pub mymalloc-next_fit :
    (fresh r : ℕ) (m : Mem)
    → m.my_strategy ≡ next_fit
    → IsLayout m.my_memory m.my_size m.blocks
    → Ready m.blocks m.next
    → has_node fresh m.blocks ≡ false
    → Taken fresh r m (mymalloc fresh r m)
unfolding mymalloc
mymalloc-next_fit fresh r m s l ready unused =
    let set : is_set m.my_strategy ≡ true = next_fit_set s in
    let pick : choose m.my_strategy r m ≡ next_loop (from_node m.next m.blocks) =
      ap (λ t. choose t r m) s ∙ next_choose r m in
    elim (search_lem m.blocks m.next l.distinct ready) [
      | crashed f e ↦ stopped f (rw (set, pick, e))
      | reached u f free e ↦
          let (n, t, w) = next_take fresh r m u f s l unused in
          granted u f n free w (rw (set, pick, e) t)
    ]
