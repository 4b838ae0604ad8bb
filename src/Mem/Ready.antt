-- ===== src/Mem/Ready.antt =====
-- `next` stands at a free node or at the head between any two calls.
use team_otw_os_labs.Base.{
  ℕ, ◌≡◌, refl, ap, ◌∙◌, List, [], ◌∷◌, ◌++◌, inl, inr, arith, Bool-cases, true,
}
use team_otw_os_labs.Mem.State.{Strategy, Block, Mem, initmem}
use team_otw_os_labs.Mem.Layout.{has_node}
use team_otw_os_labs.Mem.Valid.{IsValid}
use team_otw_os_labs.Mem.Free.{myfree}
use team_otw_os_labs.Mem.Merge.{joined, moved}
use team_otw_os_labs.Mem.Freed.{ignored, released, myfree_lem}
use team_otw_os_labs.Mem.Rover.{has_free, has_free-append}
use team_otw_os_labs.Mem.NextFit.{Ready}

pub initmem-Ready :
    (pool node : ℕ) (s : Strategy) (sz : ℕ) (m : Mem)
    → let m' = initmem pool node s sz m in Ready m'.blocks m'.next
unfolding initmem
initmem-Ready pool node s sz m = inr refl

free_node : (n : ℕ) (zs : List Block) → has_free n zs ≡ true → has_node n zs ≡ true
free_node n [] h = absurd (ground arith)
free_node n (z ∷ zs) h = ground (arith, free_node n zs)

joined-free :
    (xs : List Block) (q : Block) (zs ys : List Block)
    → has_free q.node (xs ++ joined q zs ∷ ys) ≡ true
joined-free xs q zs ys = ground (arith, has_free-append q.node xs (joined q zs ∷ ys))

moved-Ready :
    (n : ℕ) (xs : List Block) (q : Block) (zs ys : List Block)
    → Ready (xs ++ q ∷ (zs ++ ys)) n
    → Ready (xs ++ joined q zs ∷ ys) (moved n q.node zs)
moved-Ready n xs q zs ys (inl h) = elim (Bool-cases (has_node n zs)) [
  | inl t ↦ rw t (inl (joined-free xs q zs ys))
  | inr f ↦ rw f (
      inl (
        ground (
          arith,
          has_free-append n xs (q ∷ (zs ++ ys)),
          has_free-append n xs (joined q zs ∷ ys),
          has_free-append n zs ys,
          free_node n zs,
        )))
]
moved-Ready n [] q zs ys (inr e) = inr (ground arith)
moved-Ready n (x ∷ xs) q zs ys (inr e) = elim (Bool-cases (has_node n zs)) [
  | inl t ↦
      let at_q : moved n q.node zs ≡ q.node = rw t in
      inl (ap (λ k. has_free k (x ∷ xs ++ joined q zs ∷ ys)) at_q ∙ joined-free (x ∷ xs) q zs ys)
  | inr f ↦ rw f (inr e)
]

-- `myfree` leaves `next` at a free node or at the head, if it found it so.
myfree-Ready :
    (p : ℕ) (m : Mem)
    → IsValid m
    → Ready m.blocks m.next
    → Ready (myfree p m).blocks (myfree p m).next
myfree-Ready p m v r = elim (myfree_lem p m v) [
  | ignored h e ↦ rw e r
  | released xs u ys eq k f o e ↦
      rw e (moved-Ready m.next f.front f.block f.taken f.back (rw f.eq at r))
]
