-- ===== src/Mem/Freed.antt =====
-- `myfree` on a valid heap.
use team_otw_os_labs.Base.{
  Last, none_last, last, Last-of, ℕ, ◌≡◌, ◌≢◌, inl, inr, refl, sym, ap, ◌∙◌, List, [], ◌∷◌, ◌++◌,
  reverse_aux, true, false, not, arith, ◌==◌, All, Bool-cases, append_assoc, IsSmall,
}
use team_otw_os_labs.Mem.State.{Block, Mem}
use team_otw_os_labs.Mem.Layout.{Coalesced, ends_free, IsLayout, around}
use team_otw_os_labs.Mem.Valid.{IsValid}
use team_otw_os_labs.Mem.Live.{live, live-append}
use team_otw_os_labs.Mem.Free.{cursor, merge_blocks, free_loop, myfree}
use team_otw_os_labs.Mem.Merge.{
  joined, moved, free_loop-append, free_loop_none, merge_right, ends_free-last, merge_blocks-right,
  merge_blocks-left, merge_through,
}

-- What freeing the node `u` makes of the nodes around it: `q` and the nodes `zs` behind it, `u`
-- among them, become one free node, whose neighbours are not free.
pub record Freed (u : Block) (bs : List Block) : Type 0 where
  pub front : List Block
  pub block : Block
  pub taken : List Block
  pub back : List Block
  pub eq : bs ≡ front ++ block ∷ (taken ++ back)
  pub left_stop : ends_free false front ≡ false
  pub right_stop : Coalesced true back
  pub only : live (block ∷ taken) ≡ live (u ∷ [])

abbrev pub freed : {u : Block} (m : Mem) → Freed u m.blocks → Mem
freed m f = record m {
  blocks = f.front ++ joined f.block f.taken ∷ f.back;
  next = moved m.next f.block.node f.taken;
}

-- The walk of `myfree` for the address `p` meets no node, or a first one.
data Search (p : ℕ) (bs : List Block) : Type 0 where
  missing : All (λ b. b.ptr ≢ p) bs → Search p bs
  met :
      (xs : List Block) (u : Block) (ys : List Block)
      → bs ≡ xs ++ u ∷ ys
      → All (λ b. b.ptr ≢ p) xs
      → u.ptr ≡ p
      → Search p bs

Search-for : (p : ℕ) (bs : List Block) → Search p bs
Search-for p [] = missing tt
Search-for p (b ∷ bs) = elim (Bool-cases (b.ptr == p)) [
  | inl e ↦ met [] b bs refl tt (ground arith)
  | inr n ↦ elim (Search-for p bs) [
    | missing h ↦ missing (ground arith, h)
    | met xs u ys e h k ↦ met (b ∷ xs) u ys (ap (λ l. b ∷ l) e) (ground arith, h) k
  ]
]

record MergeResult (m : Mem) (xs : List Block) (u : Block) (ys : List Block) : Type 0 where
  shape : Freed u (xs ++ u ∷ ys)
  result : merge_blocks m.next (cursor (reverse_aux xs []) (record u { alloc = false }) ys) ≡ (
    shape.front ++ joined shape.block shape.taken ∷ shape.back,
    moved m.next shape.block.node shape.taken,
  )
  others : live (shape.front ++ shape.back) ≡ live (xs ++ ys)

live_behind :
    (xs : List Block) {ys : List Block} (t k : List Block)
    → ys ≡ t ++ k
    → live t ≡ []
    → live (xs ++ k) ≡ live (xs ++ ys)
live_behind xs t k e dead = rw (e, live-append, live-append, live-append, dead)

live_others :
    (front : List Block) (q : Block) {ys : List Block} (t k : List Block) {xs : List Block}
    → xs ≡ front ++ q ∷ []
    → ys ≡ t ++ k
    → live t ≡ []
    → q.alloc ≡ false
    → live (front ++ k) ≡ live (xs ++ ys)
live_others front q t k e eq dead free =
    live_behind front (q ∷ t) k refl (rw free dead) ∙ (rw (e, eq, append_assoc))

left_result :
    (m : Mem) {base size : ℕ} {xs : List Block} (front : List Block) (q u : Block) (ys : List Block)
    → xs ≡ front ++ q ∷ []
    → IsLayout base size ((front ++ q ∷ []) ++ u ∷ ys)
    → IsSmall size
    → not q.alloc ≡ true
    → MergeResult m xs u ys
left_result m {base} {size} {xs} front q u ys e l small free =
    let l' : IsLayout base size (front ++ q ∷ (u ∷ ys)) = rw append_assoc at l in
    let a = around front q (u ∷ ys) l' in
    let qf : q.alloc ≡ false = ground arith in
    let (t, k, eq, stop, dead, lem) =
      merge_through m.next q (record u { alloc = false }) (not u.alloc) ys refl a.coalesced_after.1
        (omega (arith, a.sizes)) qf in
    let left : ends_free false front ≡ false = ground (arith, a.joint) in
    record {
      shape = record {
        front = front;
        block = q;
        taken = u ∷ t;
        back = k;
        eq = rw (e, append_assoc) (ap (λ z. front ++ q ∷ u ∷ z) eq);
        left_stop = left;
        right_stop = stop;
        only = ground (arith, dead);
      };
      result =
          rw e
            (merge_blocks-left m.next front q (record u { alloc = false }) ys refl qf left _ lem);
      others = live_others front q t k e eq dead qf;
    }

merge_result :
    (m : Mem) {base size : ℕ} (xs : List Block) (u : Block) (ys : List Block)
    → IsLayout base size (xs ++ u ∷ ys)
    → IsSmall size
    → Last xs
    → MergeResult m xs u ys
merge_result m {base} {size} xs u ys l small view = elim (Bool-cases (ends_free false xs)) [
  | inr stop ↦
      let a = around xs u ys l in
      let r =
        merge_right m.next (record u { alloc = false }) (not u.alloc) ys a.coalesced_after
          (omega (arith, a.sizes)) in
      record {
        shape = record {
          front = xs;
          block = u;
          taken = r.taken;
          back = r.left;
          eq = ap (λ t. xs ++ u ∷ t) r.eq;
          left_stop = stop;
          right_stop = r.stop;
          only = ground (arith, r.dead);
        };
        result = merge_blocks-right m.next xs (record u { alloc = false }) ys refl stop r;
        others = live_behind xs r.taken r.left r.eq r.dead;
      }
  | inl go ↦ elim view [
    | none_last e ↦ absurd (ground arith)
    | last xs' q e ↦
        left_result m xs' q u ys e (rw e at l) small
          (sym (ends_free-last false xs' q) ∙ (rw e at go))
  ]
]

-- All that `myfree p` can do to a valid heap.
pub data Freeing (p : ℕ) (m out : Mem) : Type 0 where
  ignored : All (λ b. b.ptr ≢ p) m.blocks → out ≡ m → Freeing p m out
  released :
      (xs : List Block) (u : Block) (ys : List Block)
      → m.blocks ≡ xs ++ u ∷ ys
      → u.ptr ≡ p
      → (f : Freed u m.blocks) → live (f.front ++ f.back) ≡ live (xs ++ ys)
      → out ≡ freed m f
      → Freeing p m out

pub myfree_lem : (p : ℕ) (m : Mem) → IsValid m → Freeing p m (myfree p m)
unfolding myfree
myfree_lem p m v = elim (Search-for p m.blocks) [
  | missing h ↦ ignored h (rw (free_loop_none m.next p [] m.blocks h))
  | met xs u ys e h k ↦
      let r = merge_result m xs u ys (rw e at v.layout) v.small (Last-of xs) in
      let s = r.shape in
      let f : Freed u m.blocks = record {
        front = s.front;
        block = s.block;
        taken = s.taken;
        back = s.back;
        eq = e ∙ s.eq;
        left_stop = s.left_stop;
        right_stop = s.right_stop;
        only = s.only;
      } in
      released xs u ys e k f r.others (
        ap (λ (t : List Block × ℕ). record m { blocks = t.0; next = t.1 })
          (ap (free_loop m.next p []) e ∙ free_loop-append m.next p [] xs u ys h k ∙ r.result))
]
