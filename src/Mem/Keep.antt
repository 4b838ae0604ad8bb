-- ===== src/Mem/Keep.antt =====
-- `mymalloc` keeps the invariant.
use team_otw_os_labs.Base.{
  ℕ, ◌<◌, ◌≤◌, ◌≡◌, List, ◌∷◌, ◌++◌, true, false, arith, ok, Bool-cases, inl, inr, ◌==◌,
}
use team_otw_os_labs.Mem.State.{Block, Mem}
use team_otw_os_labs.Mem.Layout.{has_node, has_node-append, IsLayout}
use team_otw_os_labs.Mem.Valid.{IsValid}
use team_otw_os_labs.Mem.Malloc.{mymalloc}
use team_otw_os_labs.Mem.Choice.{Found, Searches}
use team_otw_os_labs.Mem.Carve.{pieces, pieces-IsLayout}
use team_otw_os_labs.Mem.Granted.{carved, refused, granted, mymalloc_lem}

pieces-has_node :
    (q fresh r : ℕ) (u : Block) (ys : List Block)
    → has_node q (u ∷ ys) ≡ true
    → has_node q (pieces fresh r u ++ ys) ≡ true
pieces-has_node q fresh r u ys h = elim (Bool-cases (u.size == r)) [
  | inl e ↦ rw e h
  | inr n ↦ rw n (ground arith)
]

pub append-has_node :
    (q : ℕ) (xs ys zs : List Block)
    → (has_node q ys ≡ true → has_node q zs ≡ true)
    → has_node q (xs ++ ys) ≡ true
    → has_node q (xs ++ zs) ≡ true
append-has_node q xs ys zs f h = ground (arith, has_node-append q xs ys, has_node-append q xs zs)

pub carved-IsValid :
    (fresh r : ℕ) (m : Mem) (u : Block) (f : Found u m.blocks)
    → IsValid m
    → u.alloc ≡ false
    → 0 < r
    → r ≤ u.size
    → has_node fresh m.blocks ≡ false
    → IsValid (carved fresh r m u f)
carved-IsValid fresh r m u f v free pos le unused =
    let l : IsLayout m.my_memory m.my_size (f.before ++ u ∷ f.after) = rw f.eq at v.layout in
    record {
      layout = pieces-IsLayout fresh r f.before u f.after l free (rw f.eq at unused) pos le;
      small = v.small;
      pool = v.pool;
      in_space = v.in_space;
      rover =
          append-has_node m.next f.before (u ∷ f.after) (pieces fresh r u ++ f.after)
            (pieces-has_node m.next fresh r u f.after) (rw f.eq at v.rover);
    }

-- On a valid heap under first-, best- or worst-fit a call of `mymalloc` for at least one byte, with
-- a new node at an address that no node has, returns and leaves a valid heap.
pub mymalloc-IsValid :
    (fresh r : ℕ) (m : Mem)
    → Searches m.my_strategy
    → IsValid m
    → 0 < r
    → has_node fresh m.blocks ≡ false
    → (p : ℕ) × (m' : Mem) × (mymalloc fresh r m ≡ ok (p, m')) × IsValid m'
mymalloc-IsValid fresh r m s v pos unused = elim (mymalloc_lem fresh r m s v) [
  | refused t e ↦ (0, m, e, v)
  | granted u f free le k e ↦
      (u.ptr, carved fresh r m u f, e, carved-IsValid fresh r m u f v free pos le unused)
]
