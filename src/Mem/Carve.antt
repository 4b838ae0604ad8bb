-- ===== src/Mem/Carve.antt =====
-- Taking a block out of a free node: what `split` and `splice` do to the list.
use team_otw_os_labs.Base.{
  ℕ, ◌+◌, ◌-◌, ◌^◌, ◌<◌, ◌≤◌, ◌≡◌, refl, ap, List, [], ◌∷◌, ◌++◌, true, false, not, arith, ◌==◌,
  if◌then◌else◌, Bool-cases, inl, inr, IsSmall, to_int, sub_size, add_ptr, to_size_small, eq_refl,
}
use team_otw_os_labs.Mem.State.{Block}
use team_otw_os_labs.Mem.Layout.{
  has_node, Coalesced-weaken, Tiles-at, Apart-cons, has_node-append, IsLayout, around, of_Around,
}
use team_otw_os_labs.Mem.Malloc.{fits, split, splice}

pub splice-append :
    (xs : List Block) (u : Block) (new ys : List Block)
    → has_node u.node xs ≡ false
    → splice u.node new (xs ++ u ∷ ys) ≡ xs ++ (new ++ ys)
unfolding splice
splice-append [] u new ys n = rw (eq_refl u.node)
splice-append (x ∷ xs) u new ys n = ground (arith, splice-append xs u new ys)

-- The two nodes of a split, in plain arithmetic.
abbrev pub used : ℕ → Block → Block
used r u = record u { alloc = true; size = r }

abbrev pub rest : (fresh r : ℕ) → Block → Block
rest fresh r u = record { node = fresh; size = u.size - r; alloc = false; ptr = u.ptr + r }

abbrev pub pieces : (fresh r : ℕ) → Block → List Block
pieces fresh r u =
    if u.size == r then record u { alloc = true } ∷ [] else used r u ∷ rest fresh r u ∷ []

pub split-pieces :
    (fresh r : ℕ) (u : Block)
    → IsSmall u.size
    → r ≤ u.size
    → u.ptr + u.size < 2 ^ 64
    → split fresh r u ≡ pieces fresh r u
unfolding split sub_size add_ptr to_int
split-pieces fresh r u small le space = ground (arith, to_size_small u.size small)

pub fits_small :
    (r : ℕ) (u : Block) → IsSmall u.size → fits r u ≡ true → (r ≤ u.size) × (u.alloc ≡ false)
unfolding fits
fits_small r u small e = ground (arith, to_size_small u.size small)

pub fits-of_le :
    (r : ℕ) (u : Block) → IsSmall u.size → r ≤ u.size → u.alloc ≡ false → fits r u ≡ true
unfolding fits
fits-of_le r u small le e = ground (arith, to_size_small u.size small)

-- The address of a new node is none of the list's.
record Fresh (fresh : ℕ) (xs : List Block) (u : Block) (ys : List Block) : Type 0 where
  before : has_node fresh xs ≡ false
  here : (u.node == fresh) ≡ false
  there : (fresh == u.node) ≡ false
  after : has_node fresh ys ≡ false

Fresh-parts :
    (fresh : ℕ) (xs : List Block) (u : Block) (ys : List Block)
    → has_node fresh (xs ++ u ∷ ys) ≡ false
    → Fresh fresh xs u ys
Fresh-parts fresh xs u ys h = ground (arith, has_node-append fresh xs (u ∷ ys))

module _ {base size : ℕ} (fresh r : ℕ) (xs : List Block) (u : Block) (ys : List Block)
    (l : IsLayout base size (xs ++ u ∷ ys)) (free : u.alloc ≡ false)
    (unused : has_node fresh (xs ++ u ∷ ys) ≡ false) where
  exact-IsLayout : IsLayout base size (xs ++ record u { alloc = true } ∷ ys)
  exact-IsLayout =
      let a = around xs u ys l in
      of_Around xs (record u { alloc = true }) ys
        (record {
          tiles_before = a.tiles_before;
          place = a.place;
          tiles_after = a.tiles_after;
          sizes = a.sizes;
          sized_before = a.sized_before;
          sized = a.sized;
          sized_after = a.sized_after;
          coalesced_before = a.coalesced_before;
          joint = ground arith;
          coalesced_after = Coalesced-weaken (not u.alloc) ys a.coalesced_after;
          distinct_before = a.distinct_before;
          distinct_after = a.distinct_after;
          not_before = a.not_before;
          not_after = a.not_after;
          apart = a.apart;
        })

  split-IsLayout : 0 < r → r < u.size → IsLayout base size (xs ++ used r u ∷ rest fresh r u ∷ ys)
  split-IsLayout pos lt =
      let a = around xs u ys l in
      let f = Fresh-parts fresh xs u ys unused in
      of_Around xs (used r u) (rest fresh r u ∷ ys) (record {
        tiles_before = a.tiles_before;
        place = a.place;
        tiles_after = (omega (arith, a.place), Tiles-at ys (omega arith) a.tiles_after);
        sizes = omega (arith, a.sizes);
        sized_before = a.sized_before;
        sized = pos;
        sized_after = (omega arith, a.sized_after);
        coalesced_before = a.coalesced_before;
        joint = ground arith;
        coalesced_after = (refl, rw (ap not free) at a.coalesced_after);
        distinct_before = a.distinct_before;
        distinct_after = (f.after, a.distinct_after);
        not_before = a.not_before;
        not_after = ground (arith, a.not_after, f.there);
        apart = Apart-cons xs (rest fresh r u) ys f.before a.apart;
      })

  -- A block taken out of a free node leaves the pool laid out.
  pub pieces-IsLayout : 0 < r → r ≤ u.size → IsLayout base size (xs ++ (pieces fresh r u ++ ys))
  pieces-IsLayout pos le = elim (Bool-cases (u.size == r)) [
    | inl e ↦ rw e exact-IsLayout
    | inr n ↦ rw n (split-IsLayout pos (ground arith))
  ]
