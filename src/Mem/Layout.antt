-- ===== src/Mem/Layout.antt =====
-- How the nodes of totw_p5/mymem.c lie in the pool: predicates on the list of nodes, and how they
-- go through a concatenation.
use team_otw_os_labs.Base.{
  ℕ, ◌+◌, ◌<◌, ◌≡◌, refl, List, [], ◌∷◌, ◌++◌, Bool, false, not, ◌&&◌, ◌||◌, arith, ◌==◌, All,
  All-append, All-split,
}
use mathlib.Core.Path.{subst}
use mathlib.Core.Bool.{or_assoc}
use team_otw_os_labs.Mem.State.{Block}

abbrev pub total : List Block → ℕ
total [] = 0
total (b ∷ bs) = b.size + total bs

-- From the address `p` on each node's bytes follow those of the node before it.
abbrev pub Tiles : ℕ → List Block → Type 0
Tiles p [] = Unit
Tiles p (b ∷ bs) = (b.ptr ≡ p) × Tiles (p + b.size) bs

abbrev pub Sized : List Block → Type 0
Sized = All (λ b. 0 < b.size)

-- No two neighbours are free; `f` says whether a free node stands before the list.
abbrev pub Coalesced : Bool → List Block → Type 0
Coalesced f [] = Unit
Coalesced f (b ∷ bs) = ((f && not b.alloc) ≡ false) × Coalesced (not b.alloc) bs

abbrev pub ends_free : Bool → List Block → Bool
ends_free f [] = f
ends_free f (b ∷ bs) = ends_free (not b.alloc) bs

abbrev pub has_node : ℕ → List Block → Bool
has_node p [] = false
has_node p (b ∷ bs) = (b.node == p) || has_node p bs

abbrev pub Distinct : List Block → Type 0
Distinct [] = Unit
Distinct (b ∷ bs) = (has_node b.node bs ≡ false) × Distinct bs

abbrev pub Apart : List Block → List Block → Type 0
Apart xs ys = All (λ b. has_node b.node ys ≡ false) xs

pub total-append : (xs ys : List Block) → total (xs ++ ys) ≡ total xs + total ys
total-append [] ys = omega arith
total-append (x ∷ xs) ys = omega (arith, total-append xs ys)

pub Tiles-at : {p q : ℕ} (bs : List Block) → p ≡ q → Tiles p bs → Tiles q bs
Tiles-at bs e t = subst (λ k. Tiles k bs) e t

pub Tiles-append :
    (p : ℕ) (xs ys : List Block) → Tiles p xs → Tiles (p + total xs) ys → Tiles p (xs ++ ys)
Tiles-append p [] ys t u = Tiles-at ys (omega arith) u
Tiles-append p (x ∷ xs) ys t u =
    (t.0, Tiles-append (p + x.size) xs ys t.1 (Tiles-at ys (omega arith) u))

pub Tiles-split :
    (p : ℕ) (xs ys : List Block) → Tiles p (xs ++ ys) → Tiles p xs × Tiles (p + total xs) ys
Tiles-split p [] ys t = (tt, Tiles-at ys (omega arith) t)
Tiles-split p (x ∷ xs) ys t =
    let (a, b) = Tiles-split (p + x.size) xs ys t.1 in ((t.0, a), Tiles-at ys (omega arith) b)

pub Coalesced-append :
    (f : Bool) (xs ys : List Block)
    → Coalesced f xs
    → Coalesced (ends_free f xs) ys
    → Coalesced f (xs ++ ys)
Coalesced-append f [] ys c d = d
Coalesced-append f (x ∷ xs) ys c d = (c.0, Coalesced-append (not x.alloc) xs ys c.1 d)

pub Coalesced-split :
    (f : Bool) (xs ys : List Block)
    → Coalesced f (xs ++ ys)
    → Coalesced f xs × Coalesced (ends_free f xs) ys
Coalesced-split f [] ys c = (tt, c)
Coalesced-split f (x ∷ xs) ys c =
    let (a, b) = Coalesced-split (not x.alloc) xs ys c.1 in ((c.0, a), b)

-- Fewer free nodes before a list can only help.
pub Coalesced-weaken : (f : Bool) (bs : List Block) → Coalesced f bs → Coalesced false bs
Coalesced-weaken f [] c = tt
Coalesced-weaken f (b ∷ bs) c = (refl, c.1)

pub has_node-append :
    (p : ℕ) (xs ys : List Block) → has_node p (xs ++ ys) ≡ (has_node p xs || has_node p ys)
has_node-append p [] ys = refl
has_node-append p (x ∷ xs) ys = rw (has_node-append p xs ys, or_assoc)

pub Distinct-append :
    (xs ys : List Block) → Distinct xs → Distinct ys → Apart xs ys → Distinct (xs ++ ys)
Distinct-append [] ys d e a = e
Distinct-append (x ∷ xs) ys d e a =
    (ground (arith, has_node-append x.node xs ys), Distinct-append xs ys d.1 e a.1)

pub Distinct-split :
    (xs ys : List Block) → Distinct (xs ++ ys) → Distinct xs × Distinct ys × Apart xs ys
Distinct-split [] ys d = (tt, d, tt)
Distinct-split (x ∷ xs) ys d =
    let (a, b, c) = Distinct-split xs ys d.1 in
    (
      (ground (arith, has_node-append x.node xs ys), a),
      b,
      (ground (arith, has_node-append x.node xs ys), c),
    )

-- A pool of `size` bytes at `base`, cut into the nodes `bs`.
pub record IsLayout (base size : ℕ) (bs : List Block) : Type 0 where
  pub tiles : Tiles base bs
  pub whole : total bs ≡ size
  pub sized : Sized bs
  pub coalesced : Coalesced false bs
  pub distinct : Distinct bs

-- What the list says where a node `u` stands.
pub record Around (base size : ℕ) (xs : List Block) (u : Block) (ys : List Block) : Type 0 where
  pub tiles_before : Tiles base xs
  pub place : u.ptr ≡ base + total xs
  pub tiles_after : Tiles (base + total xs + u.size) ys
  pub sizes : total xs + (u.size + total ys) ≡ size
  pub sized_before : Sized xs
  pub sized : 0 < u.size
  pub sized_after : Sized ys
  pub coalesced_before : Coalesced false xs
  pub joint : (ends_free false xs && not u.alloc) ≡ false
  pub coalesced_after : Coalesced (not u.alloc) ys
  pub distinct_before : Distinct xs
  pub distinct_after : Distinct ys
  pub not_before : has_node u.node xs ≡ false
  pub not_after : has_node u.node ys ≡ false
  pub apart : Apart xs ys

Apart-uncons :
    (xs : List Block) (u : Block) (ys : List Block)
    → Apart xs (u ∷ ys)
    → (has_node u.node xs ≡ false) × Apart xs ys
Apart-uncons [] u ys a = (refl, tt)
Apart-uncons (x ∷ xs) u ys a =
    let (n, r) = Apart-uncons xs u ys a.1 in (ground arith, (ground arith, r))

pub Apart-cons :
    (xs : List Block) (u : Block) (ys : List Block)
    → has_node u.node xs ≡ false
    → Apart xs ys
    → Apart xs (u ∷ ys)
Apart-cons [] u ys n a = tt
Apart-cons (x ∷ xs) u ys n a = (ground arith, Apart-cons xs u ys (ground arith) a.1)

module _ {base size : ℕ} (xs : List Block) (u : Block) (ys : List Block) where
  pub around : IsLayout base size (xs ++ u ∷ ys) → Around base size xs u ys
  around l =
      let t = Tiles-split base xs (u ∷ ys) l.tiles in
      let s = All-split (λ (b : Block). 0 < b.size) xs (u ∷ ys) l.sized in
      let c = Coalesced-split false xs (u ∷ ys) l.coalesced in
      let d = Distinct-split xs (u ∷ ys) l.distinct in
      let a = Apart-uncons xs u ys d.2 in
      record {
        tiles_before = t.0;
        place = t.1.0;
        tiles_after = t.1.1;
        sizes = omega (arith, total-append xs (u ∷ ys), l.whole);
        sized_before = s.0;
        sized = s.1.0;
        sized_after = s.1.1;
        coalesced_before = c.0;
        joint = c.1.0;
        coalesced_after = c.1.1;
        distinct_before = d.0;
        distinct_after = d.1.1;
        not_before = a.0;
        not_after = d.1.0;
        apart = a.1;
      }

  pub of_Around : Around base size xs u ys → IsLayout base size (xs ++ u ∷ ys)
  of_Around r = record {
    tiles = Tiles-append base xs (u ∷ ys) r.tiles_before (r.place, r.tiles_after);
    whole = omega (arith, total-append xs (u ∷ ys), r.sizes);
    sized =
        All-append (λ (b : Block). 0 < b.size) xs (u ∷ ys) r.sized_before (r.sized, r.sized_after);
    coalesced = Coalesced-append false xs (u ∷ ys) r.coalesced_before (r.joint, r.coalesced_after);
    distinct =
        Distinct-append xs (u ∷ ys) r.distinct_before (r.not_after, r.distinct_after)
          (Apart-cons xs u ys r.not_before r.apart);
  }
