-- ===== src/Mem/Rover.antt =====
-- The loops of the next-fit strategy: the search from `next` on, and the search for the `next` of
-- the following call.
use team_otw_os_labs.Base.{
  ℕ, suc, ◌+◌, ◌-◌, ◌*◌, ◌≡◌, ◌⊎◌, refl, ap, ◌∙◌, sym, List, [], ◌∷◌, ◌++◌, Bool, Bool-cases, inl,
  inr, arith, ◌==◌, ◌&&◌, ◌||◌, not, All, All-append, true, false, Option, some, ok, fault, Run,
  length, length-append, append-nil, eq_refl,
}
use team_otw_os_labs.Mem.State.{Block}
use team_otw_os_labs.Mem.Layout.{has_node}
use team_otw_os_labs.Mem.Choice.{Found}
use team_otw_os_labs.Mem.Malloc.{next_loop, from_node, rover_loop, advance, head_node, tail_of}

abbrev pub Full : List Block → Type 0
Full = All (λ b. b.alloc ≡ true)

-- `n` names a free node of the list.
abbrev pub has_free : ℕ → List Block → Bool
has_free n [] = false
has_free n (b ∷ bs) = (b.node == n && not b.alloc) || has_free n bs

pub data Sought (bs : List Block) (out : Run (Option Block)) : Type 0 where
  crashed : Full bs → out ≡ fault → Sought bs out
  reached : (u : Block) → Found u bs → u.alloc ≡ false → out ≡ ok (some u) → Sought bs out

pub next_loop_lem : (bs : List Block) → Sought bs (next_loop bs)
unfolding next_loop
next_loop_lem [] = crashed tt refl
next_loop_lem (b ∷ bs) = elim (Bool-cases b.alloc) [
  | inl a ↦ elim (next_loop_lem bs) [
    | crashed h e ↦ crashed (a, h) (rw a e)
    | reached u f free e ↦
        reached u (record { before = b ∷ f.before; after = f.after; eq = ap (λ l. b ∷ l) f.eq })
          free (rw a e)
  ]
  | inr n ↦ reached b (record { before = []; after = bs; eq = refl }) n (rw n)
]

pub from_node-head : (bs : List Block) → from_node (head_node bs) bs ≡ bs
unfolding from_node
from_node-head [] = refl
from_node-head (b ∷ bs) = rw (eq_refl b.node)

pub from_node-suffix : (p : ℕ) (bs : List Block) → (xs : List Block) × (bs ≡ xs ++ from_node p bs)
unfolding from_node
from_node-suffix p [] = ([], refl)
from_node-suffix p (b ∷ bs) = elim (Bool-cases (b.node == p)) [
  | inl e ↦ ([], rw e)
  | inr n ↦ let (xs, e) = from_node-suffix p bs in (b ∷ xs, rw n (ap (λ l. b ∷ l) e))
]

pub from_node-append :
    (u : Block) (xs ys : List Block)
    → has_node u.node xs ≡ false
    → from_node u.node (xs ++ u ∷ ys) ≡ u ∷ ys
unfolding from_node
from_node-append u [] ys h = rw (eq_refl u.node)
from_node-append u (x ∷ xs) ys h = ground (arith, from_node-append u xs ys)

-- From nodes other than `to_use` the loop stops at a free one, or leaves them all behind.
rover_first :
    (k : ℕ) (bs : List Block) (u : ℕ) (ys zs : List Block)
    → has_node u ys ≡ false
    → ((n : ℕ) × (rover_loop (length ys + k) bs u (ys ++ zs) ≡ ok n) × (has_free n ys ≡ true))
      ⊎ (Full ys × (rover_loop (length ys + k) bs u (ys ++ zs) ≡ rover_loop k bs u zs))
unfolding rover_loop
rover_first k bs u [] zs h = inr (tt, ap (λ j. rover_loop j bs u zs) (omega arith))
rover_first k bs u (y ∷ ys) zs h =
    let shift : suc (length ys) + k ≡ suc (length ys + k) = omega arith in
    let ne : (y.node == u) ≡ false = ground arith in
    let later : has_node u ys ≡ false = ground arith in
    elim (Bool-cases y.alloc) [
      | inl a ↦ elim (rover_first k bs u ys zs later) [
        | inl (n, e, f) ↦ inl (n, rw (shift, a, ne) e, ground (arith, f))
        | inr (full, e) ↦ inr ((a, full), rw (shift, a, ne) e)
      ]
      | inr free ↦ inl (y.node, rw (shift, free), ground arith)
    ]

pub has_free-append :
    (n : ℕ) (xs ys : List Block) → has_free n (xs ++ ys) ≡ (has_free n xs || has_free n ys)
has_free-append n [] ys = refl
has_free-append n (x ∷ xs) ys = ground (arith, has_free-append n xs ys)

-- A free node among those that `to_use` is not one of is another node.
has_free-ne :
    (n u : ℕ) (ys : List Block) → has_free n ys ≡ true → has_node u ys ≡ false → (n == u) ≡ false
has_free-ne n u [] h k = absurd (ground arith)
has_free-ne n u (y ∷ ys) h k = ground (arith, has_free-ne n u ys)

-- Where the loop ends: at a free node, or, in a full heap, at the head.
abbrev pub Rests : List Block → ℕ → Type 0
Rests bs n = (has_free n bs ≡ true) ⊎ (Full bs × (n ≡ head_node bs))

module _ (xs : List Block) (u : Block) (ys : List Block) (busy : u.alloc ≡ true)
    (before : has_node u.node xs ≡ false) (after : has_node u.node ys ≡ false) where
  abbrev all : List Block
  all = xs ++ u ∷ ys

  Walked : ℕ → Type 0
  Walked n = ((has_free n all ≡ true) × ((n == u.node) ≡ false)) ⊎ (Full all × (n ≡ u.node))

  second_pass :
      (j : ℕ)
      → Full ys
      → (n : ℕ) × (rover_loop (length xs + suc j) all u.node all ≡ ok n) × Walked n
  unfolding rover_loop Walked
  second_pass j full = elim (rover_first (suc j) all u.node xs (u ∷ ys) before) [
    | inl (n, e, f) ↦ (
      n,
      e,
      inl (ground (arith, has_free-append n xs (u ∷ ys), f), has_free-ne n u.node xs f before),
    )
    | inr (h, e) ↦ (
      u.node,
      e ∙ (rw (busy, eq_refl u.node)),
      inr (All-append (λ (b : Block). b.alloc ≡ true) xs (u ∷ ys) h (busy, full), refl),
    )
  ]

  walk :
      (j : ℕ)
      → (n : ℕ) × (rover_loop (length ys + suc (length xs + suc j)) all u.node ys ≡ ok n) × Walked n
  unfolding rover_loop Walked
  walk j = elim (rover_first (suc (length xs + suc j)) all u.node ys [] after) [
    | inl (n, e, f) ↦ (
      n,
      ap (λ z. rover_loop (length ys + suc (length xs + suc j)) all u.node z) (sym (append-nil ys))
          ∙ e,
      inl (ground (arith, has_free-append n xs (u ∷ ys), f), has_free-ne n u.node ys f after),
    )
    | inr (h, e) ↦
        let (n, e', w) = second_pass j h in
        (
          n,
          ap (λ z. rover_loop (length ys + suc (length xs + suc j)) all u.node z)
                (sym (append-nil ys))
              ∙ e
              ∙ e',
          w,
        )
  ]

  -- The rounds given are enough, and `next` ends at a free node, or at the head of a full heap.
  pub advance_lem : (n : ℕ) × (advance u.node all ≡ ok n) × Rests all n
  unfolding advance Walked
  advance_lem =
      let j = 2 * length all + 3 - length ys - length xs - 2 in
      let k : 2 * length all + 3 ≡ length ys + suc (length xs + suc j) =
        omega (arith, length-append xs (u ∷ ys)) in
      let (n, e, w) = walk j in
      let start : rover_loop (2 * length all + 3) all u.node (tail_of (from_node u.node all))
          ≡ ok n =
        rw (from_node-append u xs ys before) (ap (λ f. rover_loop f all u.node ys) k ∙ e) in
      elim w [
        | inl (f, ne) ↦ (n, rw (start, ne), inl f)
        | inr (h, same) ↦ (head_node all, rw (start, same, eq_refl u.node), inr (h, refl))
      ]
