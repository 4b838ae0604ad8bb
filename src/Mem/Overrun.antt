-- ===== src/Mem/Overrun.antt =====
-- What `mymalloc` under next-fit does that the other strategies do not: it crashes in a full pool,
-- and it hands out more bytes than the chosen node has.
use mathlib.Core.Bool.{true≢false}
use team_otw_os_labs.Base.{
  ℕ, ◌+◌, ◌<◌, ◌≡◌, ◌↔◌, ap, ◌∙◌, sym, List, ◌∷◌, ◌++◌, Bool-cases, inl, inr, arith, ◌==◌,
  All-split, true, false, ok, fault, IsSmall, to_size, to_int_small, to_size_small,
}
use team_otw_os_labs.Mem.State.{null, Strategy, next_fit, Block, Mem}
use team_otw_os_labs.Mem.Layout.{has_node}
use team_otw_os_labs.Mem.Valid.{IsValid}
use team_otw_os_labs.Mem.Choice.{Found, Searches}
use team_otw_os_labs.Mem.Granted.{bounds, refused, granted as found, mymalloc_lem}
use team_otw_os_labs.Mem.Live.{live, live-append}
use team_otw_os_labs.Mem.Regions.{Inserted}
use team_otw_os_labs.Mem.Malloc.{split, mymalloc}
use team_otw_os_labs.Mem.Rover.{Full}
use team_otw_os_labs.Mem.NextFit.{Ready, stopped, granted, mymalloc-next_fit}

Full-not_found : {u : Block} (bs : List Block) (f : Found u bs) → Full bs → u.alloc ≡ true
Full-not_found {u} bs f h =
    (All-split (λ (b : Block). b.alloc ≡ true) f.before (u ∷ f.after) (rw f.eq at h)).1.0

ok≢fault : {A : Type 0} {a : A} → ok a ≡ fault → ⊥
ok≢fault e = cc

live-split :
    (fresh r : ℕ) (u : Block) (ys : List Block)
    → IsSmall u.size
    → IsSmall r
    → live (split fresh r u ++ ys) ≡ (u.ptr, r) ∷ live ys
unfolding split
live-split fresh r u ys su sr = elim (Bool-cases (to_size u.size == r)) [
  | inl e ↦
      let same : u.size ≡ r = ground (arith, to_size_small u.size su) in
      rw e (ap (λ k. (u.ptr, k) ∷ live ys) same)
  | inr n ↦ rw (n, to_int_small r sr)
]

module _ (fresh r : ℕ) (m : Mem) (v : IsValid m) (strategy : m.my_strategy ≡ next_fit)
    (ready : Ready m.blocks m.next) (unused : has_node fresh m.blocks ≡ false) where
  -- On a valid heap under next-fit, with `next` at a free node or at the head, and with a new node
  -- at an address that no node has, `mymalloc` crashes exactly when every node is allocated. On the
  -- same heap with first-, best- or worst-fit instead, it returns NULL and changes nothing when
  -- every node is allocated.
  pub next_fit-crash :
      (s : Strategy)
      → Searches s
      → ((mymalloc fresh r m ≡ fault) ↔ Full m.blocks)
        × (Full m.blocks
            → mymalloc fresh r (record m { my_strategy = s })
              ≡ ok (null, record m { my_strategy = s }))
  next_fit-crash s searches = (
    elim (mymalloc-next_fit fresh r m strategy v.layout ready unused) [
      | stopped f e ↦ (λ _. f, λ _. e)
      | granted u f n free w e ↦ (
        λ k. absurd (ok≢fault (sym e ∙ k)),
        λ full. absurd (true≢false (sym (Full-not_found m.blocks f full) ∙ free)),
      )
    ],
    λ full. elim (mymalloc_lem fresh r (record m { my_strategy = s }) searches (any-IsValid s)) [
      | refused t e ↦ e
      | found u f free le k e ↦ absurd (true≢false (sym (Full-not_found m.blocks f full) ∙ free))
    ],
  )
    where
      any-IsValid : (s : Strategy) → IsValid (record m { my_strategy = s })
      any-IsValid s = record {
        layout = v.layout;
        small = v.small;
        pool = v.pool;
        in_space = v.in_space;
        rover = v.rover;
      }

  -- On a valid heap under next-fit, with `next` at a free node or at the head, with a node that is
  -- free, and with a new node at an address that no node has, a request of less than 2 ^ 31 bytes
  -- is granted, whatever the sizes of the nodes, and is recorded as an allocation of that size; one
  -- that is larger than the pool reaches past the pool's end.
  pub next_fit-overruns :
      IsSmall r
      → ¬ (Full m.blocks)
      → (p : ℕ) × (m' : Mem) × (mymalloc fresh r m ≡ ok (p, m'))
        × Inserted p r (live m.blocks) (live m'.blocks)
        × (m.my_size < r → m.my_memory + m.my_size < p + r)
  next_fit-overruns small gap = elim (mymalloc-next_fit fresh r m strategy v.layout ready unused) [
    | stopped f e ↦ absurd (gap f)
    | granted u f n free w e ↦ (
      u.ptr,
      _,
      e,
      record {
        before = live f.before;
        after = live f.after;
        old = ap live f.eq ∙ live-append f.before (u ∷ f.after) ∙ (rw free);
        new =
            live-append f.before (split fresh r u ++ f.after)
            ∙ (rw (live-split fresh r u f.after (bounds v f).small small));
      },
      λ big. omega (arith, (bounds v f).above),
    )
  ]
