-- ===== src/Mem/Trace.antt =====
-- Sequences of calls, in any order and with any arguments, of a client of the allocator.
use team_otw_os_labs.Base.{ℕ, ◌+◌, ◌^◌, ◌<◌, ◌≡◌, refl, ap, ◌∙◌, sym, false, ok, ok-snd, IsSmall}
use team_otw_os_labs.Mem.State.{Strategy, Mem, initmem, mem_total}
use team_otw_os_labs.Mem.Layout.{has_node}
use team_otw_os_labs.Mem.Valid.{IsValid, initmem-IsValid}
use team_otw_os_labs.Mem.Malloc.{mymalloc}
use team_otw_os_labs.Mem.Free.{myfree}
use team_otw_os_labs.Mem.Choice.{Searches}
use team_otw_os_labs.Mem.Granted.{refused, granted, mymalloc_lem}
use team_otw_os_labs.Mem.Keep.{mymalloc-IsValid}
use team_otw_os_labs.Mem.Dispose.{myfree-IsValid}
use team_otw_os_labs.Mem.Status.{mem_allocated, mem_free}
use team_otw_os_labs.Mem.Live.{live, mem_allocated-add-mem_free}
use team_otw_os_labs.Mem.Regions.{InOrder, live-Disjoint}

-- One call. `malloc` gives a new node an address that no node has, and requests are of at least one
-- byte; `myfree` may be given any address.
pub data Step (m m' : Mem) : Type 0 where
  allocate :
      (fresh r p : ℕ)
      → 0 < r
      → has_node fresh m.blocks ≡ false
      → mymalloc fresh r m ≡ ok (p, m')
      → Step m m'
  release : (p : ℕ) → m' ≡ myfree p m → Step m m'

pub data Reach (m : Mem) : Mem → Type 0 where
  here : Reach m m
  next : {m' m'' : Mem} → Reach m m' → Step m' m'' → Reach m m''

strategy-myfree : (p : ℕ) (m : Mem) → (myfree p m).my_strategy ≡ m.my_strategy
unfolding myfree
strategy-myfree p m = refl

strategy-mymalloc :
    (fresh r p : ℕ) (m m' : Mem)
    → Searches m.my_strategy
    → IsValid m
    → mymalloc fresh r m ≡ ok (p, m')
    → m'.my_strategy ≡ m.my_strategy
strategy-mymalloc fresh r p m m' s v e = elim (mymalloc_lem fresh r m s v) [
  | refused t e' ↦ ap (λ (h : Mem). h.my_strategy) (ok-snd (sym e ∙ e'))
  | granted u f free le k e' ↦ ap (λ (h : Mem). h.my_strategy) (ok-snd (sym e ∙ e'))
]

record Sound (m : Mem) : Type 0 where
  valid : IsValid m
  searches : Searches m.my_strategy

Step-Sound : {m m' : Mem} → Step m m' → Sound m → Sound m'
Step-Sound {m} {m'} (allocate fresh r p pos unused e) s =
    let (q, h, e', v) = mymalloc-IsValid fresh r m s.searches s.valid pos unused in
    record {
      valid = rw (ok-snd (sym e' ∙ e)) at v;
      searches = rw (strategy-mymalloc fresh r p m m' s.searches s.valid e) s.searches;
    }
Step-Sound {m} (release p e) s = record {
  valid = rw e (myfree-IsValid p m s.valid);
  searches = rw (e, strategy-myfree p m) s.searches;
}

Reach-Sound : {m m' : Mem} → Sound m → Reach m m' → Sound m'
Reach-Sound s here = s
Reach-Sound s (next r st) = Step-Sound st (Reach-Sound s r)

-- After `initmem` with first-, best- or worst-fit and a pool of at least one byte and less than 2 ^
-- 31, at an address other than NULL with the pool below 2 ^ 64, and after any sequence of calls of
-- `mymalloc` for at least one byte, with a new node at an address that no node has, and of
-- `myfree`, the heap is valid, its allocations lie in the pool without overlap, and `mem_allocated`
-- and `mem_free` add up to `mem_total`.
pub Reach-IsSafe :
    (pool node : ℕ) (s : Strategy) (sz : ℕ) (m m' : Mem)
    → Searches s
    → 0 < pool
    → 0 < sz
    → IsSmall sz
    → pool + sz < 2 ^ 64
    → Reach (initmem pool node s sz m) m'
    → IsValid m'
      × InOrder m'.my_memory (m'.my_memory + m'.my_size) (live m'.blocks)
      × (mem_allocated m' + mem_free m' ≡ mem_total m')
unfolding initmem
Reach-IsSafe pool node s sz m m' h hp hs small space r =
    let v = initmem-IsValid pool node s sz m hp hs small space in
    let w = (Reach-Sound (record { valid = v; searches = h }) r).valid in
    (w, live-Disjoint m' w, mem_allocated-add-mem_free w)
