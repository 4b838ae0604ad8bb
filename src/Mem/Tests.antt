-- ===== src/Mem/Tests.antt =====
-- The allocator on small inputs, and its theorems at concrete heaps.
use team_otw_os_labs.Base.{
  ℕ, ◌+◌, ◌<◌, ◌≡◌, ◌≢◌, ◌↔◌, ◌^◌, refl, ok, fault, ◌∷◌, [], Run, ◌>>=◌, false, true, arith, inl,
  inr, to_size, to_int, sub_size, add_ptr, add_int, lt_int,
}
use team_otw_os_labs.Mem.State.{
  null, Mem, Block, start, initmem, first, next_fit, best, worst, Strategy, mem_total,
}
use team_otw_os_labs.Mem.Valid.{IsValid}
use team_otw_os_labs.Mem.Malloc.{mymalloc}
use team_otw_os_labs.Mem.Free.{myfree}
use team_otw_os_labs.Mem.Status.{mem_allocated, mem_free, mem_holes, mem_largest_free, mem_is_alloc}
use team_otw_os_labs.Mem.Granted.{Malloced, mymalloc_lem}
use team_otw_os_labs.Mem.Keep.{mymalloc-IsValid}
use team_otw_os_labs.Mem.Live.{live, mem_allocated-add-mem_free}
use team_otw_os_labs.Mem.Figures.{mymalloc-largest}
use team_otw_os_labs.Mem.Regions.{InOrder, Inserted, mymalloc-live}
use team_otw_os_labs.Mem.IsAlloc.{has_region, mem_is_alloc-live}
use team_otw_os_labs.Mem.Dispose.{without, myfree-live}
use team_otw_os_labs.Mem.RoundTrip.{myfree-mymalloc}
use team_otw_os_labs.Mem.Rover.{Full}
use team_otw_os_labs.Mem.NextFit.{Taken, mymalloc-next_fit}
use team_otw_os_labs.Mem.Overrun.{next_fit-crash, next_fit-overruns}
use team_otw_os_labs.Mem.Trace.{here, next, allocate, release, Reach-IsSafe}

abbrev block : ℕ → ℕ → ℕ → Block
block node size ptr = record { node = node; size = size; alloc = false; ptr = ptr }

abbrev taken : ℕ → ℕ → ℕ → Block
taken node size ptr = record { node = node; size = size; alloc = true; ptr = ptr }

-- Two allocations and two holes, in a pool of 500 bytes.
abbrev holed : Strategy → Mem
holed s = record {
  my_strategy = s;
  my_size = 500;
  my_memory = 1000;
  blocks = taken 1 100 1000 ∷ block 2 100 1100 ∷ taken 3 100 1200 ∷ block 4 200 1300 ∷ [];
  next = 2;
}

abbrev full : Mem
full = record {
  my_strategy = next_fit;
  my_size = 500;
  my_memory = 1000;
  blocks = taken 1 500 1000 ∷ [];
  next = 1;
}

holed-IsValid : (s : Strategy) → IsValid (holed s)
holed-IsValid s = ground arith

-- The example of `try_mymem`.
try_first : Run (ℕ × ℕ × ℕ × ℕ)
unfolding mymalloc myfree initmem mem_holes mem_largest_free mem_free
try_first = do
  (a, m1) ← mymalloc 2 100 (initmem 1000 1 first 500 start)
  (b, m2) ← mymalloc 3 100 m1
  (c, m3) ← mymalloc 4 100 m2
  let m4 = myfree b m3
  (d, m5) ← mymalloc 5 50 m4
  let m6 = myfree a m5
  (e, m7) ← mymalloc 6 25 m6
  ok (e, mem_holes m7, mem_largest_free m7, mem_free m7)

try_first_result : try_first ≡ ok (1000, 3, 200, 325)
unfolding try_first to_size to_int sub_size add_ptr add_int lt_int
try_first_result = refl

abbrev after_two : Mem
after_two = record {
  my_strategy = best;
  my_size = 500;
  my_memory = 1000;
  blocks = taken 1 100 1000 ∷ block 2 400 1100 ∷ [];
  next = 1;
}

after_two_run : mymalloc 2 100 (initmem 1000 1 best 500 start) ≡ ok (1000, after_two)
unfolding mymalloc initmem to_size to_int sub_size add_ptr lt_int
after_two_run = refl

Reach-IsSafe_example :
    let m = myfree 1000 after_two in
    IsValid m
    × InOrder m.my_memory (m.my_memory + m.my_size) (live m.blocks)
    × (mem_allocated m + mem_free m ≡ mem_total m)
unfolding initmem
Reach-IsSafe_example =
    Reach-IsSafe 1000 1 best 500 start (myfree 1000 after_two) tt (omega arith) (omega arith)
      (omega arith) (omega arith)
      (next (next here (allocate 2 100 1000 (omega arith) refl after_two_run)) (release 1000 refl))

mymalloc_lem_example : Malloced 9 60 (holed worst) (mymalloc 9 60 (holed worst))
mymalloc_lem_example = mymalloc_lem 9 60 (holed worst) tt (holed-IsValid worst)

mymalloc-IsValid_example :
    (p : ℕ) × (m : Mem) × (mymalloc 9 60 (holed best) ≡ ok (p, m)) × IsValid m
mymalloc-IsValid_example =
    mymalloc-IsValid 9 60 (holed best) tt (holed-IsValid best) (omega arith) refl

mymalloc-largest_example :
    (p : ℕ) × (m : Mem) × (mymalloc 9 201 (holed first) ≡ ok (p, m))
    × ((p ≡ null) ↔ (mem_largest_free (holed first) < 201))
mymalloc-largest_example = mymalloc-largest (holed-IsValid first) 9 201 tt (omega arith)

abbrev carved_first : Mem
carved_first = record (holed first) {
  blocks =
      taken 1 100 1000
      ∷ taken 2 60 1100
      ∷ block 9 40 1160
      ∷ taken 3 100 1200
      ∷ block 4 200 1300
      ∷ [];
}

carved_first_run : mymalloc 9 60 (holed first) ≡ ok (1100, carved_first)
unfolding mymalloc to_size to_int sub_size add_ptr
carved_first_run = refl

mymalloc-live_example :
    (◌≡◌ {A = ℕ} 1100 null → carved_first ≡ holed first)
    × (◌≢◌ {A = ℕ} 1100 null
        → Inserted 1100 60 (live (holed first).blocks) (live carved_first.blocks))
mymalloc-live_example =
    mymalloc-live 9 60 1100 (holed first) carved_first tt (holed-IsValid first) carved_first_run

myfree-mymalloc_example : myfree 1100 carved_first ≡ holed first
myfree-mymalloc_example =
    myfree-mymalloc 9 60 1100 (holed first) carved_first tt (holed-IsValid first) refl
      carved_first_run (omega arith)

myfree-live_example :
    live (myfree 1200 (holed best)).blocks ≡ without 1200 (live (holed best).blocks)
myfree-live_example = myfree-live 1200 (holed best) (holed-IsValid best)

mem_allocated-add-mem_free_example :
    mem_allocated (holed best) + mem_free (holed best) ≡ mem_total (holed best)
mem_allocated-add-mem_free_example = mem_allocated-add-mem_free (holed-IsValid best)

mymalloc-next_fit_example : Taken 9 60 (holed next_fit) (mymalloc 9 60 (holed next_fit))
mymalloc-next_fit_example =
    mymalloc-next_fit 9 60 (holed next_fit) refl (IsValid.layout (holed-IsValid next_fit))
      (inl refl) refl

full-IsValid : IsValid full
full-IsValid = ground arith

next_fit-crash_example :
    ((mymalloc 9 60 full ≡ fault) ↔ Full full.blocks)
    × (Full full.blocks
        → mymalloc 9 60 (record full { my_strategy = best })
          ≡ ok (null, record full { my_strategy = best }))
next_fit-crash_example = next_fit-crash 9 60 full full-IsValid refl (inr refl) refl best tt

-- The size of a pool that an `int` cannot count: under first-fit the comparison of `size_t`s takes
-- its negative size for a large one, and the request goes past the pool.
big_pool :
    (mymalloc 2 3500000000 (initmem 1000 1 first 3000000000 start) >>= λ (r : ℕ × Mem). ok (r.0))
    ≡ ok 1000
unfolding mymalloc initmem to_size to_int
big_pool = refl

-- Under next-fit the size of the request is cut down to an `int`.
cut_request :
    (mymalloc 9 (2 ^ 32 + 5) (holed next_fit) >>= λ (r : ℕ × Mem). ok (live (r.1.blocks)))
    ≡ ok ((1000, 100) ∷ (1100, 5) ∷ (1200, 100) ∷ [])
unfolding mymalloc to_size to_int
cut_request = refl

not-Full : ¬ (Full (holed next_fit).blocks)
not-Full f = cc (f.1.0)

next_fit-overruns_example :
    (p : ℕ) × (m : Mem) × (mymalloc 9 600 (holed next_fit) ≡ ok (p, m))
    × Inserted p 600 (live (holed next_fit).blocks) (live m.blocks)
    × (500 < 600 → 1000 + 500 < p + 600)
next_fit-overruns_example =
    next_fit-overruns 9 600 (holed next_fit) (holed-IsValid next_fit) refl (inl refl) refl
      (omega arith) not-Full

mem_is_alloc-live_example :
    mem_is_alloc 1200 (holed best) ≡ has_region 1200 (live (holed best).blocks)
mem_is_alloc-live_example = mem_is_alloc-live 1200 (holed-IsValid best)
