-- ===== src/Scheduler/Bound.antt =====
-- What the semaphores of totw_p4/scheduler.c keep: never more than `queue_size` workers at once.
use team_otw_os_labs.Base.{
  ℕ, zero, suc, ◌+◌, ◌-◌, ◌<◌, ◌≤◌, ◌≡◌, refl, List, [], ◌∷◌, ◌++◌, Bool, true, false, Option, none,
  some, arith, length, After, After->>=, After-ok, replicate, if◌then◌else◌, sub_int, IsSmall, ◌==◌,
}
use team_otw_os_labs.Threads.{Semaphores}
use team_otw_os_labs.LinkedList.{Heap, read}
use team_otw_os_labs.SchedImpl.{
  SchedQueue, start_running, candidate, wait_for_queue, wait_for_worker, init_sched_queue,
}
use team_otw_os_labs.Wrapper.{wrapper_size, elt_in_list, peek_item_head}
use team_otw_os_labs.Scheduler.{
  Policy, uncreated, SchedPc, queue_wait, testing, peeking, looking, advancing, marking, waking,
  worker_wait, done, Worker, Shared, System, wake, sched_step, CanSchedule, smp4_main, chosen, Step,
  work, schedule, Reach, here, next,
}
use team_otw_os_labs.Scheduler.Tokens.{
  inside, debt, total, token, total-append, start_sem, worker_step-Paid, Paid, bump, wake-total,
  Same,
}

calm_if : (b : Bool) (x y : SchedPc) → debt x ≡ 0 → debt y ≡ 0 → debt (if b then x else y) ≡ 0
calm_if true x y h k = h
calm_if false x y h k = k

size_less : (q : ℕ) → 0 < q → IsSmall q → sub_int q 1 ≡ q - 1
unfolding sub_int
size_less q pos small = omega arith

calm_chosen : (elt : ℕ) (o : Option ℕ) → debt (chosen elt o) ≡ 0
unfolding chosen
calm_chosen elt none = refl
calm_chosen elt (some d) = calm_if (d == 0) queue_wait (marking d) refl refl

module _ (api : Semaphores) where
  open api use {Sem, value, value_init, value_wait, value_post}

  candidate_sem :
      (fuel elt : ℕ) (sq : SchedQueue api) (h : Heap)
      → After (λ r. r.1.sem ≡ sq.sem) (candidate api fuel elt sq h)
  unfolding candidate
  candidate_sem fuel elt sq h =
      After->>= (λ r. r.1.sem ≡ sq.sem) (read h elt) _
        (λ e _.
          After->>= (λ r. r.1.sem ≡ sq.sem) (elt_in_list api fuel e.datum sq.running h) _
            (λ r _. refl))

  wait_sem :
      (fuel : ℕ) (b : Bool) (sq : SchedQueue api) (h : Heap)
      → After (λ r. r.1.sem ≡ sq.sem) (wait_for_queue api fuel b sq h)
  unfolding wait_for_queue
  wait_sem fuel true sq h = refl
  wait_sem fuel false sq h =
      After->>= (λ r. r.1.sem ≡ sq.sem) (wrapper_size api fuel sq.queue h) _ (λ r _. refl)

  abbrev held : List (Worker api) → ℕ
  held ws = total api (token api) ws

  abbrev Settled :
      SchedPc → List (Worker api) → Shared api → SchedPc × List (Worker api) × Shared api → Type 0
  Settled pc ws sh r = value r.2.sq.sem + held r.1 + debt pc ≡ value sh.sq.sem + held ws + debt r.0

  token-bump : (w : Worker api) → token api (bump api w) ≡ token api w + 1
  token-bump w = omega (arith, value_post w.sem)

  sched_step-Settled :
      (fresh fuel : ℕ) (pc : SchedPc) (ws : List (Worker api)) (sh : Shared api)
      → CanSchedule api pc sh
      → After (Settled pc ws sh) (sched_step api fresh fuel pc ws sh)
  unfolding sched_step wait_for_worker
  sched_step-Settled fresh fuel queue_wait ws sh can =
      After->>= (Settled queue_wait ws sh) (wait_for_queue api fuel sh.done_thing sh.sq sh.heap) _
        (λ r e. rw (
          After-ok (λ r. r.1.sem ≡ sh.sq.sem) e (wait_sem fuel sh.done_thing sh.sq sh.heap),
          calm_if r.0 testing queue_wait refl refl,
        ))
  sched_step-Settled fresh fuel testing ws sh can = rw (calm_if _ peeking done refl refl)
  sched_step-Settled fresh fuel peeking ws sh can = rw (
      calm_if ((peek_item_head api sh.sq.queue).0 == 0) queue_wait
        (looking (peek_item_head api sh.sq.queue).0) refl refl)
  sched_step-Settled fresh fuel (looking elt) ws sh can =
      After->>= (Settled (looking elt) ws sh) (candidate api fuel elt sh.sq sh.heap) _ (λ r e. rw (
        After-ok (λ r. r.1.sem ≡ sh.sq.sem) e (candidate_sem fuel elt sh.sq sh.heap),
        calm_chosen elt r.0,
      ))
  sched_step-Settled fresh fuel (advancing elt) ws sh can =
      After->>= (Settled (advancing elt) ws sh) (read sh.heap elt) _
        (λ e _. rw (calm_if (e.next == 0) queue_wait (looking e.next) refl refl))
  sched_step-Settled fresh fuel (marking d) ws sh can =
      After->>= (Settled (marking d) ws sh) (start_running api fresh d sh.sq sh.heap) _
        (λ r e. rw (After-ok (Same api sh.sq) e (start_sem api fresh d sh.sq sh.heap)))
  sched_step-Settled fresh fuel (waking d) ws sh can =
      After->>= (Settled (waking d) ws sh) (wake api d ws) _ (λ ws1 e. omega (
        arith,
        After-ok (λ ws1. held ws1 ≡ held ws + 1) e (wake-total api (token api) 1 token-bump d ws),
      ))
  sched_step-Settled fresh fuel worker_wait ws sh can = omega (arith, value_wait sh.sq.sem can)
  sched_step-Settled fresh fuel done ws sh can = refl

  -- The tokens, with the queue's semaphore, are as many as `c` and one more while the scheduler
  -- owes a `wait_for_worker`.
  Balanced : ℕ → System api → Type 0
  Balanced c s = value s.shared.sq.sem + held s.workers ≡ c + debt s.sched

  Step-Balanced :
      {p : Policy} {k : ℕ} {s s' : System api} (c : ℕ)
      → Step api p k s s'
      → Balanced c s
      → Balanced c s'
  unfolding Balanced
  Step-Balanced {p} {k} {s} c (work ls t rs fresh fuel pc sem sh e can real free run e') b =
      let paid : Paid api t.pc t.sem s.shared (pc, sem, sh) =
        After-ok (Paid api t.pc t.sem s.shared) run
          (worker_step-Paid api p k fresh fuel (length ls + 1) t.pc t.sem s.shared can) in
      let b' : value s.shared.sq.sem + held (ls ++ t ∷ rs) ≡ c + debt s.sched = rw e at b in
      rw e' (
        omega (
          arith,
          b',
          paid,
          total-append api (token api) ls (t ∷ rs),
          total-append api (token api) ls (record { pc = pc; sem = sem } ∷ rs),
        ))
  Step-Balanced {s = s} c (schedule fresh fuel pc ws sh can real free run e') b =
      let settled : Settled s.sched s.workers s.shared (pc, ws, sh) =
        After-ok (Settled s.sched s.workers s.shared) run
          (sched_step-Settled fresh fuel s.sched s.workers s.shared can) in
      rw e' (omega (arith, b, settled))

  Reach-Balanced :
      {p : Policy} {k : ℕ} {s s' : System api} (c : ℕ)
      → Balanced c s
      → Reach api p k s s'
      → Balanced c s'
  Reach-Balanced c b here = b
  Reach-Balanced c b (next r st) = Step-Balanced c st (Reach-Balanced c b r)

  held-replicate :
      (busy : Sem) (n : ℕ)
      → value busy ≡ 0
      → held (replicate n (record { pc = uncreated; sem = busy })) ≡ 0
  held-replicate busy zero z = refl
  held-replicate busy (suc n) z = omega (arith, z, held-replicate busy n z)

  main-Balanced :
      (busy : Sem) (q n : ℕ)
      → value busy ≡ 0
      → 0 < q
      → IsSmall q
      → Balanced (q - 1) (smp4_main api busy q n)
  unfolding Balanced smp4_main init_sched_queue
  main-Balanced busy q n z pos small =
      omega (arith, held-replicate busy n z, value_init (sub_int q 1), size_less q pos small)

  pub Reach-tokens :
      {p : Policy} {k : ℕ} (busy : Sem) (q n : ℕ) {s : System api}
      → value busy ≡ 0
      → 0 < q
      → IsSmall q
      → Reach api p k (smp4_main api busy q n) s
      → value s.shared.sq.sem + held s.workers ≡ q - 1 + debt s.sched
  unfolding Balanced
  Reach-tokens busy q n z pos small r =
      Reach-Balanced (q - 1) (main-Balanced busy q n z pos small) r

  -- The number of workers that have the CPU.
  abbrev pub busy_count : List (Worker api) → ℕ
  busy_count ws = total api (λ w. inside w.pc) ws

  pub busy-le-held : (ws : List (Worker api)) → busy_count ws ≤ held ws
  busy-le-held [] = omega arith
  busy-le-held (w ∷ ws) = omega (arith, busy-le-held ws)

  debt-le : (pc : SchedPc) → debt pc ≤ 1
  debt-le worker_wait = omega arith
  debt-le _ = omega arith

  -- With a queue size of at least one that an `int` holds and a fresh worker's semaphore of value 0,
  -- in every state that the threads reach, under either policy, at most `queue_size`
  -- workers are between `wait_for_cpu` and the end of `release_cpu`.
  pub workers_bound :
      (p : Policy) (k : ℕ) (busy : Sem) (q n : ℕ) {s : System api}
      → value busy ≡ 0
      → 0 < q
      → IsSmall q
      → Reach api p k (smp4_main api busy q n) s
      → busy_count s.workers ≤ q
  workers_bound p k busy q n {s} z pos small r =
      omega (arith, Reach-tokens busy q n z pos small r, busy-le-held s.workers, debt-le s.sched)
