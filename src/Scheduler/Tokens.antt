-- ===== src/Scheduler/Tokens.antt =====
-- How many workers have the CPU: the semaphores of totw_p4/scheduler.c counted together.
use team_otw_os_labs.Base.{
  ℕ, zero, suc, ◌+◌, ◌≡◌, refl, List, [], ◌∷◌, ◌++◌, Option, none, some, arith, ◌>>=◌, load, store,
  After, After->>=, After-ok,
}
use team_otw_os_labs.Threads.{Semaphores}
use team_otw_os_labs.LinkedList.{Heap}
use team_otw_os_labs.SchedImpl.{
  SchedQueue, enter_sched_queue, leave_sched_queue, stop_running, start_running, post_queue,
  wait_for_cpu,
}
use team_otw_os_labs.Wrapper.{insert_item_tail, remove_item}
use team_otw_os_labs.Scheduler.{
  Policy, fifo, rr, Pc, uncreated, entering, waiting, working, leaving, loading, storing, unrunning,
  unqueueing, requeueing, posting, finished, SchedPc, worker_wait, granted, unrun, released, Worker,
  Shared, worker_step, wake, CanWork,
}

-- A worker between `wait_for_cpu` and the end of `release_cpu` counts as one.
abbrev pub inside : Pc → ℕ
inside uncreated = 0
inside entering = 0
inside (waiting n) = 0
inside finished = 0
inside _ = 1

-- The scheduler has woken a worker and not waited yet.
abbrev pub debt : SchedPc → ℕ
debt worker_wait = 1
debt _ = 0

inside-granted : (n : ℕ) → inside (granted n) ≡ 1
unfolding granted
inside-granted zero = refl
inside-granted (suc n) = refl

inside-unrun : (p : Policy) (n : Option ℕ) → inside (unrun p n) ≡ 1
unfolding unrun
inside-unrun fifo n = refl
inside-unrun rr n = refl

inside-released : (n : Option ℕ) → inside (released n) ≡ 0
unfolding released
inside-released none = refl
inside-released (some n) = refl

module _ (api : Semaphores) where
  open api use {Sem, value, value_wait, value_post}

  abbrev pub total : (Worker api → ℕ) → List (Worker api) → ℕ
  total f [] = 0
  total f (w ∷ ws) = f w + total f ws

  -- A worker that has the CPU, or may take it.
  abbrev pub token : Worker api → ℕ
  token w = value w.sem + inside w.pc

  pub total-append :
      (f : Worker api → ℕ) (xs ys : List (Worker api))
      → total f (xs ++ ys) ≡ total f xs + total f ys
  total-append f [] ys = omega arith
  total-append f (x ∷ xs) ys = omega (arith, total-append f xs ys)

  -- The calls on the two lists leave the queue's semaphore alone.
  abbrev pub Same : SchedQueue api → SchedQueue api × Heap → Type 0
  Same sq r = r.0.sem ≡ sq.sem

  enter_sem :
      (fresh info : ℕ) (sq : SchedQueue api) (h : Heap)
      → After (Same sq) (enter_sched_queue api fresh info sq h)
  unfolding enter_sched_queue
  enter_sem fresh info sq h =
      After->>= (Same sq) (insert_item_tail api fresh info sq.queue h) _ (λ r e. refl)

  leave_sem :
      (fuel info : ℕ) (sq : SchedQueue api) (h : Heap)
      → After (Same sq) (leave_sched_queue api fuel info sq h)
  unfolding leave_sched_queue
  leave_sem fuel info sq h =
      After->>= (Same sq) (remove_item api fuel info sq.queue h) _ (λ r e. refl)

  stop_sem :
      (fuel info : ℕ) (sq : SchedQueue api) (h : Heap)
      → After (Same sq) (stop_running api fuel info sq h)
  unfolding stop_running
  stop_sem fuel info sq h =
      After->>= (Same sq) (remove_item api fuel info sq.running h) _ (λ r e. refl)

  pub start_sem :
      (fresh info : ℕ) (sq : SchedQueue api) (h : Heap)
      → After (Same sq) (start_running api fresh info sq h)
  unfolding start_running
  start_sem fresh info sq h =
      After->>= (Same sq) (insert_item_tail api fresh info sq.running h) _ (λ r e. refl)

  -- A step of a worker moves tokens between the worker and the queue's semaphore.
  abbrev pub Paid : Pc → Sem → Shared api → Pc × Sem × Shared api → Type 0
  Paid pc sem sh r =
      value r.2.sq.sem + (value r.1 + inside r.0) ≡ value sh.sq.sem + (value sem + inside pc)

  pub worker_step-Paid :
      (p : Policy) (k fresh fuel info : ℕ) (pc : Pc) (sem : Sem) (sh : Shared api)
      → CanWork api pc sem
      → After (Paid pc sem sh) (worker_step api p k fresh fuel info pc sem sh)
  unfolding worker_step wait_for_cpu post_queue
  worker_step-Paid p k fresh fuel info uncreated sem sh can = refl
  worker_step-Paid p k fresh fuel info entering sem sh can =
      After->>= (Paid entering sem sh) (enter_sched_queue api fresh info sh.sq sh.heap) _
        (λ r e. rw (After-ok (Same sh.sq) e (enter_sem fresh info sh.sq sh.heap)))
  worker_step-Paid p k fresh fuel info (waiting n) sem sh can =
      rw (inside-granted n) (omega (arith, value_wait sem can))
  worker_step-Paid p k fresh fuel info (working n) sem sh can = refl
  worker_step-Paid p k fresh fuel info leaving sem sh can =
      After->>= (Paid leaving sem sh) (leave_sched_queue api fuel info sh.sq sh.heap) _
        (λ r e. rw (After-ok (Same sh.sq) e (leave_sem fuel info sh.sq sh.heap)))
  worker_step-Paid p k fresh fuel info loading sem sh can = refl
  worker_step-Paid p k fresh fuel info (storing v) sem sh can = refl
  worker_step-Paid p k fresh fuel info (unrunning n) sem sh can =
      After->>= (Paid (unrunning n) sem sh) (stop_running api fuel info sh.sq sh.heap) _
        (λ r e. rw (After-ok (Same sh.sq) e (stop_sem fuel info sh.sq sh.heap), inside-unrun p n))
  worker_step-Paid p k fresh fuel info (unqueueing n) sem sh can =
      After->>= (Paid (unqueueing n) sem sh) (leave_sched_queue api fuel info sh.sq sh.heap) _
        (λ r e. rw (After-ok (Same sh.sq) e (leave_sem fuel info sh.sq sh.heap)))
  worker_step-Paid p k fresh fuel info (requeueing n) sem sh can =
      After->>= (Paid (requeueing n) sem sh) (enter_sched_queue api fresh info sh.sq sh.heap) _
        (λ r e. rw (After-ok (Same sh.sq) e (enter_sem fresh info sh.sq sh.heap)))
  worker_step-Paid p k fresh fuel info (posting n) sem sh can =
      rw (inside-released n) (omega (arith, value_post sh.sq.sem))
  worker_step-Paid p k fresh fuel info finished sem sh can = refl

  -- Waking a worker raises its semaphore and leaves every worker where it stands.
  abbrev pub bump : Worker api → Worker api
  bump w = record w { sem = api.sem_post w.sem }

  wake_at :
      (f : Worker api → ℕ) (c : ℕ)
      → ((w : Worker api) → f (bump w) ≡ f w + c)
      → (i : ℕ) (ws : List (Worker api))
      → After (λ ws1. total f ws1 ≡ total f ws + c) (load ws i >>= λ w. store ws i (bump w))
  unfolding load store
  wake_at f c h i [] = tt
  wake_at f c h zero (w ∷ ws) = omega (arith, h w)
  wake_at f c h (suc i) (w ∷ ws) =
      After->>= (λ ws1. total f ws1 ≡ f w + total f ws + c) (load ws i) _
        (λ v e.
          After->>= (λ ws1. total f ws1 ≡ f w + total f ws + c) (store ws i (bump v)) _
            (λ ys e'.
              let ih : total f ys ≡ total f ws + c = rw (e, e') at (wake_at f c h i ws) in
              omega (arith, ih)))

  pub wake-total :
      (f : Worker api → ℕ) (c : ℕ)
      → ((w : Worker api) → f (bump w) ≡ f w + c)
      → (d : ℕ) (ws : List (Worker api))
      → After (λ ws1. total f ws1 ≡ total f ws + c) (wake api d ws)
  unfolding wake
  wake-total f c h zero ws = tt
  wake-total f c h (suc i) ws = wake_at f c h i ws
