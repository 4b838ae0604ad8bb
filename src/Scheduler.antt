-- ===== src/Scheduler.antt =====
-- totw_p4/scheduler.c: the workers and the scheduler as threads, cut at every call that another
-- thread may run before.
pub mod Tokens
pub mod Bound
pub mod Count
pub mod Serial
pub mod Stuck
mod Schedule
mod Tests
use team_otw_os_labs.Base.{
  ℕ, zero, suc, ◌+◌, ◌<◌, ◌≡◌, ◌≢◌, ◌==◌, List, [], ◌∷◌, ◌++◌, Bool, true, false, if◌then◌else◌,
  Option, none, some, replicate, length, Run, ok, fault, ◌>>=◌, sub_int, lt_int, load, store,
}
use team_otw_os_labs.Threads.{Semaphores}
use team_otw_os_labs.LinkedList.{Heap, read}
use team_otw_os_labs.Wrapper.{peek_item_head}
use team_otw_os_labs.SchedImpl.{
  SchedQueue, init_sched_queue, enter_sched_queue, leave_sched_queue, wait_for_cpu, stop_running,
  post_queue, start_running, wait_for_worker, candidate, wait_for_queue,
}

-- `sched_fifo` and `sched_rr`, which differ in `release_cpu` only.
pub data Policy : Type 0 where
  fifo rr : Policy

-- Where a worker stands in `worker_proc`, by the call that comes next. `waiting n` is
-- `wait_for_cpu` with `n` turns of the loop left (the call behind the loop at 0), `loading` and
-- `storing` are the two halves of `num_workers_remaining--`, and the rest from `unrunning` on is
-- `release_cpu`, which ends the loop's turn with `n` turns left or, at `none`, the thread.
pub data Pc : Type 0 where
  uncreated : Pc
  entering : Pc
  waiting : ℕ → Pc
  working : ℕ → Pc
  leaving : Pc
  loading : Pc
  storing : ℕ → Pc
  unrunning : Option ℕ → Pc
  unqueueing : Option ℕ → Pc
  requeueing : Option ℕ → Pc
  posting : Option ℕ → Pc
  finished : Pc

-- Where the scheduler stands in `sched_proc`.
pub data SchedPc : Type 0 where
  queue_wait : SchedPc
  testing : SchedPc
  peeking : SchedPc
  looking : ℕ → SchedPc
  advancing : ℕ → SchedPc
  marking : ℕ → SchedPc
  waking : ℕ → SchedPc
  worker_wait : SchedPc
  done : SchedPc

-- After `wait_for_cpu`, after the first call of `release_cpu`, and after its last one.
unfoldable pub granted : ℕ → Pc
granted zero = leaving
granted (suc n) = working n

unfoldable pub unrun : Policy → Option ℕ → Pc
unrun fifo n = posting n
unrun rr n = unqueueing n

unfoldable pub released : Option ℕ → Pc
released none = finished
released (some n) = waiting n

-- After one turn of the loop of `next_worker` at `elt`: the next step to the next element, the end
-- of the loop at a NULL, or `wake_up_worker`.
unfoldable pub chosen : (elt : ℕ) → Option ℕ → SchedPc
chosen elt none = advancing elt
chosen elt (some d) = if d == 0 then queue_wait else marking d

module _ (api : Semaphores) where
  open api use {Sem, value, sem_wait, sem_post}

  -- `worker_args_t`: where the thread stands, and the semaphore of its `info`.
  pub record Worker : Type 0 where
    pub pc : Pc
    pub sem : Sem

  -- The heap of the list elements, `queue`, `num_workers_remaining` and the static `done_thing`.
  pub record Shared : Type 0 where
    pub heap : Heap
    pub sq : SchedQueue api
    pub remaining : ℕ
    pub done_thing : Bool

  abbrev pub with_lists : Shared → SchedQueue api × Heap → Shared
  with_lists sh r = record sh { sq = r.0; heap = r.1 }

  -- `worker_proc` of the worker whose `info` has this address. `fresh` is what `malloc` returns and
  -- `fuel` bounds the walk along a list; `iterations` is 0 where the program's is negative.
  unfoldable pub worker_step :
      Policy → (iterations fresh fuel info : ℕ) → Pc → Sem → Shared → Run (Pc × Sem × Shared)
  unfolding granted unrun released
  worker_step p k fresh fuel info uncreated sem sh = ok (entering, sem, sh)
  worker_step p k fresh fuel info entering sem sh =
      enter_sched_queue api fresh info sh.sq sh.heap >>= λ r. ok (waiting k, sem, with_lists sh r)
  worker_step p k fresh fuel info (waiting n) sem sh = ok (granted n, wait_for_cpu api sem, sh)
  worker_step p k fresh fuel info (working n) sem sh = ok (unrunning (some n), sem, sh)
  worker_step p k fresh fuel info leaving sem sh =
      leave_sched_queue api fuel info sh.sq sh.heap >>= λ r. ok (loading, sem, with_lists sh r)
  worker_step p k fresh fuel info loading sem sh = ok (storing sh.remaining, sem, sh)
  worker_step p k fresh fuel info (storing v) sem sh =
      ok (unrunning none, sem, record sh { remaining = sub_int v 1 })
  worker_step p k fresh fuel info (unrunning n) sem sh =
      stop_running api fuel info sh.sq sh.heap >>= λ r. ok (unrun p n, sem, with_lists sh r)
  worker_step p k fresh fuel info (unqueueing n) sem sh =
      leave_sched_queue api fuel info sh.sq sh.heap >>= λ r. ok (requeueing n, sem, with_lists sh r)
  worker_step p k fresh fuel info (requeueing n) sem sh =
      enter_sched_queue api fresh info sh.sq sh.heap >>= λ r. ok (posting n, sem, with_lists sh r)
  worker_step p k fresh fuel info (posting n) sem sh =
      ok (released n, sem, record sh { sq = post_queue api sh.sq })
  worker_step p k fresh fuel info finished sem sh = ok (finished, sem, sh)

  -- The second call of `wake_up_worker`: the worker `i` has its `info` at the address `i + 1`.
  unfoldable pub wake : ℕ → List Worker → Run (List Worker)
  wake zero ws = fault
  wake (suc i) ws = load ws i >>= λ w. store ws i (record w { sem = sem_post w.sem })

  -- `sched_proc`
  unfoldable pub sched_step :
      (fresh fuel : ℕ) → SchedPc → List Worker → Shared → Run (SchedPc × List Worker × Shared)
  unfolding wake chosen
  sched_step fresh fuel queue_wait ws sh =
      wait_for_queue api fuel sh.done_thing sh.sq sh.heap >>= λ r.
      ok (if r.0 then testing else queue_wait, ws, record sh { done_thing = r.0; sq = r.1 })
  sched_step fresh fuel testing ws sh = ok (if lt_int 0 sh.remaining then peeking else done, ws, sh)
  sched_step fresh fuel peeking ws sh =
      let (elt, q) = peek_item_head api sh.sq.queue in
      ok (
        if elt == 0 then queue_wait else looking elt,
        ws,
        record sh { sq = record sh.sq { queue = q } },
      )
  sched_step fresh fuel (looking elt) ws sh =
      candidate api fuel elt sh.sq sh.heap >>= λ r. ok (chosen elt r.0, ws, record sh { sq = r.1 })
  sched_step fresh fuel (advancing elt) ws sh =
      read sh.heap elt >>= λ e. ok (if e.next == 0 then queue_wait else looking e.next, ws, sh)
  sched_step fresh fuel (marking d) ws sh =
      start_running api fresh d sh.sq sh.heap >>= λ r. ok (waking d, ws, with_lists sh r)
  sched_step fresh fuel (waking d) ws sh = wake d ws >>= λ ws1. ok (worker_wait, ws1, sh)
  sched_step fresh fuel worker_wait ws sh =
      ok (testing, ws, record sh { sq = wait_for_worker api sh.sq })
  sched_step fresh fuel done ws sh = ok (done, ws, sh)

  pub record System : Type 0 where
    pub sched : SchedPc
    pub workers : List Worker
    pub shared : Shared

  -- `smp4_main` up to the creation of the threads. The scheduler's thread starts first, but waits
  -- for the queue, which is empty until `create_workers` has set `num_workers_remaining`. `busy` is
  -- a semaphore after `sem_init(info->sem, 0, -1)`.
  unfoldable pub smp4_main : (busy : Sem) → (queue_size thread_count : ℕ) → System
  unfolding init_sched_queue
  smp4_main busy queue_size thread_count = record {
    sched = queue_wait;
    workers = replicate thread_count (record { pc = uncreated; sem = busy });
    shared = record {
      heap = λ _. none;
      sq = init_sched_queue api queue_size;
      remaining = thread_count;
      done_thing = false;
    };
  }

  -- A worker blocks in `wait_for_cpu`, and the scheduler in `wait_for_worker`, while the
  -- semaphore's value is 0.
  abbrev pub CanWork : Pc → Sem → Type 0
  CanWork (waiting n) sem = 0 < value sem
  CanWork _ sem = Unit

  abbrev pub CanSchedule : SchedPc → Shared → Type 0
  CanSchedule worker_wait sh = 0 < value sh.sq.sem
  CanSchedule _ sh = Unit

  -- Some thread makes a step. `main` creates the workers in order; here any order is possible.
  -- `malloc` returns an address that is not NULL and not in use.
  pub data Step (p : Policy) (k : ℕ) (s s' : System) : Type 0 where
    work :
        (ls : List Worker) (t : Worker) (rs : List Worker) (fresh fuel : ℕ) (pc : Pc) (sem : Sem)
        (sh : Shared)
        → s.workers ≡ ls ++ t ∷ rs
        → CanWork t.pc t.sem
        → fresh ≢ 0
        → s.shared.heap fresh ≡ none
        → worker_step p k fresh fuel (length ls + 1) t.pc t.sem s.shared ≡ ok (pc, sem, sh)
        → s' ≡ record s { workers = ls ++ record { pc = pc; sem = sem } ∷ rs; shared = sh }
        → Step p k s s'
    schedule :
        (fresh fuel : ℕ) (pc : SchedPc) (ws : List Worker) (sh : Shared)
        → CanSchedule s.sched s.shared
        → fresh ≢ 0
        → s.shared.heap fresh ≡ none
        → sched_step fresh fuel s.sched s.workers s.shared ≡ ok (pc, ws, sh)
        → s' ≡ record { sched = pc; workers = ws; shared = sh }
        → Step p k s s'

  pub data Reach (p : Policy) (k : ℕ) (s : System) : System → Type 0 where
    here : Reach p k s s
    next : {s' s'' : System} → Reach p k s s' → Step p k s' s'' → Reach p k s s''
