-- ===== src/Scheduler/Count.antt =====
-- `num_workers_remaining` of totw_p4/scheduler.c where one worker runs at a time.
use team_otw_os_labs.Base.{
  ℕ, zero, suc, ◌+◌, ◌<◌, ◌≤◌, ◌≡◌, ◌≢◌, refl, List, [], ◌∷◌, Bool, true, false, Option, none, some,
  arith, ok, After, After->>=, After-ok, if◌then◌else◌, sub_int, lt_int, IsSmall, ◌==◌, eq_refl,
  Bool-cases, inl, inr,
}
use team_otw_os_labs.Threads.{Semaphores}
use team_otw_os_labs.LinkedList.{read}
use team_otw_os_labs.SchedImpl.{
  enter_sched_queue, leave_sched_queue, stop_running, start_running, candidate, wait_for_queue,
}
use team_otw_os_labs.Scheduler.{
  Policy, fifo, rr, Pc, uncreated, entering, waiting, working, leaving, loading, storing, unrunning,
  unqueueing, requeueing, posting, finished, SchedPc, queue_wait, testing, peeking, looking,
  advancing, marking, waking, worker_wait, done, granted, unrun, released, chosen, Worker, Shared,
  System, worker_step, wake, sched_step,
}
use team_otw_os_labs.Scheduler.Tokens.{inside, total, bump, wake-total}
use team_otw_os_labs.Scheduler.Bound.{busy_count}

-- A worker that has taken itself off the count.
abbrev pub ends : Option ℕ → ℕ
ends none = 1
ends (some n) = 0

abbrev pub stored : Pc → ℕ
stored (unrunning n) = ends n
stored (unqueueing n) = ends n
stored (requeueing n) = ends n
stored (posting n) = ends n
stored finished = 1
stored _ = 0

-- A worker that has loaded a count that is not the present one.
abbrev pub stale : ℕ → Pc → ℕ
stale r (storing v) = if v == r then 0 else 1
stale r _ = 0

stale-le-inside : (r : ℕ) (pc : Pc) → stale r pc ≤ inside pc
stale-le-inside r (storing v) = ground arith
stale-le-inside r pc = omega arith

last_less : (v r : ℕ) → stale r (storing v) ≡ 0 → 0 < r → IsSmall r → sub_int v 1 + 1 ≡ r + 0
unfolding sub_int
last_less v r s pos small = ground arith

le_refl : (n : ℕ) → n ≤ n
le_refl n = omega arith

granted_calm : (r n : ℕ) → (stale r (granted n) ≡ 0) × (stored (granted n) ≡ 0)
unfolding granted
granted_calm r zero = (refl, refl)
granted_calm r (suc n) = (refl, refl)

unrun_calm :
    (r : ℕ) (p : Policy) (n : Option ℕ) → (stale r (unrun p n) ≡ 0) × (stored (unrun p n) ≡ ends n)
unfolding unrun
unrun_calm r fifo n = (refl, refl)
unrun_calm r rr n = (refl, refl)

released_calm : (r : ℕ) (n : Option ℕ) → (stale r (released n) ≡ 0) × (stored (released n) ≡ ends n)
unfolding released
released_calm r none = (refl, refl)
released_calm r (some n) = (refl, refl)

not_done_if :
    {A : Type 0} (b : Bool) (x y : SchedPc) → x ≢ done → y ≢ done → (if b then x else y) ≡ done → A
not_done_if true x y h k e = absurd (h e)
not_done_if false x y h k e = absurd (k e)

goes_on : {A : Type 0} (b : Bool) → b ≡ true → (if b then peeking else done) ≡ done → A
goes_on true h e = cc
goes_on false h e = cc

chosen-ne-done : (elt : ℕ) (o : Option ℕ) → chosen elt o ≢ done
unfolding chosen
chosen-ne-done elt none e = cc
chosen-ne-done elt (some d) e = not_done_if (d == 0) queue_wait (marking d) (λ e. cc) (λ e. cc) e

module _ (api : Semaphores) where
  open api use {Sem, value}

  abbrev pub Effect : Pc → Shared api → Pc × Sem × Shared api → Type 0
  Effect pc sh r =
      (stale r.2.remaining r.0 ≡ 0)
      × (r.2.remaining + stored r.0 ≡ sh.remaining + stored pc)
      × (inside pc ≡ 0 → r.2.remaining ≡ sh.remaining)
      × (r.2.remaining ≤ sh.remaining)

  pub worker_step-Effect :
      (p : Policy) (k fresh fuel info : ℕ) (pc : Pc) (sem : Sem) (sh : Shared api)
      → stale sh.remaining pc ≡ 0
      → (stored pc ≡ 0 → 0 < sh.remaining)
      → IsSmall sh.remaining
      → After (Effect pc sh) (worker_step api p k fresh fuel info pc sem sh)
  unfolding worker_step
  worker_step-Effect p k fresh fuel info uncreated sem sh s z small =
      (refl, refl, λ _. refl, le_refl sh.remaining)
  worker_step-Effect p k fresh fuel info entering sem sh s z small =
      After->>= (Effect entering sh) (enter_sched_queue api fresh info sh.sq sh.heap) _
        (λ r e. (refl, refl, λ _. refl, le_refl sh.remaining))
  worker_step-Effect p k fresh fuel info (waiting n) sem sh s z small =
      let (a, b) = granted_calm sh.remaining n in (a, rw b, λ _. refl, le_refl sh.remaining)
  worker_step-Effect p k fresh fuel info (working n) sem sh s z small =
      (refl, refl, λ _. refl, le_refl sh.remaining)
  worker_step-Effect p k fresh fuel info leaving sem sh s z small =
      After->>= (Effect leaving sh) (leave_sched_queue api fuel info sh.sq sh.heap) _
        (λ r e. (refl, refl, λ _. refl, le_refl sh.remaining))
  worker_step-Effect p k fresh fuel info loading sem sh s z small =
      (rw (eq_refl sh.remaining), refl, λ _. refl, le_refl sh.remaining)
  worker_step-Effect p k fresh fuel info (storing v) sem sh s z small = (
    refl,
    last_less v sh.remaining s (z refl) small,
    λ e. absurd (omega arith),
    omega (arith, last_less v sh.remaining s (z refl) small),
  )
  worker_step-Effect p k fresh fuel info (unrunning n) sem sh s z small =
      let (a, b) = unrun_calm sh.remaining p n in
      After->>= (Effect (unrunning n) sh) (stop_running api fuel info sh.sq sh.heap) _
        (λ r e. (a, rw b, λ _. refl, le_refl sh.remaining))
  worker_step-Effect p k fresh fuel info (unqueueing n) sem sh s z small =
      After->>= (Effect (unqueueing n) sh) (leave_sched_queue api fuel info sh.sq sh.heap) _
        (λ r e. (refl, refl, λ _. refl, le_refl sh.remaining))
  worker_step-Effect p k fresh fuel info (requeueing n) sem sh s z small =
      After->>= (Effect (requeueing n) sh) (enter_sched_queue api fresh info sh.sq sh.heap) _
        (λ r e. (refl, refl, λ _. refl, le_refl sh.remaining))
  worker_step-Effect p k fresh fuel info (posting n) sem sh s z small =
      let (a, b) = released_calm sh.remaining n in (a, rw b, λ _. refl, le_refl sh.remaining)
  worker_step-Effect p k fresh fuel info finished sem sh s z small =
      (refl, refl, λ _. refl, le_refl sh.remaining)

  abbrev pub all_stored : List (Worker api) → ℕ
  all_stored ws = total api (λ w. stored w.pc) ws

  abbrev pub all_stale : ℕ → List (Worker api) → ℕ
  all_stale r ws = total api (λ w. stale r w.pc) ws

  abbrev pub many : List (Worker api) → ℕ
  many ws = total api (λ _. 1) ws

  -- The scheduler ends only at a count of 0.
  abbrev pub Over : SchedPc → ℕ → Type 0
  Over done r = r ≡ 0
  Over _ r = Unit

  abbrev pub Quiet :
      SchedPc → List (Worker api) → Shared api → SchedPc × List (Worker api) × Shared api → Type 0
  Quiet pc ws sh r =
      (r.2.remaining ≡ sh.remaining)
      × ((f : Worker api → ℕ)
          → ((w : Worker api) → f (bump api w) ≡ f w)
          → total api f r.1 ≡ total api f ws)
      × Over r.0 sh.remaining
      × (lt_int 0 sh.remaining ≡ true → r.0 ≡ done → pc ≡ done)

  Over-ite : (b : Bool) (x y : SchedPc) (r : ℕ) → Over x r → Over y r → Over (if b then x else y) r
  Over-ite true x y r h k = h
  Over-ite false x y r h k = k

  Over-chosen : (elt : ℕ) (o : Option ℕ) (r : ℕ) → Over (chosen elt o) r
  unfolding chosen
  Over-chosen elt none r = tt
  Over-chosen elt (some d) r = Over-ite (d == 0) queue_wait (marking d) r tt tt

  Over-next : (r : ℕ) → IsSmall r → Over (if lt_int 0 r then peeking else done) r
  unfolding lt_int
  Over-next r small = elim (Bool-cases (lt_int 0 r)) [
    | inl h ↦ rw h tt
    | inr h ↦ rw h (zero_if r h small)
  ]
    where
      zero_if : (r : ℕ) → lt_int 0 r ≡ false → IsSmall r → r ≡ 0
      zero_if r h small = ground arith

  pub sched_step-Quiet :
      (fresh fuel : ℕ) (pc : SchedPc) (ws : List (Worker api)) (sh : Shared api)
      → IsSmall sh.remaining
      → Over pc sh.remaining
      → After (Quiet pc ws sh) (sched_step api fresh fuel pc ws sh)
  unfolding sched_step
  sched_step-Quiet fresh fuel queue_wait ws sh small o =
      After->>= (Quiet queue_wait ws sh) (wait_for_queue api fuel sh.done_thing sh.sq sh.heap) _
        (λ r e. (
          refl,
          λ f h. refl,
          Over-ite r.0 testing queue_wait sh.remaining tt tt,
          λ _ d. not_done_if r.0 testing queue_wait (λ e. cc) (λ e. cc) d,
        ))
  sched_step-Quiet fresh fuel testing ws sh small o = (
    refl,
    λ f h. refl,
    Over-next sh.remaining small,
    λ pos d. goes_on (lt_int 0 sh.remaining) pos d,
  )
  sched_step-Quiet fresh fuel peeking ws sh small o = (
    refl,
    λ f h. refl,
    Over-ite _ queue_wait (looking _) sh.remaining tt tt,
    λ _ d. not_done_if _ queue_wait (looking _) (λ e. cc) (λ e. cc) d,
  )
  sched_step-Quiet fresh fuel (looking elt) ws sh small o =
      After->>= (Quiet (looking elt) ws sh) (candidate api fuel elt sh.sq sh.heap) _ (λ r e. (
        refl,
        λ f h. refl,
        Over-chosen elt r.0 sh.remaining,
        λ _ d. absurd (chosen-ne-done elt r.0 d),
      ))
  sched_step-Quiet fresh fuel (advancing elt) ws sh small o =
      After->>= (Quiet (advancing elt) ws sh) (read sh.heap elt) _ (λ e _. (
        refl,
        λ f h. refl,
        Over-ite (e.next == 0) queue_wait (looking e.next) sh.remaining tt tt,
        λ _ d. not_done_if (e.next == 0) queue_wait (looking e.next) (λ e. cc) (λ e. cc) d,
      ))
  sched_step-Quiet fresh fuel (marking d) ws sh small o =
      After->>= (Quiet (marking d) ws sh) (start_running api fresh d sh.sq sh.heap) _
        (λ r e. (refl, λ f h. refl, tt, λ _ e. cc))
  sched_step-Quiet fresh fuel (waking d) ws sh small o =
      After->>= (Quiet (waking d) ws sh) (wake api d ws) _
        (λ ws1 e. (refl, λ f h. kept f h e, tt, λ _ e. cc))
    where
      kept :
          (f : Worker api → ℕ)
          → ((w : Worker api) → f (bump api w) ≡ f w)
          → {ws1 : List (Worker api)} → wake api d ws ≡ ok ws1
          → total api f ws1 ≡ total api f ws
      kept f h {ws1} e =
          let r =
            After-ok (λ ys. total api f ys ≡ total api f ws + 0) e
              (wake-total api f 0 (λ w. omega (arith, h w)) d ws) in
          omega (arith, r)
  sched_step-Quiet fresh fuel worker_wait ws sh small o = (refl, λ f h. refl, tt, λ _ e. cc)
  sched_step-Quiet fresh fuel done ws sh small o = (refl, λ f h. refl, o, λ _ e. refl)

  pub record Counted (n : ℕ) (s : System api) : Type 0 where
    pub counted : s.shared.remaining + all_stored s.workers ≡ n
    pub current : all_stale s.shared.remaining s.workers ≡ 0
    pub number : many s.workers ≡ n
    pub over : Over s.sched s.shared.remaining

  pub stored-le-many : (ws : List (Worker api)) → all_stored ws ≤ many ws
  stored-le-many [] = omega arith
  stored-le-many (w ∷ ws) = omega (arith, stored-le-many ws, small w.pc)
    where
      ends-le : (n : Option ℕ) → ends n ≤ 1
      ends-le none = omega arith
      ends-le (some n) = omega arith

      small : (pc : Pc) → stored pc ≤ 1
      small (unrunning n) = ends-le n
      small (unqueueing n) = ends-le n
      small (requeueing n) = ends-le n
      small (posting n) = ends-le n
      small finished = omega arith
      small _ = omega arith

  pub stale-le-busy : (r : ℕ) (ws : List (Worker api)) → all_stale r ws ≤ busy_count api ws
  stale-le-busy r [] = omega arith
  stale-le-busy r (w ∷ ws) = omega (arith, stale-le-busy r ws, stale-le-inside r w.pc)
