-- ===== src/Scheduler/Stuck.antt =====
-- Two workers of totw_p4/scheduler.c that decrement `num_workers_remaining` at the same time.
use team_otw_os_labs.Base.{
  ℕ, ◌+◌, ◌≡◌, ◌≢◌, refl, sym, ap, ◌∙◌, List, ◌∷◌, ◌++◌, none, arith, length, ok, After-ok, IsSmall,
  sub_int, lt_int, append_assoc, ok-injective, true,
}
use team_otw_os_labs.Threads.{Semaphores}
use team_otw_os_labs.Scheduler.{
  Policy, Pc, loading, storing, unrunning, finished, SchedPc, queue_wait, testing, peeking, looking,
  advancing, marking, waking, worker_wait, done, Worker, Shared, System, worker_step, Step, work,
  schedule, Reach, here, next,
}
use team_otw_os_labs.Scheduler.Tokens.{total, total-append}
use team_otw_os_labs.Scheduler.Count.{Over, Quiet, sched_step-Quiet}

module _ (api : Semaphores) where
  open api use {Sem}

  -- From every state in which two workers are about to decrement the count, the threads can come
  -- to a state in which both have done so and the count is one less, not two.
  pub lost_update :
      (p : Policy) (k fresh : ℕ) (s : System api) (ls ms rs : List (Worker api)) (a b : Sem)
      → s.workers
        ≡ ls ++ record { pc = loading; sem = a } ∷ (ms ++ record { pc = loading; sem = b } ∷ rs)
      → fresh ≢ 0
      → s.shared.heap fresh ≡ none
      → (s' : System api) × Reach api p k s s'
        × (s'.workers
            ≡ ls
              ++ record { pc = unrunning none; sem = a }
                ∷ (ms ++ record { pc = unrunning none; sem = b } ∷ rs))
        × (s'.shared ≡ record s.shared { remaining = sub_int s.shared.remaining 1 })
  unfolding worker_step
  lost_update p k fresh s ls ms rs a b e real free = (
    s4,
    next (next (next (next here step1) step2) step3) step4,
    append_assoc ls (at_a (unrunning none) ∷ ms) (at_b (unrunning none) ∷ rs),
    refl,
  )
    where
      r : ℕ
      r = s.shared.remaining

      at_a : Pc → Worker api
      at_a pc = record { pc = pc; sem = a }

      at_b : Pc → Worker api
      at_b pc = record { pc = pc; sem = b }

      less : Shared api
      less = record s.shared { remaining = sub_int r 1 }

      s1 : System api
      s1 = record s { workers = ls ++ at_a (storing r) ∷ (ms ++ at_b loading ∷ rs) }

      s2 : System api
      s2 = record s { workers = (ls ++ at_a (storing r) ∷ ms) ++ at_b (storing r) ∷ rs }

      s3 : System api
      s3 = record s {
        workers = ls ++ at_a (unrunning none) ∷ (ms ++ at_b (storing r) ∷ rs);
        shared = less;
      }

      s4 : System api
      s4 = record s {
        workers = (ls ++ at_a (unrunning none) ∷ ms) ++ at_b (unrunning none) ∷ rs;
        shared = less;
      }

      step1 : Step api p k s s1
      step1 =
          work ls (at_a loading) (ms ++ at_b loading ∷ rs) fresh 0 (storing r) a s.shared e tt real
            free refl refl

      step2 : Step api p k s1 s2
      step2 =
          work (ls ++ at_a (storing r) ∷ ms) (at_b loading) rs fresh 0 (storing r) b s.shared
            (sym (append_assoc ls (at_a (storing r) ∷ ms) (at_b loading ∷ rs))) tt real free refl
            refl

      step3 : Step api p k s2 s3
      step3 =
          work ls (at_a (storing r)) (ms ++ at_b (storing r) ∷ rs) fresh 0 (unrunning none) a less
            (append_assoc ls (at_a (storing r) ∷ ms) (at_b (storing r) ∷ rs)) tt real free refl refl

      step4 : Step api p k s3 s4
      step4 =
          work (ls ++ at_a (unrunning none) ∷ ms) (at_b (storing r)) rs fresh 0 (unrunning none) b
            less (sym (append_assoc ls (at_a (unrunning none) ∷ ms) (at_b (storing r) ∷ rs))) tt
            real free refl refl

  abbrev idle : Pc → ℕ
  idle finished = 0
  idle _ = 1

  -- Every worker is gone, and the count says otherwise.
  pub record IsStuck (s : System api) : Type 0 where
    pub all_finished : total api (λ w. idle w.pc) s.workers ≡ 0
    pub positive : lt_int 0 s.shared.remaining ≡ true
    pub small : IsSmall s.shared.remaining
    pub scheduling : s.sched ≢ done

  finished-of : (pc : Pc) → idle pc ≡ 0 → pc ≡ finished
  finished-of finished e = refl
  finished-of _ e = absurd (omega arith)

  finished_step :
      (p : Policy) (k fresh fuel info : ℕ) (pc : Pc) (sem : Sem) (sh : Shared api)
      → pc ≡ finished
      → worker_step api p k fresh fuel info pc sem sh ≡ ok (finished, sem, sh)
  unfolding worker_step
  finished_step p k fresh fuel info pc sem sh e = rw e

  Over-of : (pc : SchedPc) (r : ℕ) → pc ≢ done → Over api pc r
  Over-of done r n = absurd (n refl)
  Over-of queue_wait r n = tt
  Over-of testing r n = tt
  Over-of peeking r n = tt
  Over-of (looking e) r n = tt
  Over-of (advancing e) r n = tt
  Over-of (marking d) r n = tt
  Over-of (waking d) r n = tt
  Over-of worker_wait r n = tt

  Step-IsStuck :
      {p : Policy} {k : ℕ} {s s' : System api} → Step api p k s s' → IsStuck s → IsStuck s'
  Step-IsStuck {p} {k} {s} (work ls t rs fresh fuel pc sem sh e can real free run e') i =
      let ends : total api (λ w. idle w.pc) (ls ++ t ∷ rs) ≡ 0 = rw e at i.all_finished in
      let gone =
        finished-of t.pc (omega (arith, ends, total-append api (λ w. idle w.pc) ls (t ∷ rs))) in
      let same =
        sym (finished_step p k fresh fuel (length ls + 1) t.pc t.sem s.shared gone) ∙ run in
      let pc_is : finished ≡ pc = ap (λ r. r.0) (ok-injective same) in
      let sh_is : s.shared ≡ sh = ap (λ r. r.2) (ok-injective same) in
      let still : idle pc ≡ 0 = ap idle (sym pc_is) in
      rw e' (record {
        all_finished = omega (
          arith,
          ends,
          still,
          total-append api (λ w. idle w.pc) ls (t ∷ rs),
          total-append api (λ w. idle w.pc) ls (record { pc = pc; sem = sem } ∷ rs),
        );
        positive = rw (← sh_is) i.positive;
        small = rw (← sh_is) i.small;
        scheduling = i.scheduling;
      })
  Step-IsStuck {s = s} (schedule fresh fuel pc ws sh can real free run e') i =
      let (same, totals, _, goes) = After-ok (Quiet api s.sched s.workers s.shared) run (
        sched_step-Quiet api fresh fuel s.sched s.workers s.shared i.small
          (Over-of s.sched s.shared.remaining i.scheduling)) in
      rw e' (record {
        all_finished = totals (λ w. idle w.pc) (λ w. refl) ∙ i.all_finished;
        positive = rw same i.positive;
        small = rw same i.small;
        scheduling = λ d. i.scheduling (goes i.positive d);
      })

  -- Once every worker is gone while `num_workers_remaining` is positive, the scheduler never ends,
  -- whatever the threads do.
  pub never_done :
      (p : Policy) (k : ℕ) {s s' : System api} → IsStuck s → Reach api p k s s' → s'.sched ≢ done
  never_done p k i r = (go i r).scheduling
    where
      go : {s s' : System api} → IsStuck s → Reach api p k s s' → IsStuck s'
      go i here = i
      go i (next r st) = Step-IsStuck st (go i r)
