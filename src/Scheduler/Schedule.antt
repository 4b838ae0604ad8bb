-- ===== src/Scheduler/Schedule.antt =====
-- Runs of the threads of totw_p4/scheduler.c in a given order, under plain semaphores.
use team_otw_os_labs.Base.{
  ℕ, zero, suc, ◌+◌, ◌≡◌, ◌≢◌, refl, ap, List, [], ◌∷◌, ◌++◌, Option, none, some, arith, length,
  Run, ok, fault, out_of_fuel, map, load, store, sub_int, lt_int, add_int,
}
use native.Mathlib.Decide.{dec_lt}
use team_otw_os_labs.Threads.Plain.{plain}
use team_otw_os_labs.LinkedList.{
  Elem, list_size, list_elem_init, list_insert_tail, list_get_head, list_remove_elem, put, read,
  write,
}
use team_otw_os_labs.Wrapper.{
  insert_item_tail, remove_item, wrapper_size, elt_in_list, peek_item_head,
}
use team_otw_os_labs.SchedImpl.{
  enter_sched_queue, leave_sched_queue, wait_for_cpu, stop_running, post_queue, start_running,
  wait_for_worker, candidate, wait_for_queue,
}
use team_otw_os_labs.Scheduler.{
  fifo, Pc, waiting, SchedPc, worker_wait, Worker, Shared, System, worker_step, sched_step, CanWork,
  CanSchedule, smp4_main, work, schedule, Reach, here, next,
}

-- Who makes the next step: a worker, by its place, or the scheduler.
pub data Turn : Type 0 where
  worker : ℕ → Turn
  scheduler : Turn

pub record Place (ws : List (Worker plain)) : Type 0 where
  pub before : List (Worker plain)
  pub this : Worker plain
  pub after : List (Worker plain)
  pub eq : ws ≡ before ++ this ∷ after

place : ℕ → (ws : List (Worker plain)) → Option (Place ws)
place i [] = none
place zero (w ∷ ws) = some (record { before = []; this = w; after = ws; eq = refl })
place (suc i) (w ∷ ws) = elim (place i ws) [
  | none ↦ none
  | some p ↦
      some (record {
        before = w ∷ p.before;
        this = p.this;
        after = p.after;
        eq = ap (λ l. w ∷ l) p.eq;
      })
]

can_work : (pc : Pc) (sem : ℕ) → Option (CanWork plain pc sem)
can_work (waiting n) sem = elim (dec_lt 0 sem) [ yes h ↦ some h | no _ ↦ none ]
can_work Pc.uncreated sem = some tt
can_work Pc.entering sem = some tt
can_work (Pc.working n) sem = some tt
can_work Pc.leaving sem = some tt
can_work Pc.loading sem = some tt
can_work (Pc.storing v) sem = some tt
can_work (Pc.unrunning n) sem = some tt
can_work (Pc.unqueueing n) sem = some tt
can_work (Pc.requeueing n) sem = some tt
can_work (Pc.posting n) sem = some tt
can_work Pc.finished sem = some tt

can_schedule : (pc : SchedPc) (sh : Shared plain) → Option (CanSchedule plain pc sh)
can_schedule worker_wait sh = elim (dec_lt 0 sh.sq.sem) [ yes h ↦ some h | no _ ↦ none ]
can_schedule SchedPc.queue_wait sh = some tt
can_schedule SchedPc.testing sh = some tt
can_schedule SchedPc.peeking sh = some tt
can_schedule (SchedPc.looking e) sh = some tt
can_schedule (SchedPc.advancing e) sh = some tt
can_schedule (SchedPc.marking d) sh = some tt
can_schedule (SchedPc.waking d) sh = some tt
can_schedule SchedPc.done sh = some tt

result_of : {A : Type 0} (r : Run A) → Option ((a : A) × (r ≡ ok a))
result_of (ok a) = some (a, refl)
result_of fault = none
result_of out_of_fuel = none

none_of : (o : Option Elem) → Option (o ≡ none)
none_of none = some refl
none_of (some e) = none

-- The lowest address from `a` on that is not in use, among `n`.
free_from : (n a : ℕ) (h : ℕ → Option Elem) → Option ((b : ℕ) × (h b ≡ none))
free_from zero a h = none
free_from (suc n) a h = elim (none_of (h a)) [ some e ↦ some (a, e) | none ↦ free_from n (a + 1) h ]

nonzero? : (a : ℕ) → Option (a ≢ 0)
nonzero? a = elim (dec_lt 0 a) [ yes h ↦ some (λ e. omega arith) | no _ ↦ none ]

-- A reached state; a turn that cannot be taken is skipped.
pub record Trace (s0 : System plain) : Type 0 where
  pub last : System plain
  pub reach : Reach plain fifo 0 s0 last

turn : {s0 : System plain} → Trace s0 → Turn → Trace s0
unfolding place can_work can_schedule none_of result_of free_from nonzero? dec_lt smp4_main
    worker_step sched_step enter_sched_queue leave_sched_queue wait_for_cpu stop_running post_queue
    start_running wait_for_worker candidate wait_for_queue insert_item_tail remove_item wrapper_size
    elt_in_list peek_item_head list_size list_elem_init list_insert_tail list_get_head
    list_remove_elem put read write load store sub_int lt_int add_int
turn tr scheduler =
    let s = tr.last in
    elim (can_schedule s.sched s.shared) [
      | none ↦ tr
      | some can ↦ elim (free_from 20 1 s.shared.heap) [
        | none ↦ tr
        | some (b, free) ↦ elim (nonzero? b) [
          | none ↦ tr
          | some real ↦ elim (result_of (sched_step plain b 20 s.sched s.workers s.shared)) [
            | none ↦ tr
            | some (r, e) ↦ record {
              last = record { sched = r.0; workers = r.1; shared = r.2 };
              reach = next tr.reach (schedule b 20 r.0 r.1 r.2 can real free e refl);
            }
          ]
        ]
      ]
    ]
turn tr (worker i) =
    let s = tr.last in
    elim (place i s.workers) [
      | none ↦ tr
      | some p ↦ elim (can_work p.this.pc p.this.sem) [
        | none ↦ tr
        | some can ↦ elim (free_from 20 1 s.shared.heap) [
          | none ↦ tr
          | some (b, free) ↦ elim (nonzero? b) [
            | none ↦ tr
            | some real ↦
                elim (result_of (
                  worker_step plain fifo 0 b 20 (length p.before + 1) p.this.pc p.this.sem
                    s.shared)) [
                      | none ↦ tr
                      | some (r, e) ↦ record {
                        last = record s {
                          workers = p.before ++ record { pc = r.0; sem = r.1 } ∷ p.after;
                          shared = r.2;
                        };
                        reach = next tr.reach (
                            work p.before p.this p.after b 20 r.0 r.1 r.2 p.eq can real free e
                              refl);
                      }
                    ]
          ]
        ]
      ]
    ]

unfoldable pub run : {s0 : System plain} → Trace s0 → List Turn → Trace s0
unfolding turn
run tr [] = tr
run tr (t ∷ ts) = run (turn tr t) ts

unfoldable pub times : ℕ → Turn → List Turn
times zero t = []
times (suc n) t = t ∷ times n t

-- Two workers under a queue size of 2, from the start up to the two decrements.
abbrev pub both_loading : Trace (smp4_main plain 0 2 2)
both_loading =
    run (record { last = smp4_main plain 0 2 2; reach = here })
      (times 2 (worker 0)
        ++ (times 2 (worker 1)
            ++ (times 14 scheduler ++ (times 2 (worker 0) ++ times 2 (worker 1)))))

-- Both load, both store, and both go.
abbrev pub both_gone : Trace (smp4_main plain 0 2 2)
both_gone =
    run both_loading
      (worker 0 ∷ worker 1 ∷ worker 0 ∷ worker 1 ∷ (times 2 (worker 0) ++ times 2 (worker 1)))

abbrev pub pcs : List (Worker plain) → List Pc
pcs ws = map (λ w. w.pc) ws
