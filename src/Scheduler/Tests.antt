-- ===== src/Scheduler/Tests.antt =====
-- Examples: two workers that run to the end, under a queue size of 2 and of 1.
use team_otw_os_labs.Base.{◌+◌, ◌≡◌, ◌≢◌, ◌≤◌, refl, [], ◌∷◌, ◌++◌, none, arith, sub_int, lt_int}
use team_otw_os_labs.Threads.Plain.{plain}
use team_otw_os_labs.Scheduler.{
  fifo, Pc, unrunning, finished, done, Worker, System, smp4_main, Reach, here,
}
use team_otw_os_labs.Scheduler.Bound.{busy_count, workers_bound}
use team_otw_os_labs.Scheduler.Count.{all_stored}
use team_otw_os_labs.Scheduler.Serial.{remaining_exact}
use team_otw_os_labs.Scheduler.Stuck.{IsStuck, lost_update, never_done}
use team_otw_os_labs.Scheduler.Schedule.{
  Trace, worker, scheduler, run, times, both_loading, both_gone,
}

both_gone-IsStuck : IsStuck plain both_gone.last
unfolding run times lt_int
both_gone-IsStuck = record {
  all_finished = refl;
  positive = refl;
  small = omega arith;
  scheduling = λ e. cc;
}

abbrev later : Trace both_gone.last
later = run (record { last = both_gone.last; reach = here }) (times 12 scheduler)

never_done_example : later.last.sched ≢ done
never_done_example = never_done plain fifo 0 both_gone-IsStuck later.reach

abbrev at : Pc → Worker plain
at pc = record { pc = pc; sem = 0 }

lost_update_example :
    (s' : System plain) × Reach plain fifo 0 both_loading.last s'
    × (s'.workers ≡ at (unrunning none) ∷ at (unrunning none) ∷ [])
    × (s'.shared ≡ record both_loading.last.shared {
      remaining = sub_int both_loading.last.shared.remaining 1;
    })
unfolding run times
lost_update_example =
    lost_update plain fifo 0 9 both_loading.last [] [] [] 0 0 refl (λ e. omega arith) refl

workers_bound_example : busy_count plain both_loading.last.workers ≤ 2
workers_bound_example =
    workers_bound plain fifo 0 0 2 2 refl (omega arith) (omega arith) both_loading.reach

-- Under a queue size of 1 the first worker runs to its end and the scheduler wakes the second one.
abbrev one_gone : Trace (smp4_main plain 0 1 2)
one_gone =
    run (record { last = smp4_main plain 0 1 2; reach = here })
      (times 2 (worker 0)
        ++ (times 2 (worker 1) ++ (times 6 scheduler ++ (times 6 (worker 0) ++ times 6 scheduler))))

remaining_exact_example :
    (one_gone.last.shared.remaining + all_stored plain one_gone.last.workers ≡ 2)
    × (one_gone.last.sched ≡ done → all_stored plain one_gone.last.workers ≡ 2)
remaining_exact_example = remaining_exact plain fifo 0 0 2 refl (omega arith) one_gone.reach

one_gone_result :
    (one_gone.last.shared.remaining ≡ 1)
    × (one_gone.last.workers
        ≡ record { pc = finished; sem = 0 } ∷ record { pc = Pc.waiting 0; sem = 1 } ∷ [])
unfolding run times
one_gone_result = (refl, refl)
