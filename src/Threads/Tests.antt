-- ===== src/Threads/Tests.antt =====
-- The theorems on the threads, with a plain for the semaphore.
use team_otw_os_labs.Base.{ℕ, ◌≤◌, ◌≡◌, refl, List, [], ◌∷◌, ◌++◌, arith, ok}
use team_otw_os_labs.Buffer.Holds.{Holds}
use team_otw_os_labs.Threads.Plain.{plain}
use team_otw_os_labs.Threads.{
  testing, producer, consumer, fresh_thread, Phase, Shared, System, thread_step, main, Reach, step,
  here, next,
}
use team_otw_os_labs.Threads.Invariant.{holders}
use team_otw_os_labs.Threads.Safety.{Runner, threads_exclude, threads_run, threads_progress}

abbrev begin : System plain
begin = main plain 1 1 0

-- The producer has passed `sem_wait`.
abbrev entered : System plain
entered = record {
  shared = record (begin.shared) { semaphore = 0 };
  threads = record { role = producer; phase = testing } ∷ fresh_thread consumer ∷ [];
}

begin-entered : Reach plain begin entered
unfolding main thread_step
begin-entered = next here (
    step [] (fresh_thread producer) (fresh_thread consumer ∷ []) 5 testing entered.shared refl
      (omega arith) (omega arith) refl refl)

threads_exclude_example :
    (holders entered.threads ≤ 1)
    × ((xs : List ℕ) × Holds entered.shared.buff xs
        × (entered.shared.buff.stack ≡ 0 → entered.shared.produced ≡ entered.shared.consumed ++ xs))
threads_exclude_example = threads_exclude plain 1 1 0 begin-entered

threads_run_example :
    (p : Phase) × (sh : Shared plain) × (thread_step plain 5 producer testing entered.shared
      ≡ ok (p, sh))
threads_run_example =
    threads_run plain 1 1 0 5 [] (record { role = producer; phase = testing })
      (fresh_thread consumer ∷ []) begin-entered refl tt (omega arith)

threads_progress_example : Runner plain entered.shared entered.threads
threads_progress_example = threads_progress plain 1 1 0 (omega arith) begin-entered
