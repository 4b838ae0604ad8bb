-- ===== src/Scheduler/Serial.antt =====
-- With a queue size of 1 `num_workers_remaining` of totw_p4/scheduler.c is right.
use team_otw_os_labs.Base.{
  ℕ, zero, suc, ◌+◌, ◌*◌, ◌<◌, ◌≤◌, ◌≡◌, refl, ◌∙◌, List, ◌∷◌, ◌++◌, arith, length, After-ok,
  replicate, IsSmall,
}
use native.Mathlib.Decide.{dec_lt}
use team_otw_os_labs.Threads.{Semaphores}
use team_otw_os_labs.Scheduler.{
  Policy, Pc, uncreated, SchedPc, queue_wait, testing, peeking, looking, advancing, marking, waking,
  worker_wait, done, Worker, System, smp4_main, Step, work, schedule, Reach, here, next,
}
use team_otw_os_labs.Scheduler.Tokens.{inside, total, total-append}
use team_otw_os_labs.Scheduler.Bound.{busy_count, workers_bound}
use team_otw_os_labs.Scheduler.Count.{
  stored, stale, Effect, worker_step-Effect, all_stored, all_stale, many, Over, Quiet,
  sched_step-Quiet, Counted, stored-le-many, stale-le-busy,
}

module _ (api : Semaphores) where
  open api use {Sem, value}

  Over-le : (pc : SchedPc) (r r' : ℕ) → r' ≤ r → Over api pc r → Over api pc r'
  Over-le done r r' h o = omega (arith, o)
  Over-le queue_wait r r' h o = tt
  Over-le testing r r' h o = tt
  Over-le peeking r r' h o = tt
  Over-le (looking e) r r' h o = tt
  Over-le (advancing e) r r' h o = tt
  Over-le (marking d) r r' h o = tt
  Over-le (waking d) r r' h o = tt
  Over-le worker_wait r r' h o = tt

  -- Where the count changes, no other worker has loaded it.
  others_current :
      (r r' : ℕ) (pc : Pc) (ws : List (Worker api))
      → inside pc + busy_count api ws ≤ 1
      → (inside pc ≡ 0 → r' ≡ r)
      → all_stale api r ws ≡ 0
      → all_stale api r' ws ≡ 0
  others_current r r' pc ws one same s = elim (dec_lt 0 (inside pc)) [
    | yes h ↦ omega (arith, stale-le-busy api r' ws)
    | no h ↦ rw (same (omega arith)) s
  ]

  split :
      (f : Worker api → ℕ) (ls : List (Worker api)) (t : Worker api) (rs : List (Worker api))
      → total api f (ls ++ t ∷ rs) ≡ f t + total api f (ls ++ rs)
  split f ls t rs = omega (arith, total-append api f ls (t ∷ rs), total-append api f ls rs)

  Step-Counted :
      {p : Policy} {k : ℕ} {s s' : System api} (n : ℕ)
      → IsSmall n
      → Step api p k s s'
      → busy_count api s.workers ≤ 1
      → Counted api n s
      → Counted api n s'
  Step-Counted {p} {k} {s} n small (work ls t rs fresh fuel pc sem sh e can real free run e') one
        c =
      let t' : Worker api = record { pc = pc; sem = sem } in
      let rem = s.shared.remaining in
      let counted : rem + all_stored api (ls ++ t ∷ rs) ≡ n = rw e at c.counted in
      let current : all_stale api rem (ls ++ t ∷ rs) ≡ 0 = rw e at c.current in
      let number : many api (ls ++ t ∷ rs) ≡ n = rw e at c.number in
      let busy : busy_count api (ls ++ t ∷ rs) ≤ 1 = rw e at one in
      let some_left : stored t.pc ≡ 0 → 0 < rem = λ h. omega (
        arith,
        counted,
        number,
        h,
        split (λ (w : Worker api). stored w.pc) ls t rs,
        split (λ (w : Worker api). 1) ls t rs,
        stored-le-many api (ls ++ rs),
      ) in
      let (clean, kept, same, fewer) = After-ok (Effect api t.pc s.shared) run (
        worker_step-Effect api p k fresh fuel (length ls + 1) t.pc t.sem s.shared
          (omega (arith, current, split (λ (w : Worker api). stale rem w.pc) ls t rs)) some_left
          (omega (arith, c.counted, small))) in
      let others =
        others_current rem sh.remaining t.pc (ls ++ rs)
          (omega (arith, busy, split (λ (w : Worker api). inside w.pc) ls t rs)) same
          (omega (arith, current, split (λ (w : Worker api). stale rem w.pc) ls t rs)) in
      rw e' (record {
        counted = omega (
          arith,
          counted,
          kept,
          split (λ (w : Worker api). stored w.pc) ls t rs,
          split (λ (w : Worker api). stored w.pc) ls t' rs,
        );
        current =
            omega
              (arith, others, clean, split (λ (w : Worker api). stale sh.remaining w.pc) ls t' rs);
        number = omega (
          arith,
          number,
          split (λ (w : Worker api). 1) ls t rs,
          split (λ (w : Worker api). 1) ls t' rs,
        );
        over = Over-le s.sched rem sh.remaining fewer c.over;
      })
  Step-Counted {s = s} n small (schedule fresh fuel pc ws sh can real free run e') one c =
      let rem = s.shared.remaining in
      let (same, totals, over, _) = After-ok (Quiet api s.sched s.workers s.shared) run (
        sched_step-Quiet api fresh fuel s.sched s.workers s.shared (omega (arith, c.counted, small))
          c.over) in
      rw e' (record {
        counted = omega (arith, c.counted, same, totals (λ w. stored w.pc) (λ w. refl));
        current = rw same (totals (λ w. stale rem w.pc) (λ w. refl) ∙ c.current);
        number = totals (λ _. 1) (λ w. refl) ∙ c.number;
        over = rw same over;
      })

  fresh_totals :
      (f : Worker api → ℕ) (w : Worker api) (c : ℕ)
      → f w ≡ c
      → (n : ℕ) → total api f (replicate n w) ≡ n * c
  fresh_totals f w c h zero = grind arith
  fresh_totals f w c h (suc n) = grind (arith, h, fresh_totals f w c h n)

  main-Counted : (busy : Sem) (q n : ℕ) → Counted api n (smp4_main api busy q n)
  unfolding smp4_main
  main-Counted busy q n =
      let w : Worker api = record { pc = uncreated; sem = busy } in
      record {
        counted = omega (arith, fresh_totals (λ w. stored w.pc) w 0 refl n);
        current = omega (arith, fresh_totals (λ v. stale n v.pc) w 0 refl n);
        number = omega (arith, fresh_totals (λ _. 1) w 1 refl n);
        over = tt;
      }

  Reach-Counted :
      {p : Policy} {k : ℕ} (busy : Sem) (n : ℕ) {s : System api}
      → value busy ≡ 0
      → IsSmall n
      → Reach api p k (smp4_main api busy 1 n) s
      → Counted api n s
  Reach-Counted busy n z small here = main-Counted busy 1 n
  Reach-Counted {p} {k} busy n z small (next r st) =
      Step-Counted n small st (workers_bound api p k busy 1 n z (omega arith) (omega arith) r)
        (Reach-Counted busy n z small r)

  -- With a queue size of 1, a fresh worker's semaphore of value 0 and a number of threads that an
  -- `int` holds, in every state that the threads reach, under either policy,
  -- `num_workers_remaining` is the number of the workers that have not yet decremented it; and the
  -- scheduler has ended only if all have.
  pub remaining_exact :
      (p : Policy) (k : ℕ) (busy : Sem) (n : ℕ) {s : System api}
      → value busy ≡ 0
      → IsSmall n
      → Reach api p k (smp4_main api busy 1 n) s
      → (s.shared.remaining + all_stored api s.workers ≡ n)
        × (s.sched ≡ done → all_stored api s.workers ≡ n)
  remaining_exact p k busy n {s} z small r =
      let c = Reach-Counted busy n z small r in
      (c.counted, λ e. omega (arith, c.counted, ended (s.sched) e c.over))
    where
      ended : (pc : SchedPc) → pc ≡ done → Over api pc s.shared.remaining → s.shared.remaining ≡ 0
      ended pc e o = rw e at o
