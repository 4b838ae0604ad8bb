-- ===== src/Threads/Safety.antt =====
-- What holds in every state that the threads of totw_p3/p3.c can reach.
use team_otw_os_labs.Base.{
  ℕ, zero, suc, ◌+◌, ◌<◌, ◌≤◌, ◌≡◌, refl, sym, ap, ◌∙◌, List, [], ◌∷◌, ◌++◌, arith, length,
  length-append, length-replicate, inl, inr, ◌⊎◌, replicate, All, All-append, All-split, ok,
  IsSmall, ok-fst, ok-snd,
}
use native.Mathlib.Decide.{dec_lt}
use team_otw_os_labs.Buffer.Holds.{Holds}
use team_otw_os_labs.Threads.{
  Semaphores, Phase, waiting, testing, using, posting, Role, producer, consumer, Thread, Shared,
  System, thread_step, fresh_thread, main, CanRun, Step, step, Reach, here, next,
}
use team_otw_os_labs.Threads.Invariant.{inside, holders, Agrees, Fine, thread_step-Stepped}

holders-append : (ls rs : List Thread) → holders (ls ++ rs) ≡ holders ls + holders rs
holders-append [] rs = omega arith
holders-append (t ∷ ls) rs = omega (arith, holders-append ls rs)

-- Threads that all wait rely on nothing.
idle-Agrees :
    (xs : List ℕ) (ts : List Thread) → holders ts ≡ 0 → All (λ t. Agrees xs t.role t.phase) ts
idle-Agrees xs [] h = tt
idle-Agrees xs (t ∷ ts) h = (calm t.role t.phase (omega arith), idle-Agrees xs ts (omega arith))
  where
    calm : (r : Role) (p : Phase) → inside p ≡ 0 → Agrees xs r p
    calm producer waiting e = tt
    calm consumer waiting e = tt
    calm r testing e = absurd (omega arith)
    calm r using e = absurd (omega arith)
    calm r posting e = absurd (omega arith)

module _ (api : Semaphores) where
  open api use {value, value_init}

  pub record IsSafe (s : System api) : Type 0 where
    pub values : List ℕ
    pub fine : Fine api s.shared values
    pub mutex : value s.shared.semaphore + holders s.threads ≡ 1
    pub agree : All (λ t. Agrees values t.role t.phase) s.threads

  others_agree :
      {xs ys : List ℕ} (n : ℕ) (p : Phase) (ts : List Thread)
      → n + (inside p + holders ts) ≡ 1
      → (inside p ≡ 0 → ys ≡ xs)
      → All (λ t. Agrees xs t.role t.phase) ts
      → All (λ t. Agrees ys t.role t.phase) ts
  others_agree n waiting ts m same a = rw (same refl) a
  others_agree {ys} n testing ts m same a = idle-Agrees ys ts (omega arith)
  others_agree {ys} n using ts m same a = idle-Agrees ys ts (omega arith)
  others_agree {ys} n posting ts m same a = idle-Agrees ys ts (omega arith)

  Step-IsSafe : {s s' : System api} → Step api s s' → IsSafe s → IsSafe s'
  Step-IsSafe {s} {s'} (step ls t rs v p sh e can small run e') i =
      let a =
        All-split (λ (t : Thread). Agrees i.values t.role t.phase) ls (t ∷ rs) (rw e at i.agree) in
      let d = thread_step-Stepped api v s.shared i.values t.role t.phase small i.fine a.1.0 can in
      let same_phase : d.phase ≡ p = ok-fst (sym d.runs ∙ run) in
      let same_shared : d.shared ≡ sh = ok-snd (sym d.runs ∙ run) in
      let m : value s.shared.semaphore + holders (ls ++ t ∷ rs) ≡ 1 = rw e at i.mutex in
      let rest = All-append (λ (t : Thread). Agrees i.values t.role t.phase) ls rs a.0 a.1.1 in
      let k =
        others_agree (value s.shared.semaphore) t.phase (ls ++ rs)
          (omega (arith, m, holders-append ls (t ∷ rs), holders-append ls rs)) d.untouched rest in
      let k' = All-split (λ (t : Thread). Agrees d.values t.role t.phase) ls rs k in
      rw (e', ← same_phase, ← same_shared)
        (record {
          values = d.values;
          fine = d.fine;
          mutex = omega (
            arith,
            m,
            d.permits,
            holders-append ls (t ∷ rs),
            holders-append ls (record t { phase = d.phase } ∷ rs),
          );
          agree =
              All-append (λ (t : Thread). Agrees d.values t.role t.phase) ls
                (record t { phase = d.phase } ∷ rs) k'.0 (d.agrees, k'.1);
        })

  idle_replicate : (n : ℕ) (r : Role) → holders (replicate n (fresh_thread r)) ≡ 0
  idle_replicate zero r = refl
  idle_replicate (suc n) r = omega (arith, idle_replicate n r)

  main-IsSafe : (np nc stack : ℕ) → IsSafe (main api np nc stack)
  unfolding main
  main-IsSafe np nc stack =
      let ps = replicate np (fresh_thread producer) in
      let cs = replicate nc (fresh_thread consumer) in
      let idle : holders (ps ++ cs) ≡ 0 =
        omega
          (arith, holders-append ps cs, idle_replicate np producer, idle_replicate nc consumer) in
      record {
        values = [];
        fine = record {
          holds = record { slots_are = refl; values = tt; fits = omega arith };
          order = λ _. refl;
        };
        mutex = omega (arith, idle, value_init 1);
        agree = idle-Agrees [] (ps ++ cs) idle;
      }

  Reach-IsSafe : {s s' : System api} → IsSafe s → Reach api s s' → IsSafe s'
  Reach-IsSafe i here = i
  Reach-IsSafe i (next r st) = Step-IsSafe st (Reach-IsSafe i r)

  -- In every state that the threads reach from `main` at most one thread is between `sem_wait` and
  -- `sem_post`, the buffer holds at most ten values, and in queue mode the values that the consumers
  -- took, followed by those held, are the values that the producers added, in order.
  pub threads_exclude :
      (np nc stack : ℕ) {s : System api}
      → Reach api (main api np nc stack) s
      → (holders s.threads ≤ 1)
        × ((xs : List ℕ) × Holds s.shared.buff xs
            × (s.shared.buff.stack ≡ 0 → s.shared.produced ≡ s.shared.consumed ++ xs))
  threads_exclude np nc stack r =
      let i = Reach-IsSafe (main-IsSafe np nc stack) r in
      (omega (arith, i.mutex), (i.values, i.fine.holds, i.fine.order))

  -- No thread of a state that the threads reach from `main` crashes: each that is not blocked in
  -- `sem_wait` makes its step, whatever number from 0 on `rand_r` returns. So `add_to`, `pop`,
  -- `is_empty` and `is_full` access the buffer's array in range only, in stack mode as in queue
  -- mode, since an access out of range is a crash.
  pub threads_run :
      (np nc stack v : ℕ) {s : System api} (ls : List Thread) (t : Thread) (rs : List Thread)
      → Reach api (main api np nc stack) s
      → s.threads ≡ ls ++ t ∷ rs
      → CanRun api t.phase s.shared
      → IsSmall v
      → (p : Phase) × (sh : Shared api) × (thread_step api v t.role t.phase s.shared ≡ ok (p, sh))
  threads_run np nc stack v {s} ls t rs r e can small =
      let i = Reach-IsSafe (main-IsSafe np nc stack) r in
      let a =
        All-split (λ (t : Thread). Agrees i.values t.role t.phase) ls (t ∷ rs) (rw e at i.agree) in
      let d = thread_step-Stepped api v s.shared i.values t.role t.phase small i.fine a.1.0 can in
      (d.phase, d.shared, d.runs)

  length-Step : {s s' : System api} → Step api s s' → length s'.threads ≡ length s.threads
  length-Step (step ls t rs v p sh e can small run e') =
      rw (e', e)
        (omega (arith, length-append ls (t ∷ rs), length-append ls (record t { phase = p } ∷ rs)))

  length-Reach : {s s' : System api} → Reach api s s' → length s'.threads ≡ length s.threads
  length-Reach here = refl
  length-Reach (next r st) = length-Step st ∙ length-Reach r

  -- A thread that is not blocked.
  pub record Runner (sh : Shared api) (ts : List Thread) : Type 0 where
    pub before : List Thread
    pub thread : Thread
    pub after : List Thread
    pub eq : ts ≡ before ++ thread ∷ after
    pub can : CanRun api thread.phase sh

  waits_or_runs : (p : Phase) → (inside p ≡ 0) ⊎ ((sh : Shared api) → CanRun api p sh)
  waits_or_runs waiting = inl refl
  waits_or_runs testing = inr (λ sh. tt)
  waits_or_runs using = inr (λ sh. tt)
  waits_or_runs posting = inr (λ sh. tt)

  runs_if_open : (sh : Shared api) (p : Phase) → 0 < value sh.semaphore → CanRun api p sh
  runs_if_open sh waiting h = h
  runs_if_open sh testing h = tt
  runs_if_open sh using h = tt
  runs_if_open sh posting h = tt

  holder_runs : (sh : Shared api) (ts : List Thread) → 0 < holders ts → Runner sh ts
  holder_runs sh [] h = absurd (omega arith)
  holder_runs sh (t ∷ ts) h = elim (waits_or_runs t.phase) [
    | inl e ↦
        let r = holder_runs sh ts (omega arith) in
        record {
          before = t ∷ r.before;
          thread = r.thread;
          after = r.after;
          eq = ap (λ l. t ∷ l) r.eq;
          can = r.can;
        }
    | inr c ↦ record { before = []; thread = t; after = ts; eq = refl; can = c sh }
  ]

  some_runs :
      (sh : Shared api) (ts : List Thread)
      → value sh.semaphore + holders ts ≡ 1
      → 0 < length ts
      → Runner sh ts
  some_runs sh [] m h = absurd (omega arith)
  some_runs sh (t ∷ ts) m h = elim (dec_lt 0 (holders (t ∷ ts))) [
    | yes p ↦ holder_runs sh (t ∷ ts) p
    | no p ↦ record {
      before = [];
      thread = t;
      after = ts;
      eq = refl;
      can = runs_if_open sh t.phase (omega arith);
    }
  ]

  -- With at least one thread no reached state is a deadlock: some thread is not blocked.
  pub threads_progress :
      (np nc stack : ℕ) {s : System api}
      → 0 < np + nc
      → Reach api (main api np nc stack) s
      → Runner s.shared s.threads
  unfolding main
  threads_progress np nc stack {s} pos r =
      let i = Reach-IsSafe (main-IsSafe np nc stack) r in
      some_runs s.shared s.threads i.mutex (
        omega (
          arith,
          length-Reach r,
          length-append (replicate np (fresh_thread producer))
              (replicate nc (fresh_thread consumer)),
          length-replicate np (fresh_thread producer),
          length-replicate nc (fresh_thread consumer),
        ))
