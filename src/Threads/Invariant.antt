-- ===== src/Threads/Invariant.antt =====
-- Mutual exclusion of the threads of totw_p3/p3.c, and what it protects.
use team_otw_os_labs.Base.{
  ℕ, ◌+◌, ◌<◌, ◌≡◌, refl, sym, ◌∙◌, List, [], ◌∷◌, ◌++◌, arith, ◌==◌, length, ok, IsSmall,
  append_assoc, Bool-cases, inl, inr,
}
use team_otw_os_labs.Buffer.{buffer_size}
use team_otw_os_labs.Buffer.Holds.{Holds, added, add_to-Holds, pop-Holds, is_empty-is_full}
use team_otw_os_labs.Threads.{
  Semaphores, Phase, waiting, testing, using, posting, Role, producer, consumer, Thread, Shared,
  thread_step, CanRun,
}

-- A thread between `sem_wait` and `sem_post` counts as one.
abbrev pub inside : Phase → ℕ
inside waiting = 0
inside _ = 1

abbrev pub holders : List Thread → ℕ
holders [] = 0
holders (t ∷ ts) = inside t.phase + holders ts

-- What a thread that is about to use the buffer relies on.
abbrev pub Agrees : List ℕ → Role → Phase → Type 0
Agrees xs producer using = length xs < buffer_size
Agrees xs consumer using = 0 < length xs
Agrees xs _ _ = Unit

-- In queue mode the values have come out in the order in which they went in.
abbrev pub InOrder : (produced consumed xs : List ℕ) (stack : ℕ) → Type 0
InOrder produced consumed xs stack = stack ≡ 0 → produced ≡ consumed ++ xs

module _ (api : Semaphores) where
  open api use {value, value_init, value_wait, value_post}

  pub record Fine (sh : Shared api) (xs : List ℕ) : Type 0 where
    pub holds : Holds sh.buff xs
    pub order : InOrder sh.produced sh.consumed xs sh.buff.stack

  -- The result of one step of a thread, where the buffer held `xs`.
  pub record Stepped (v : ℕ) (r : Role) (p : Phase) (sh : Shared api) (xs : List ℕ) : Type 0 where
    pub phase : Phase
    pub shared : Shared api
    pub values : List ℕ
    pub runs : thread_step api v r p sh ≡ ok (phase, shared)
    pub fine : Fine shared values
    pub permits : value shared.semaphore + inside phase ≡ value sh.semaphore + inside p
    pub agrees : Agrees values r phase
    pub untouched : inside p ≡ 0 → values ≡ xs

  module _ (v : ℕ) (sh : Shared api) (xs : List ℕ) (f : Fine sh xs) where
    enter : (r : Role) → 0 < value sh.semaphore → Stepped v r waiting sh xs
    unfolding thread_step
    enter producer h = record {
      phase = testing;
      shared = record sh { semaphore = api.sem_wait sh.semaphore };
      values = xs;
      runs = refl;
      fine = record { holds = f.holds; order = f.order };
      permits = omega (arith, value_wait sh.semaphore h);
      agrees = tt;
      untouched = λ _. refl;
    }
    enter consumer h = record {
      phase = testing;
      shared = record sh { semaphore = api.sem_wait sh.semaphore };
      values = xs;
      runs = refl;
      fine = record { holds = f.holds; order = f.order };
      permits = omega (arith, value_wait sh.semaphore h);
      agrees = tt;
      untouched = λ _. refl;
    }

    leave : (r : Role) → Stepped v r posting sh xs
    unfolding thread_step
    leave producer = record {
      phase = waiting;
      shared = record sh { semaphore = api.sem_post sh.semaphore };
      values = xs;
      runs = refl;
      fine = record { holds = f.holds; order = f.order };
      permits = omega (arith, value_post sh.semaphore);
      agrees = tt;
      untouched = λ _. refl;
    }
    leave consumer = record {
      phase = waiting;
      shared = record sh { semaphore = api.sem_post sh.semaphore };
      values = xs;
      runs = refl;
      fine = record { holds = f.holds; order = f.order };
      permits = omega (arith, value_post sh.semaphore);
      agrees = tt;
      untouched = λ _. refl;
    }

    test : (r : Role) → Stepped v r testing sh xs
    unfolding thread_step
    test producer =
        let full_is = (is_empty-is_full sh.buff xs f.holds).1 in
        elim (Bool-cases (length xs == buffer_size)) [
          | inl full ↦ record {
            phase = posting;
            shared = sh;
            values = xs;
            runs = rw (full_is, full) refl;
            fine = f;
            permits = refl;
            agrees = tt;
            untouched = λ _. refl;
          }
          | inr room ↦ record {
            phase = using;
            shared = sh;
            values = xs;
            runs = rw (full_is, room) refl;
            fine = f;
            permits = refl;
            agrees = ground (arith, room, f.holds.fits);
            untouched = λ _. refl;
          }
        ]
    test consumer =
        let empty_is = (is_empty-is_full sh.buff xs f.holds).0 in
        elim (Bool-cases (length xs == 0)) [
          | inl none ↦ record {
            phase = posting;
            shared = sh;
            values = xs;
            runs = rw (empty_is, none) refl;
            fine = f;
            permits = refl;
            agrees = tt;
            untouched = λ _. refl;
          }
          | inr some ↦ record {
            phase = using;
            shared = sh;
            values = xs;
            runs = rw (empty_is, some) refl;
            fine = f;
            permits = refl;
            agrees = ground (arith, some);
            untouched = λ _. refl;
          }
        ]

    produce : IsSmall v → length xs < buffer_size → Stepped v producer using sh xs
    unfolding thread_step
    produce small room =
        let (b, e, h, s) = add_to-Holds sh.buff xs v f.holds room (omega arith) in
        record {
          phase = posting;
          shared = record sh { buff = b; produced = sh.produced ++ v ∷ [] };
          values = added sh.buff.stack v xs;
          runs = rw e;
          fine = record {
            holds = h;
            order = λ queue.
                let q : sh.buff.stack ≡ 0 = sym s ∙ queue in
                rw (q, f.order q) (append_assoc sh.consumed xs (v ∷ []));
          };
          permits = refl;
          agrees = tt;
          untouched = λ e. absurd (omega arith);
        }

  consume :
      (v : ℕ) (sh : Shared api) (xs : List ℕ)
      → Fine sh xs
      → 0 < length xs
      → Stepped v consumer using sh xs
  unfolding thread_step
  consume v sh [] f h = absurd (omega arith)
  consume v sh (x ∷ xs) f h =
      let (b, e, held, s) = pop-Holds sh.buff x xs f.holds in
      record {
        phase = posting;
        shared = record sh { buff = b; consumed = sh.consumed ++ x ∷ [] };
        values = xs;
        runs = rw e;
        fine = record {
          holds = held;
          order = λ queue. f.order (sym s ∙ queue) ∙ sym (append_assoc sh.consumed (x ∷ []) xs);
        };
        permits = refl;
        agrees = tt;
        untouched = λ e. absurd (omega arith);
      }

  -- A thread that can run makes its step: no crash.
  pub thread_step-Stepped :
      (v : ℕ) (sh : Shared api) (xs : List ℕ) (r : Role) (p : Phase)
      → IsSmall v
      → Fine sh xs
      → Agrees xs r p
      → CanRun api p sh
      → Stepped v r p sh xs
  thread_step-Stepped v sh xs r waiting s f a c = enter v sh xs f r c
  thread_step-Stepped v sh xs r testing s f a c = test v sh xs f r
  thread_step-Stepped v sh xs producer using s f a c = produce v sh xs f s a
  thread_step-Stepped v sh xs consumer using s f a c = consume v sh xs f a
  thread_step-Stepped v sh xs r posting s f a c = leave v sh xs f r
