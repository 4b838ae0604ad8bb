-- ===== src/Threads.antt =====
-- totw_p3/p3.c: producer and consumer threads that share a buffer behind one semaphore.
pub mod Invariant
pub mod Safety
pub mod Plain
mod Tests
use team_otw_os_labs.Base.{
  ℕ, zero, suc, ◌+◌, ◌<◌, ◌≡◌, ◌^◌, List, [], ◌∷◌, ◌++◌, Bool, not, if◌then◌else◌, replicate, Run,
  ok, ◌>>=◌, IsSmall,
}
use team_otw_os_labs.Buffer.{Buffer, buffer_size, vacant, add_to, pop, is_empty, is_full}

-- What the threads use of <semaphore.h>: a semaphore has a value, which `sem_wait` lowers by one
-- where it is positive (and blocks where it is not) and `sem_post` raises by one.
pub record Semaphores : Type 1 where
  pub Sem : Type 0
  pub value : Sem → ℕ
  pub sem_init : ℕ → Sem
  pub sem_wait : Sem → Sem
  pub sem_post : Sem → Sem
  pub value_init : (n : ℕ) → value (sem_init n) ≡ n
  pub value_wait : (s : Sem) → 0 < value s → value (sem_wait s) + 1 ≡ value s
  pub value_post : (s : Sem) → value (sem_post s) ≡ value s + 1

-- Where a thread stands in its loop: before `sem_wait`, before the test of the buffer, before
-- `add_to` or `pop`, and before `sem_post`.
pub data Phase : Type 0 where
  waiting testing using posting : Phase

pub data Role : Type 0 where
  producer consumer : Role

pub record Thread : Type 0 where
  pub role : Role
  pub phase : Phase

abbrev pub fresh_thread : Role → Thread
fresh_thread r = record { role = r; phase = waiting }

module _ (api : Semaphores) where
  open api use {Sem, value, sem_init, sem_wait, sem_post}

  -- The shared objects, and the values that have gone into the buffer and come out of it so far.
  pub record Shared : Type 0 where
    pub semaphore : Sem
    pub buff : Buffer
    pub produced : List ℕ
    pub consumed : List ℕ

  -- `producer_func`: one turn of the loop, cut where another thread may run. `value` is what
  -- `rand_r` returns.
  unfoldable pub producer_step : (drawn : ℕ) → Phase → Shared → Run (Phase × Shared)
  producer_step v waiting s = ok (testing, record s { semaphore = sem_wait s.semaphore })
  producer_step v testing s = do full ← is_full s.buff; ok (if not full then using else posting, s)
  producer_step v using s = do
    b ← add_to s.buff v
    ok (posting, record s { buff = b; produced = s.produced ++ v ∷ [] })
  producer_step v posting s = ok (waiting, record s { semaphore = sem_post s.semaphore })

  -- `consumer_func`
  unfoldable pub consumer_step : Phase → Shared → Run (Phase × Shared)
  consumer_step waiting s = ok (testing, record s { semaphore = sem_wait s.semaphore })
  consumer_step testing s = do empty ← is_empty s.buff; ok (if not empty then using else posting, s)
  consumer_step using s = do
    (x, b) ← pop s.buff
    ok (posting, record s { buff = b; consumed = s.consumed ++ x ∷ [] })
  consumer_step posting s = ok (waiting, record s { semaphore = sem_post s.semaphore })

  unfoldable pub thread_step : (drawn : ℕ) → Role → Phase → Shared → Run (Phase × Shared)
  unfolding producer_step consumer_step
  thread_step v producer p s = producer_step v p s
  thread_step v consumer p s = consumer_step p s

  pub record System : Type 0 where
    pub shared : Shared
    pub threads : List Thread

  -- `main`, up to the creation of the threads.
  unfoldable pub main : (producers consumers stack : ℕ) → System
  main np nc stack = record {
    shared = record {
      semaphore = sem_init 1;
      buff = record { stack = stack; slots = replicate buffer_size vacant };
      produced = [];
      consumed = [];
    };
    threads = replicate np (fresh_thread producer) ++ replicate nc (fresh_thread consumer);
  }

  -- A thread blocks in `sem_wait` while the semaphore's value is 0.
  abbrev pub CanRun : Phase → Shared → Type 0
  CanRun waiting s = 0 < value s.semaphore
  CanRun _ s = Unit

  -- Some thread makes a step; `rand_r` returns a number that an `int` holds without a sign.
  pub data Step (s s' : System) : Type 0 where
    step :
        (ls : List Thread) (t : Thread) (rs : List Thread) (v : ℕ) (p : Phase) (sh : Shared)
        → s.threads ≡ ls ++ t ∷ rs
        → CanRun t.phase s.shared
        → IsSmall v
        → thread_step v t.role t.phase s.shared ≡ ok (p, sh)
        → s' ≡ record { shared = sh; threads = ls ++ record t { phase = p } ∷ rs }
        → Step s s'

  pub data Reach (s : System) : System → Type 0 where
    here : Reach s s
    next : {s' s'' : System} → Reach s s' → Step s' s'' → Reach s s''
