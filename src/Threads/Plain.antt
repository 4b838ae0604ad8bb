-- ===== src/Threads/Plain.antt =====
-- Semaphores that are their value, for examples.
use team_otw_os_labs.Base.{ℕ, ◌+◌, ◌-◌, ◌<◌, ◌≡◌, refl, arith}
use team_otw_os_labs.Threads.{Semaphores}

pub lowered : (n : ℕ) → 0 < n → n - 1 + 1 ≡ n
lowered n h = omega arith

abbrev pub plain : Semaphores
plain = record {
  Sem = ℕ;
  value = λ n. n;
  sem_init = λ n. n;
  sem_wait = λ n. n - 1;
  sem_post = λ n. n + 1;
  value_init = λ n. refl;
  value_wait = lowered;
  value_post = λ n. refl;
}
