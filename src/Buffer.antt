-- ===== src/Buffer.antt =====
-- totw_p3/buffer.c and buffer.h: the shared buffer of ten `int`s.
pub mod Shift
pub mod Holds
mod Tests
use team_otw_os_labs.Base.{
  ℕ, zero, suc, ◌+◌, ◌-◌, ◌^◌, List, [], ◌∷◌, Bool, not, ◌==◌, if◌then◌else◌, Run, ok, fault, ◌>>=◌,
  load, store,
}

abbrev pub buffer_size : ℕ
buffer_size = 10

-- The `int` -1, which marks an empty slot.
abbrev pub vacant : ℕ
vacant = 2 ^ 32 - 1

-- `buffer`; `slots` is the array `data`. An access to it out of range is a crash.
pub record Buffer : Type 0 where
  pub stack : ℕ
  pub slots : List ℕ

-- `for (i = n; i > 0; i--) data[i] = data[i - 1];`
unfoldable pub shift_up : ℕ → List ℕ → Run (List ℕ)
shift_up zero d = ok d
shift_up (suc i) d = do x ← load d i; d1 ← store d (suc i) x; shift_up i d1

-- `for (i = 0; data[i] != -1; i++) ;` from the index `i` on, where `d` is what is left of the
-- array; a crash where the loop reads past its end.
unfoldable pub first_vacant : ℕ → List ℕ → Run ℕ
first_vacant i [] = fault
first_vacant i (x ∷ d) = if x == vacant then ok i else first_vacant (suc i) d

unfoldable pub add_to : Buffer → ℕ → Run Buffer
unfolding shift_up first_vacant
add_to buff value =
    if not (buff.stack == 0)
    then (do
      shifted ← shift_up (buffer_size - 1) buff.slots
      d ← store shifted 0 value
      ok (record buff { slots = d }))
    else (do
      i ← first_vacant 0 buff.slots
      d ← store buff.slots i value
      ok (record buff { slots = d }))

-- `for (; i < n; i++) data[i] = data[i + 1];` with `left` rounds left.
unfoldable pub shift_down : (left : ℕ) → ℕ → List ℕ → Run (List ℕ)
shift_down zero i d = ok d
shift_down (suc n) i d = do x ← load d (suc i); d1 ← store d i x; shift_down n (suc i) d1

unfoldable pub pop : Buffer → Run (ℕ × Buffer)
unfolding shift_down
pop buff = do
  retval ← load buff.slots 0
  shifted ← shift_down (buffer_size - 1) 0 buff.slots
  d ← store shifted (buffer_size - 1) vacant
  ok (retval, record buff { slots = d })

unfoldable pub is_empty : Buffer → Run Bool
is_empty buff = load buff.slots 0 >>= λ x. ok (x == vacant)

unfoldable pub is_full : Buffer → Run Bool
is_full buff = load buff.slots (buffer_size - 1) >>= λ x. ok (not (x == vacant))
