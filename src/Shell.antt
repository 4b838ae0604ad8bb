-- ===== src/Shell.antt =====
-- totw_p2/shell.c: a shell that reads lines, splits them into commands and runs these.
pub mod Words
pub mod Lines
pub mod Ending
mod Tests
use team_otw_os_labs.Base.{
  ℕ, zero, suc, ◌+◌, ◌-◌, ◌^◌, List, [], ◌∷◌, ◌++◌, Bool, true, false, not, ◌||◌, ◌==◌,
  if◌then◌else◌, Option, none, some, Run, ok, fault, out_of_fuel, ◌>>=◌, length, take, drop, lt_int,
}

-- A C string is the list of its bytes, without the NUL.
-- `strtok` with one separator: the next token and what is left, or NULL.
unfoldable pub skip : ℕ → List ℕ → List ℕ
skip sep [] = []
skip sep (x ∷ xs) = if x == sep then skip sep xs else x ∷ xs

unfoldable pub token : ℕ → List ℕ → List ℕ
token sep [] = []
token sep (x ∷ xs) = if x == sep then [] else x ∷ token sep xs

unfoldable pub behind : ℕ → List ℕ → List ℕ
behind sep [] = []
behind sep (x ∷ xs) = if x == sep then xs else behind sep xs

unfoldable pub strtok : ℕ → List ℕ → Option (List ℕ × List ℕ)
unfolding skip token behind
strtok sep s = elim (skip sep s) [
  | [] ↦ none
  | x ∷ xs ↦ some (token sep (x ∷ xs), behind sep (x ∷ xs))
]

-- `while (next_cmd != NULL)`: the tokens in order. Each round takes a byte at least.
unfoldable pub strtok_loop : (fuel : ℕ) → ℕ → List ℕ → Run (List (List ℕ))
unfolding strtok
strtok_loop zero sep s = out_of_fuel
strtok_loop (suc fuel) sep s = elim (strtok sep s) [
  | none ↦ ok []
  | some (t, rest) ↦ strtok_loop fuel sep rest >>= λ ts. ok (t ∷ ts)
]

unfoldable pub tokens : ℕ → List ℕ → Run (List (List ℕ))
unfolding strtok_loop
tokens sep s = strtok_loop (suc (length s)) sep s

-- `fget_input` on what is left of the file: the line, or NULL, and the rest. The `char` 255 is equal
-- to `EOF`.
unfoldable pub input_loop : (str : List ℕ) → List ℕ → Option (List ℕ) × List ℕ
input_loop str [] = (none, [])
input_loop str (c ∷ cs) =
    if c == b'\n' || c == 0
    then (some str, cs)
    else if c == 255
    then (none, cs)
    else input_loop (str ++ c ∷ []) cs

unfoldable pub fget_input : List ℕ → Option (List ℕ) × List ℕ
unfolding input_loop
fget_input fp = input_loop [] fp

-- The lines of a batch file, as `main` reads them; each round takes a byte at least.
unfoldable pub batch_lines : (fuel : ℕ) → List ℕ → Run (List (List ℕ))
unfolding fget_input
batch_lines zero fp = out_of_fuel
batch_lines (suc fuel) fp =
    let (line, rest) = fget_input fp in
    elim line [ none ↦ ok [] | some l ↦ batch_lines fuel rest >>= λ ls. ok (l ∷ ls) ]

-- `strncmp(s, word, n) == 0` for a word of `n` bytes.
unfoldable pub starts_with : (word : List ℕ) → List ℕ → Bool
starts_with [] s = true
starts_with (w ∷ ws) [] = false
starts_with (w ∷ ws) (x ∷ s) = if x == w then starts_with ws s else false

abbrev pub exit_word : List ℕ
exit_word = b'e' ∷ b'x' ∷ b'i' ∷ b't' ∷ []

abbrev pub quit_word : List ℕ
quit_word = b'q' ∷ b'u' ∷ b'i' ∷ b't' ∷ []

-- What the shell uses of the system: `fork`, whose result is an `int`; `execvp`, which returns only
-- on an error; and `waitpid`, whose status is only printed.
pub record Os : Type 1 where
  pub World : Type 0
  pub fork : World → ℕ × World
  pub execvp : List (List ℕ) → World → World
  pub waitpid : ℕ → World → World

-- A pointer that may be freed: it is NULL, or points to memory that is allocated or not any more.
pub data Pointer : Type 0 where
  null allocated freed : Pointer

unfoldable pub free : Pointer → Run Pointer
free null = ok null
free allocated = ok freed
free freed = fault

pub record Pointers : Type 0 where
  pub line : Pointer
  pub pids : Pointer

module _ (os : Os) where
  open os use {World, fork, execvp, waitpid}

  -- `run_cmd` behind the loop. Without a word `args[0]` is NULL, which `strncmp` reads.
  unfoldable pub run_args : List (List ℕ) → World → Run (ℕ × World)
  unfolding starts_with
  run_args [] w = fault
  run_args (name ∷ rest) w =
      if starts_with exit_word name || starts_with quit_word name
      then ok (2 ^ 32 - 1, w)
      else let (forker, w1) = fork w in
        if forker == 0 then ok (forker, execvp (name ∷ rest) w1) else ok (forker, w1)

  -- The result is an `int`: the process, 0 in a child whose `execvp` failed, and -1 on `exit`,
  -- `quit` or an error of `fork`.
  unfoldable pub run_cmd : List ℕ → World → Run (ℕ × World)
  unfolding tokens run_args
  run_cmd cmd w = tokens b' ' cmd >>= λ args. run_args args w

  -- `for(i = 0; i < cmd_count; i++)`: the results of the commands that were run, and `should_run`.
  unfoldable pub launch_loop :
      List (List ℕ) → (should_run : Bool) → World → Run (List ℕ × Bool × World)
  unfolding run_cmd
  launch_loop [] go w = ok ([], go, w)
  launch_loop (c ∷ cs) go w = run_cmd c w >>= λ r.
      if r.0 == 0
      then ok (r.0 ∷ [], false, r.1)
      else (launch_loop cs (if r.0 == 2 ^ 32 - 1 then false else go) r.1 >>= λ s.
          ok (r.0 ∷ s.0, s.1, s.2))

  unfoldable pub wait_loop : List ℕ → World → World
  wait_loop [] w = w
  wait_loop (p ∷ ps) w = if lt_int p 0 then wait_loop ps w else wait_loop ps (waitpid p w)

  -- One turn of the loop of `main` with a line; `junk` is what `malloc` leaves in `pids`.
  unfoldable pub run_line :
      (junk : List ℕ) → List ℕ → Pointers → World → Run (Bool × Pointers × World)
  unfolding tokens launch_loop wait_loop free
  run_line junk line ps w = do
    commands ← tokens b';' line
    (results, go, w1) ← launch_loop commands true w
    let pids = take (length commands) (results ++ drop (length results) junk)
    let w2 = wait_loop pids w1
    in1 ← free allocated
    pids1 ← free allocated
    ok (go, record { line = in1; pids = pids1 }, w2)

  -- `while(should_run)` over the lines that are read until NULL.
  unfoldable pub line_loop :
      (junk : List ℕ) → List (List ℕ) → Pointers → World → Run (Pointers × World)
  unfolding run_line
  line_loop junk [] ps w = ok (record ps { line = null }, w)
  line_loop junk (l ∷ ls) ps w = run_line junk l ps w >>= λ r.
      let rest = line_loop junk ls r.1 r.2 in if r.0 then rest else ok (r.1, r.2)

  -- `free(in); free(pids);` at the end.
  unfoldable pub finish : Pointers → Run Pointers
  unfolding free
  finish ps = do l ← free ps.line; p ← free ps.pids; ok (record { line = l; pids = p })

  unfoldable pub shell_main : (junk : List ℕ) → List (List ℕ) → World → Run (Pointers × World)
  unfolding line_loop finish
  shell_main junk lines w = do
    (ps, w1) ← line_loop junk lines (record { line = null; pids = null }) w
    ps1 ← finish ps
    ok (ps1, w1)
