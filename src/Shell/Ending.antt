-- ===== src/Shell/Ending.antt =====
-- How totw_p2/shell.c ends.
use team_otw_os_labs.Base.{
  ℕ, ◌-◌, ◌^◌, ◌≡◌, ◌≢◌, refl, List, [], ◌∷◌, ◌++◌, Bool, true, false, ◌==◌, ◌||◌, if◌then◌else◌,
  Run, ok, fault, All, take, drop, length, Total, Total->>=, Total-ite,
}
use team_otw_os_labs.Shell.{
  Os, Pointer, null, allocated, freed, Pointers, free, exit_word, quit_word, starts_with, run_args,
  run_cmd, launch_loop, run_line, line_loop, wait_loop, finish, shell_main,
}
use team_otw_os_labs.Shell.Words.{words_from, tokens-words}

-- Every command of the line has a word.
abbrev pub IsRunnable : List ℕ → Type 0
IsRunnable line = All (λ c. words_from b' ' [] c ≢ []) (words_from b';' [] line)

module _ (os : Os) where
  open os use {World}

  run_args-Total : (args : List (List ℕ)) (w : World) → args ≢ [] → Total (run_args os args w)
  unfolding run_args
  run_args-Total [] w h = absurd (h refl)
  run_args-Total (name ∷ rest) w h =
      Total-ite (starts_with exit_word name || starts_with quit_word name) (_, refl)
        (Total-ite ((os.fork w).0 == 0) (_, refl) (_, refl))

  run_cmd-Total : (c : List ℕ) (w : World) → words_from b' ' [] c ≢ [] → Total (run_cmd os c w)
  unfolding run_cmd
  run_cmd-Total c w h = rw (tokens-words b' ' c) (run_args-Total (words_from b' ' [] c) w h)

  launch_loop-Total :
      (cs : List (List ℕ)) (go : Bool) (w : World)
      → All (λ c. words_from b' ' [] c ≢ []) cs
      → Total (launch_loop os cs go w)
  unfolding launch_loop
  launch_loop-Total [] go w h = (_, refl)
  launch_loop-Total (c ∷ cs) go w h = Total->>= (run_cmd os c w) _ (run_cmd-Total c w h.0) (λ r.
      Total-ite (r.0 == 0) (_, refl)
        (Total->>= (launch_loop os cs (if r.0 == 2 ^ 32 - 1 then false else go) r.1) _
          (launch_loop-Total cs (if r.0 == 2 ^ 32 - 1 then false else go) r.1 h.1)
          (λ s. (_, refl))))

  -- After a turn both pointers are dangling.
  abbrev gone : Pointers
  gone = record { line = freed; pids = freed }

  run_line-gone :
      (junk line : List ℕ) (ps : Pointers) (w : World)
      → IsRunnable line
      → (go : Bool) × (w1 : World) × (run_line os junk line ps w ≡ ok (go, gone, w1))
  unfolding run_line free
  run_line-gone junk line ps w h =
      let (r, e) = launch_loop-Total (words_from b';' [] line) true w h in
      let pids = take (length (words_from b';' [] line)) (r.0 ++ drop (length r.0) junk) in
      (r.1, wait_loop os pids r.2, rw (tokens-words b';' line, e))

  -- From a turn on that leaves `pids` dangling, the loop ends with `pids` dangling.
  abbrev Dangling : Run (Pointers × World) → Type 0
  Dangling r = (ps : Pointers) × (w1 : World) × (r ≡ ok (ps, w1)) × (ps.pids ≡ freed)

  Dangling-ite :
      (b : Bool) {x y : Run (Pointers × World)}
      → Dangling x
      → Dangling y
      → Dangling (if b then x else y)
  Dangling-ite true h k = h
  Dangling-ite false h k = k

  line_loop-Dangling :
      (junk : List ℕ) (ls : List (List ℕ)) (ps : Pointers) (w : World)
      → ps.pids ≡ freed
      → All IsRunnable ls
      → Dangling (line_loop os junk ls ps w)
  unfolding line_loop
  line_loop-Dangling junk [] ps w f h = (_, _, refl, f)
  line_loop-Dangling junk (l ∷ ls) ps w f h =
      let (go, w1, e) = run_line-gone junk l ps w h.0 in
      rw e (Dangling-ite go (line_loop-Dangling junk ls gone w1 refl h.1) (gone, w1, refl, refl))

  finish-fault : (l : Pointer) → finish os (record { line = l; pids = freed }) ≡ fault
  unfolding finish free
  finish-fault null = refl
  finish-fault allocated = refl
  finish-fault freed = refl

  -- After at least one line, where each command has a word, the shell comes to its end and there
  -- frees `pids` (or the line) a second time, whatever the system does.
  pub double_free :
      (junk l : List ℕ) (ls : List (List ℕ)) (w : World)
      → All IsRunnable (l ∷ ls)
      → (ps : Pointers) × (w1 : World) × (line_loop os junk
            (l ∷ ls)
            (record { line = null; pids = null })
            w
          ≡ ok (ps, w1))
        × (finish os ps ≡ fault)
        × (shell_main os junk (l ∷ ls) w ≡ fault)
  unfolding line_loop shell_main
  double_free junk l ls w h =
      let start : Pointers = record { line = null; pids = null } in
      let (go, w1, e) = run_line-gone junk l start w h.0 in
      let (ps, w2, run, f) =
        Dangling-ite go (line_loop-Dangling junk ls gone w1 refl h.1) (gone, w1, refl, refl) in
      let loop : line_loop os junk (l ∷ ls) start w ≡ ok (ps, w2) = rw (line_loop, e) run in
      let twice : finish os ps ≡ fault = rw f (finish-fault ps.line) in
      (ps, w2, loop, twice, rw (shell_main, loop, twice))
