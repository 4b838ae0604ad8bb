-- ===== src/Shell/Tests.antt =====
-- Examples: a short batch file, and a system whose processes are numbered from 100 on.
use team_otw_os_labs.Base.{ℕ, ◌+◌, ◌≡◌, refl, List, [], ◌∷◌, ◌++◌, ok, fault, arith}
use team_otw_os_labs.Shell.{
  Os, Pointers, null, run_cmd, line_loop, finish, shell_main, tokens, batch_lines,
}
use team_otw_os_labs.Shell.Words.{words_from, tokens-words}
use team_otw_os_labs.Shell.Lines.{batch_lines-print_lines}
use team_otw_os_labs.Shell.Ending.{double_free}

abbrev counting : Os
counting = record { World = ℕ; fork = λ n. (n, n + 1); execvp = λ args n. n; waitpid = λ p n. n }

abbrev ls_word : List ℕ
ls_word = b'l' ∷ b's' ∷ []

-- "ls; ls"
abbrev twice : List ℕ
twice = ls_word ++ (b';' ∷ b' ' ∷ ls_word)

tokens-words_example : tokens b';' twice ≡ ok (ls_word ∷ (b' ' ∷ ls_word) ∷ [])
unfolding words_from
tokens-words_example = tokens-words b';' twice

batch_lines-print_lines_example :
    (batch_lines 3 (ls_word ++ (b'\n' ∷ ls_word)) ≡ ok (ls_word ∷ []))
    × (batch_lines 3 (ls_word ++ (b'\n' ∷ (ls_word ++ 255 ∷ (ls_word ++ b'\n' ∷ []))))
        ≡ ok (ls_word ∷ []))
batch_lines-print_lines_example =
    batch_lines-print_lines 3 (ls_word ∷ []) ls_word (ls_word ++ b'\n' ∷ []) (omega arith)
      (((refl, refl), ((refl, refl), tt)), tt) ((refl, refl), ((refl, refl), tt))

double_free_example :
    (ps : Pointers) × (w1 : ℕ) × (line_loop counting []
        (twice ∷ [])
        (record { line = null; pids = null })
        100
      ≡ ok (ps, w1))
    × (finish counting ps ≡ fault)
    × (shell_main counting [] (twice ∷ []) 100 ≡ fault)
unfolding words_from
double_free_example = double_free counting [] twice [] 100 (((λ e. cc), ((λ e. cc), tt)), tt)

-- A command of blanks only is a crash, and one that starts with "exit" ends the shell.
blank_cmd : run_cmd counting (b' ' ∷ []) 100 ≡ fault
unfolding run_cmd
blank_cmd = refl
