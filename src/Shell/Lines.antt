-- ===== src/Shell/Lines.antt =====
-- The lines that totw_p2/shell.c reads from a batch file.
use team_otw_os_labs.Base.{
  ℕ, zero, suc, ◌<◌, ◌≡◌, refl, ◌∙◌, List, [], ◌∷◌, ◌++◌, false, ◌==◌, ◌||◌, some, none, ok, ◌>>=◌,
  length, arith, append-nil, append_assoc, All,
}
use team_otw_os_labs.Shell.{input_loop, fget_input, batch_lines}

-- A byte that is neither a newline nor NUL nor the `char` -1.
abbrev pub IsText : ℕ → Type 0
IsText c = ((c == b'\n' || c == 0) ≡ false) × ((c == 255) ≡ false)

abbrev pub print_lines : List (List ℕ) → List ℕ → List ℕ
print_lines [] rest = rest
print_lines (l ∷ ls) rest = l ++ b'\n' ∷ print_lines ls rest

loop-line :
    (str l rest : List ℕ)
    → All IsText l
    → input_loop str (l ++ b'\n' ∷ rest) ≡ (some (str ++ l), rest)
unfolding input_loop
loop-line str [] rest t = rw append-nil
loop-line str (c ∷ l) rest t = rw (t.0.0, t.0.1, loop-line (str ++ c ∷ []) l rest t.1, append_assoc)

loop-end : (str l : List ℕ) → All IsText l → input_loop str l ≡ (none, [])
unfolding input_loop
loop-end str [] t = refl
loop-end str (c ∷ l) t = rw (t.0.0, t.0.1, loop-end (str ++ c ∷ []) l t.1)

loop-eof : (str l more : List ℕ) → All IsText l → input_loop str (l ++ 255 ∷ more) ≡ (none, more)
unfolding input_loop
loop-eof str [] more t = refl
loop-eof str (c ∷ l) more t = rw (t.0.0, t.0.1, loop-eof (str ++ c ∷ []) l more t.1)

-- A line that is closed by a newline is read, and the rest stays.
fget_input-line : (l rest : List ℕ) → All IsText l → fget_input (l ++ b'\n' ∷ rest) ≡ (some l, rest)
unfolding fget_input
fget_input-line l rest t = loop-line [] l rest t

fget_input-end : (l : List ℕ) → All IsText l → fget_input l ≡ (none, [])
unfolding fget_input
fget_input-end l t = loop-end [] l t

fget_input-eof : (l more : List ℕ) → All IsText l → fget_input (l ++ 255 ∷ more) ≡ (none, more)
unfolding fget_input
fget_input-eof l more t = loop-eof [] l more t

one_line :
    (fuel : ℕ) (fp l rest : List ℕ)
    → fget_input fp ≡ (some l, rest)
    → batch_lines (suc fuel) fp ≡ (batch_lines fuel rest >>= λ ls. ok (l ∷ ls))
unfolding batch_lines
one_line fuel fp l rest e = rw (batch_lines, e) (rw e)

-- Lines in front of bytes that hold no line.
read_back :
    (fuel : ℕ) (ls : List (List ℕ)) (rest left : List ℕ)
    → length ls < fuel
    → All (All IsText) ls
    → fget_input rest ≡ (none, left)
    → batch_lines fuel (print_lines ls rest) ≡ ok ls
unfolding batch_lines
read_back zero ls rest left h t e = absurd (omega arith)
read_back (suc fuel) [] rest left h t e = rw (batch_lines, e)
read_back (suc fuel) (l ∷ ls) rest left h t e =
    let whole = l ++ b'\n' ∷ print_lines ls rest in
    one_line fuel whole l (print_lines ls rest) (fget_input-line l (print_lines ls rest) t.0)
    ∙ rw (read_back fuel ls rest left (omega arith) t.1 e)

-- A file of lines, each closed by a newline, is read back line by line, where neither the lines nor
-- the text behind the last newline have a NUL, a newline or the byte 255; that text is lost. If the
-- text is followed by the byte 255, which the program takes for `EOF`, the same lines are read and
-- nothing of what is behind it. A round for each line and one more are enough.
pub batch_lines-print_lines :
    (fuel : ℕ) (ls : List (List ℕ)) (rest more : List ℕ)
    → length ls < fuel
    → All (All IsText) ls
    → All IsText rest
    → (batch_lines fuel (print_lines ls rest) ≡ ok ls)
      × (batch_lines fuel (print_lines ls (rest ++ 255 ∷ more)) ≡ ok ls)
batch_lines-print_lines fuel ls rest more h t u = (
  read_back fuel ls rest [] h t (fget_input-end rest u),
  read_back fuel ls (rest ++ 255 ∷ more) more h t (fget_input-eof rest more u),
)
