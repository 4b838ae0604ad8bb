-- ===== src/Shell/Words.antt =====
-- What `strtok` makes of a line of totw_p2/shell.c.
use team_otw_os_labs.Base.{
  ℕ, zero, suc, ◌<◌, ◌≤◌, ◌≡◌, ◌⊎◌, inl, inr, refl, sym, ap, ◌∙◌, List, [], ◌∷◌, ◌++◌, false, ◌==◌,
  if◌then◌else◌, some, none, ok, ◌>>=◌, length, arith, append-nil, append_assoc, Bool-cases,
}
use team_otw_os_labs.Shell.{skip, token, behind, strtok, strtok_loop, tokens}

-- A word, unless it is empty, in front of others.
abbrev pub flush : List ℕ → List (List ℕ) → List (List ℕ)
flush [] ws = ws
flush (c ∷ cs) ws = (c ∷ cs) ∷ ws

-- The words between separators, in one pass; `cur` is what has been read of the present word.
unfoldable pub words_from : ℕ → (cur : List ℕ) → List ℕ → List (List ℕ)
words_from sep cur [] = flush cur []
words_from sep cur (x ∷ xs) =
    let ended = flush cur (words_from sep [] xs) in
    let longer = words_from sep (cur ++ x ∷ []) xs in if x == sep then ended else longer

words-skip : (sep : ℕ) (s : List ℕ) → words_from sep [] s ≡ words_from sep [] (skip sep s)
unfolding words_from skip
words-skip sep [] = refl
words-skip sep (x ∷ xs) = elim (Bool-cases (x == sep)) [
  | inl e ↦ rw e (words-skip sep xs)
  | inr n ↦ rw (n, words_from) (rw n)
]

words-token :
    (sep : ℕ) (cur s : List ℕ)
    → words_from sep cur s ≡ flush (cur ++ token sep s) (words_from sep [] (behind sep s))
unfolding words_from token behind
words-token sep cur [] = rw append-nil
words-token sep cur (x ∷ xs) = elim (Bool-cases (x == sep)) [
  | inl e ↦ rw (e, append-nil)
  | inr n ↦ rw (n, words-token sep (cur ++ x ∷ []) xs, append_assoc)
]

length-skip : (sep : ℕ) (s : List ℕ) → length (skip sep s) ≤ length s
unfolding skip
length-skip sep [] = omega arith
length-skip sep (x ∷ xs) = ground (arith, length-skip sep xs)

length-behind : (sep : ℕ) (s : List ℕ) → length (behind sep s) ≤ length s
unfolding behind
length-behind sep [] = omega arith
length-behind sep (x ∷ xs) = ground (arith, length-behind sep xs)

-- What is skipped to starts with another byte.
skip-cases :
    (sep : ℕ) (s : List ℕ)
    → (skip sep s ≡ []) ⊎ ((x : ℕ) × (xs : List ℕ) × (skip sep s ≡ x ∷ xs) × ((x == sep) ≡ false))
unfolding skip
skip-cases sep [] = inl refl
skip-cases sep (x ∷ xs) = elim (Bool-cases (x == sep)) [
  | inl e ↦ rw e (skip-cases sep xs)
  | inr n ↦ inr (x, xs, rw n, n)
]

strtok-none : (sep : ℕ) (s : List ℕ) → skip sep s ≡ [] → strtok sep s ≡ none
unfolding strtok
strtok-none sep s e = rw (strtok, e)

strtok-some :
    (sep : ℕ) (s : List ℕ) (x : ℕ) (xs : List ℕ)
    → skip sep s ≡ x ∷ xs
    → strtok sep s ≡ some (token sep (x ∷ xs), behind sep (x ∷ xs))
unfolding strtok
strtok-some sep s x xs e = rw (strtok, e)

last_token :
    (fuel sep : ℕ) (s : List ℕ) → strtok sep s ≡ none → strtok_loop (suc fuel) sep s ≡ ok []
unfolding strtok_loop
last_token fuel sep s e = rw (strtok_loop, e)

one_token :
    (fuel sep : ℕ) (s t rest : List ℕ)
    → strtok sep s ≡ some (t, rest)
    → strtok_loop (suc fuel) sep s ≡ (strtok_loop fuel sep rest >>= λ ts. ok (t ∷ ts))
unfolding strtok_loop
one_token fuel sep s t rest e = rw (strtok_loop, e)

-- A token that was not skipped over has a first byte.
words-first :
    (sep x : ℕ) (xs : List ℕ)
    → (x == sep) ≡ false
    → words_from sep [] (x ∷ xs) ≡ token sep (x ∷ xs) ∷ words_from sep [] (behind sep (x ∷ xs))
unfolding token
words-first sep x xs n = words-token sep [] (x ∷ xs) ∙ rw n

behind-first :
    (sep x : ℕ) (xs : List ℕ) → (x == sep) ≡ false → length (behind sep (x ∷ xs)) ≤ length xs
unfolding behind
behind-first sep x xs n = rw n (length-behind sep xs)

loop-words :
    (fuel sep : ℕ) (s : List ℕ)
    → length s < fuel
    → strtok_loop fuel sep s ≡ ok (words_from sep [] s)
unfolding words_from
loop-words zero sep s h = absurd (omega arith)
loop-words (suc fuel) sep s h = elim (skip-cases sep s) [
  | inl e ↦ last_token fuel sep s (strtok-none sep s e) ∙ ap ok (no_words e)
  | inr (x, xs, e, n) ↦
      let shorter : length (x ∷ xs) ≤ length s = rw e at (length-skip sep s) in
      one_token fuel sep s (token sep (x ∷ xs)) (behind sep (x ∷ xs)) (strtok-some sep s x xs e)
      ∙ rw
          (loop-words fuel sep (behind sep (x ∷ xs))
            (omega (arith, h, shorter, behind-first sep x xs n)))
          (ap ok (sym (words-skip sep s ∙ (ap (words_from sep []) e ∙ words-first sep x xs n))))
]
  where
    empty_words : words_from sep [] [] ≡ []
    empty_words = refl

    no_words : skip sep s ≡ [] → [] ≡ words_from sep [] s
    no_words e = sym (words-skip sep s ∙ (ap (words_from sep []) e ∙ empty_words))

-- Splitting a line by `strtok` ends, and gives the non-empty pieces between the separators, in order.
pub tokens-words : (sep : ℕ) (s : List ℕ) → tokens sep s ≡ ok (words_from sep [] s)
unfolding tokens
tokens-words sep s = loop-words (suc (length s)) sep s (omega arith)
