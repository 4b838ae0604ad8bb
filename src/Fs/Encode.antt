-- ===== src/Fs/Encode.antt =====
-- The bytes in which a file's metadata go to disk, and what they are read back as.
use team_otw_os_labs.Base.{
  ℕ, zero, suc, ◌+◌, ◌-◌, ◌*◌, ◌%◌, ◌^◌, ◌<◌, ◌≤◌, ◌≡◌, refl, sym, ap, ◌∙◌, List, [], ◌∷◌, ◌++◌,
  map, length, set, take, drop, arith, if◌then◌else◌, ltb, All, append_assoc, append-nil,
  length-set,
}
use team_otw_os_labs.Fs.State.{high_byte, low_byte, list_block}
use team_otw_os_labs.Fs.Mount.{parse_list}
use team_otw_os_labs.Fs.Bytes.{parse_short-bytes}

-- What a `short` from 0 on is read back as.
abbrev pub reread : ℕ → ℕ
reread n = if ltb (n % 256) 128 then n else (n + (2 ^ 16 - 256)) % 2 ^ 16

-- Two bytes for each number.
abbrev encode : List ℕ → List ℕ
encode [] = []
encode (n ∷ ns) = high_byte n ∷ low_byte n ∷ encode ns

abbrev pub IsShort : ℕ → Type 0
IsShort n = n < 2 ^ 15

parse_list-encode : (ns : List ℕ) → All IsShort ns → parse_list (encode ns) ≡ map reread ns
unfolding parse_list
parse_list-encode [] h = refl
parse_list-encode (n ∷ ns) h = rw (parse_short-bytes n h.0, parse_list-encode ns h.1)

pub set-All : (xs : List ℕ) (i v : ℕ) → IsShort v → All IsShort xs → All IsShort (set xs i v)
set-All [] i v short h = h
set-All (x ∷ xs) zero v short h = (short, h.1)
set-All (x ∷ xs) (suc i) v short h = (h.0, set-All xs i v short h.1)

take-set : (xs : List ℕ) (i v : ℕ) → i < length xs → take (suc i) (set xs i v) ≡ take i xs ++ v ∷ []
take-set [] i v h = absurd (omega arith)
take-set (x ∷ xs) zero v h = refl
take-set (x ∷ xs) (suc i) v h = ap (λ l. x ∷ l) (take-set xs i v (omega arith))

drop-set : (xs : List ℕ) (i j v : ℕ) → i < j → drop j (set xs i v) ≡ drop j xs
drop-set [] i j v h = refl
drop-set (x ∷ xs) i zero v h = absurd (omega arith)
drop-set (x ∷ xs) zero (suc j) v h = refl
drop-set (x ∷ xs) (suc i) (suc j) v h = drop-set xs i j v (omega arith)

drop-all : (xs : List ℕ) (n : ℕ) → length xs ≤ n → drop n xs ≡ []
drop-all [] zero h = refl
drop-all [] (suc n) h = refl
drop-all (x ∷ xs) zero h = absurd (omega arith)
drop-all (x ∷ xs) (suc n) h = drop-all xs n (omega arith)

pub take-append-drop : (n : ℕ) (xs : List ℕ) → take n xs ++ drop n xs ≡ xs
take-append-drop zero xs = refl
take-append-drop (suc n) [] = refl
take-append-drop (suc n) (x ∷ xs) = ap (λ l. x ∷ l) (take-append-drop n xs)

-- Two bytes that are written one after the other.
take-set-set :
    (bytes : List ℕ) (i hi lo : ℕ)
    → i + 2 ≤ length bytes
    → take (i + 2) (set (set bytes i hi) (i + 1) lo) ≡ take i bytes ++ hi ∷ lo ∷ []
take-set-set bytes i hi lo h =
    let one : i + 1 ≡ suc i = omega arith in
    let two : i + 2 ≡ suc (suc i) = omega arith in
    rw (one, two)
      (take-set (set bytes i hi) (suc i) lo (omega (arith, length-set bytes i hi))
        ∙ (ap (λ l. l ++ lo ∷ []) (take-set bytes i hi (omega arith))
            ∙ append_assoc (take i bytes) (hi ∷ []) (lo ∷ [])))

-- The bytes from `i` on are those of the numbers.
list_block-encode :
    (ns : List ℕ) (i : ℕ) (bytes : List ℕ)
    → i + 2 * length ns ≤ length bytes
    → list_block i ns bytes ≡ take i bytes ++ (encode ns ++ drop (i + 2 * length ns) bytes)
unfolding list_block
list_block-encode [] i bytes h =
    sym (take-append-drop i bytes) ∙ ap (λ j. take i bytes ++ drop j bytes) (omega arith)
list_block-encode (n ∷ ns) i bytes h =
    let b1 = set bytes i (high_byte n) in
    let b2 = set b1 (i + 1) (low_byte n) in
    list_block-encode ns (i + 2) b2
      (omega (arith, length-set b1 (i + 1) (low_byte n), length-set bytes i (high_byte n)))
    ∙ (ap (λ l. l ++ (encode ns ++ drop (i + 2 + 2 * length ns) b2))
          (take-set-set bytes i (high_byte n) (low_byte n) (omega arith))
        ∙ (append_assoc (take i bytes) (high_byte n ∷ low_byte n ∷ []) _
            ∙ ap (λ l. take i bytes ++ high_byte n ∷ low_byte n ∷ (encode ns ++ l)) rest))
  where
    rest :
        drop (i + 2 + 2 * length ns) (set (set bytes i (high_byte n)) (i + 1) (low_byte n))
        ≡ drop (i + 2 * suc (length ns)) bytes
    rest =
        drop-set (set bytes i (high_byte n)) (i + 1) _ (low_byte n) (omega arith)
        ∙ (drop-set bytes i _ (high_byte n) (omega arith) ∙ ap (λ j. drop j bytes) (omega arith))

-- A block that the numbers fill.
pub list_block-full :
    (ns bytes : List ℕ)
    → All IsShort ns
    → length ns ≡ 2048
    → length bytes ≡ 4096
    → parse_list (list_block 0 ns bytes) ≡ map reread ns
list_block-full ns bytes h count size =
    ap parse_list (
      list_block-encode ns 0 bytes (omega arith)
      ∙ (ap (λ l. encode ns ++ l) (drop-all bytes (0 + 2 * length ns) (omega arith))
          ∙ append-nil (encode ns)))
    ∙ parse_list-encode ns h

pub length-list_block : (i : ℕ) (ns bytes : List ℕ) → length (list_block i ns bytes) ≡ length bytes
unfolding list_block
length-list_block i [] bytes = refl
length-list_block i (n ∷ ns) bytes =
    length-list_block (i + 2) ns (set (set bytes i (high_byte n)) (i + 1) (low_byte n))
    ∙ (length-set (set bytes i (high_byte n)) (i + 1) (low_byte n)
        ∙ length-set bytes i (high_byte n))
