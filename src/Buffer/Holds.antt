-- ===== src/Buffer/Holds.antt =====
-- The buffer against a list of at most ten values: a stack or a queue, by its `stack` flag.
use team_otw_os_labs.Base.{
  ℕ, zero, suc, ◌+◌, ◌-◌, ◌<◌, ◌≤◌, ◌≡◌, ◌≢◌, refl, sym, ap, ◌∙◌, List, [], ◌∷◌, ◌++◌, not, arith,
  ◌==◌, if◌then◌else◌, length, length-append, get_or, append_assoc, append-nil, replicate,
  replicate-append, length-replicate, All, All-append, ok, fault, get_or-append, through, load,
  store, load-get_or, ◌>>=◌, Bool-cases, inl, inr,
}
use team_otw_os_labs.Buffer.{
  Buffer, buffer_size, vacant, shift_up, first_vacant, add_to, shift_down, pop, is_empty, is_full,
}
use team_otw_os_labs.Buffer.Shift.{store-append, shift_up_lem, shift_down_lem}

-- The slots that hold the values `xs`, the rest vacant.
abbrev pub laid : List ℕ → List ℕ
laid xs = xs ++ replicate (buffer_size - length xs) vacant

-- A buffer that holds the values `xs`, first out first.
pub record Holds (b : Buffer) (xs : List ℕ) : Type 0 where
  pub slots_are : b.slots ≡ laid xs
  pub values : All (λ x. x ≢ vacant) xs
  pub fits : length xs ≤ buffer_size

-- What adding a value makes of the values held.
abbrev pub added : ℕ → ℕ → List ℕ → List ℕ
added stack v xs = if stack == 0 then xs ++ v ∷ [] else v ∷ xs

first_vacant_lem :
    (i : ℕ) (xs ys : List ℕ)
    → All (λ x. x ≢ vacant) xs
    → first_vacant i (xs ++ vacant ∷ ys) ≡ ok (i + length xs)
unfolding first_vacant
first_vacant_lem i [] ys h = ap ok (omega arith)
first_vacant_lem i (x ∷ xs) ys h = ground (arith, h.0, first_vacant_lem (suc i) xs ys h.1)

first_vacant_full : (i : ℕ) (xs : List ℕ) → All (λ x. x ≢ vacant) xs → first_vacant i xs ≡ fault
unfolding first_vacant
first_vacant_full i [] h = refl
first_vacant_full i (x ∷ xs) h = ground (arith, h.0, first_vacant_full (suc i) xs h.1)

-- With room the array is the values, a vacant slot and the other vacant slots.
room :
    (xs : List ℕ)
    → length xs < buffer_size
    → laid xs ≡ xs ++ vacant ∷ replicate (9 - length xs) vacant
room xs h =
    let e : 10 - length xs ≡ suc (9 - length xs) = omega arith in
    ap (λ k. xs ++ replicate k vacant) e

add_stack :
    (b : Buffer) (xs : List ℕ) (v : ℕ)
    → Holds b xs
    → length xs < buffer_size
    → (shift_up 9 b.slots >>= λ d. store d 0 v) ≡ ok (laid (v ∷ xs))
add_stack b xs v h lt =
    let k = 9 - length xs in
    let shape : b.slots ≡ (xs ++ replicate k vacant) ++ vacant ∷ [] =
      h.slots_are
      ∙ room xs lt
      ∙ ap (λ l. xs ++ l) (sym (replicate-append k vacant))
      ∙ sym (append_assoc xs (replicate k vacant) (vacant ∷ [])) in
    let n : length (xs ++ replicate k vacant) ≡ 9 =
      omega (arith, length-append xs (replicate k vacant), length-replicate k vacant) in
    let same : 9 - length xs ≡ 10 - suc (length xs) = omega arith in
    rw shape (
      shift_up_lem 9 (xs ++ replicate k vacant) vacant [] v n
      ∙ (rw append-nil (ap (λ j. ok (v ∷ (xs ++ replicate j vacant))) same)))

add_queue :
    (b : Buffer) (xs : List ℕ) (v : ℕ)
    → Holds b xs
    → length xs < buffer_size
    → (first_vacant 0 b.slots ≡ ok (0 + length xs))
      × (store b.slots (0 + length xs) v ≡ ok (laid (xs ++ v ∷ [])))
add_queue b xs v h lt =
    let shape = h.slots_are ∙ room xs lt in
    let zero_add : 0 + length xs ≡ length xs = omega arith in
    let same : 9 - length xs ≡ 10 - length (xs ++ v ∷ []) =
      omega (arith, length-append xs (v ∷ [])) in
    (
      ap (first_vacant 0) shape ∙ first_vacant_lem 0 xs (replicate (9 - length xs) vacant) h.values,
      rw (zero_add, shape)
          (store-append xs vacant (replicate (9 - length xs) vacant) v
            ∙ ap ok (
                sym (append_assoc xs (v ∷ []) (replicate (9 - length xs) vacant))
                ∙ ap (λ j. (xs ++ v ∷ []) ++ replicate j vacant) same)),
    )

-- With room for one more, `add_to` of a value other than -1 puts it in front of the values held,
-- or behind them in queue mode, and accesses the array in range only.
pub add_to-Holds :
    (b : Buffer) (xs : List ℕ) (v : ℕ)
    → Holds b xs
    → length xs < buffer_size
    → v ≢ vacant
    → (b' : Buffer) × (add_to b v ≡ ok b') × Holds b' (added b.stack v xs) × (b'.stack ≡ b.stack)
unfolding add_to
add_to-Holds b xs v h lt ne = elim (Bool-cases (b.stack == 0)) [
  | inl q ↦
      let (f, s) = add_queue b xs v h lt in
      (
        record b { slots = laid (xs ++ v ∷ []) },
        rw (q, f, s) refl,
        rw q (record {
          slots_are = refl;
          values = All-append (λ x. x ≢ vacant) xs (v ∷ []) h.values (ne, tt);
          fits = omega (arith, length-append xs (v ∷ []));
        }),
        refl,
      )
  | inr t ↦ (
    record b { slots = laid (v ∷ xs) },
    rw t (
        through (shift_up 9 b.slots) (λ d. store d 0 v) (λ d. ok (record b { slots = d }))
          (laid (v ∷ xs)) (add_stack b xs v h lt)),
    rw t (record { slots_are = refl; values = (ne, h.values); fits = lt }),
    refl,
  )
]

-- In queue mode `add_to` on a full buffer reads past the end of the array.
add_to-full :
    (b : Buffer) (xs : List ℕ) (v : ℕ)
    → Holds b xs
    → length xs ≡ buffer_size
    → b.stack ≡ 0
    → add_to b v ≡ fault
unfolding add_to
add_to-full b xs v h full q =
    let none_left : 10 - length xs ≡ 0 = omega arith in
    let shape : b.slots ≡ xs =
      h.slots_are ∙ ap (λ k. xs ++ replicate k vacant) none_left ∙ append-nil xs in
    let crash : first_vacant 0 b.slots ≡ fault =
      ap (first_vacant 0) shape ∙ first_vacant_full 0 xs h.values in
    rw (q, crash)

-- `pop` on a buffer that holds a value returns the first one and leaves the others, and accesses
-- the array in range only.
pub pop-Holds :
    (b : Buffer) (x : ℕ) (xs : List ℕ)
    → Holds b (x ∷ xs)
    → (b' : Buffer) × (pop b ≡ ok (x, b')) × Holds b' xs × (b'.stack ≡ b.stack)
unfolding pop load
pop-Holds b x xs h =
    let zs = xs ++ replicate (10 - suc (length xs)) vacant in
    let n : length zs ≡ 9 = omega (
      arith,
      length-append xs (replicate (10 - suc (length xs)) vacant),
      length-replicate (10 - suc (length xs)) vacant,
      h.fits,
    ) in
    let zero_add : 0 + length zs ≡ 9 = omega arith in
    let left : (shift_down 9 0 (x ∷ zs) >>= λ d. store d 9 vacant) ≡ ok (zs ++ vacant ∷ []) =
      ap (λ k. shift_down k 0 (x ∷ zs) >>= λ d. store d 9 vacant) (sym n)
      ∙ ap (λ k. shift_down (length zs) 0 (x ∷ zs) >>= λ d. store d k vacant) (sym zero_add)
      ∙ shift_down_lem [] x zs vacant in
    let same : suc (10 - suc (length xs)) ≡ 10 - length xs = omega (arith, h.fits) in
    let back : zs ++ vacant ∷ [] ≡ laid xs =
      append_assoc xs (replicate (10 - suc (length xs)) vacant) (vacant ∷ [])
      ∙ ap (λ l. xs ++ l) (replicate-append (10 - suc (length xs)) vacant)
      ∙ ap (λ k. xs ++ replicate k vacant) same in
    (
      record b { slots = laid xs },
      rw (h.slots_are) (
          through (shift_down 9 0 (x ∷ zs)) (λ d. store d 9 vacant)
            (λ d. ok (x, record b { slots = d })) (laid xs) (left ∙ ap ok back)),
      record { slots_are = refl; values = h.values.1; fits = omega (arith, h.fits) },
      refl,
    )

first_slot :
    (xs : List ℕ)
    → All (λ x. x ≢ vacant) xs
    → (get_or (laid xs) 0 vacant == vacant) ≡ (length xs == 0)
first_slot [] h = refl
first_slot (x ∷ xs) h = ground (arith, h.0)

get_or-All :
    (xs : List ℕ) (i : ℕ) → i < length xs → All (λ x. x ≢ vacant) xs → get_or xs i vacant ≢ vacant
get_or-All [] i lt h = absurd (omega arith)
get_or-All (x ∷ xs) zero lt h = h.0
get_or-All (x ∷ xs) (suc i) lt h = get_or-All xs i (omega arith) h.1

last_slot :
    (xs : List ℕ)
    → All (λ x. x ≢ vacant) xs
    → length xs ≤ buffer_size
    → not (get_or (laid xs) 9 vacant == vacant) ≡ (length xs == buffer_size)
last_slot xs h le = elim (Bool-cases (length xs == 10)) [
  | inl full ↦
      let n : length xs ≡ 10 = ground arith in
      let k : 10 - length xs ≡ 0 = omega arith in
      let shape : laid xs ≡ xs = ap (λ j. xs ++ replicate j vacant) k ∙ append-nil xs in
      let x : get_or (laid xs) 9 vacant ≢ vacant = rw shape (get_or-All xs 9 (omega arith) h) in
      rw full (ground arith)
  | inr less ↦
      let lt : length xs < 10 = ground arith in
      let k = 9 - length xs in
      let shape : laid xs ≡ (xs ++ replicate k vacant) ++ vacant ∷ [] =
        room xs lt
        ∙ ap (λ l. xs ++ l) (sym (replicate-append k vacant))
        ∙ sym (append_assoc xs (replicate k vacant) (vacant ∷ [])) in
      let n : length (xs ++ replicate k vacant) ≡ 9 =
        omega (arith, length-append xs (replicate k vacant), length-replicate k vacant) in
      let x : get_or (laid xs) 9 vacant ≡ vacant =
        ap (λ l. get_or l 9 vacant) shape
        ∙ ap (λ j. get_or ((xs ++ replicate k vacant) ++ vacant ∷ []) j vacant) (sym n)
        ∙ get_or-append (xs ++ replicate k vacant) vacant [] vacant in
      rw (less, x)
]

length-laid : (xs : List ℕ) → length xs ≤ buffer_size → length (laid xs) ≡ 10
length-laid xs h = omega (
  arith,
  length-append xs (replicate (10 - length xs) vacant),
  length-replicate (10 - length xs) vacant,
)

-- `is_empty` and `is_full` say whether the buffer holds no value, and whether it holds ten.
pub is_empty-is_full :
    (b : Buffer) (xs : List ℕ)
    → Holds b xs
    → (is_empty b ≡ ok (length xs == 0)) × (is_full b ≡ ok (length xs == buffer_size))
unfolding is_empty is_full
is_empty-is_full b xs h =
    let size = length-laid xs h.fits in
    (
      rw (h.slots_are, load-get_or (laid xs) 0 vacant (omega (arith, size)))
          (ap ok (first_slot xs h.values)),
      rw (h.slots_are, load-get_or (laid xs) 9 vacant (omega (arith, size)))
          (ap ok (last_slot xs h.values h.fits)),
    )
