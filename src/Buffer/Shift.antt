-- ===== src/Buffer/Shift.antt =====
-- The two shifting loops of totw_p3/buffer.c.
use team_otw_os_labs.Base.{
  ℕ, zero, suc, ◌+◌, ◌≡◌, refl, sym, ap, ◌∙◌, List, [], ◌∷◌, ◌++◌, arith, length, length-append, ok,
  ◌>>=◌, load, store, append_assoc, none_last, last, Last-of,
}
use team_otw_os_labs.Buffer.{shift_up, shift_down}

pub load-append : (xs : List ℕ) (a : ℕ) (ys : List ℕ) → load (xs ++ a ∷ ys) (length xs) ≡ ok a
unfolding load
load-append [] a ys = refl
load-append (x ∷ xs) a ys = load-append xs a ys

pub store-append :
    (xs : List ℕ) (a : ℕ) (ys : List ℕ) (v : ℕ)
    → store (xs ++ a ∷ ys) (length xs) v ≡ ok (xs ++ v ∷ ys)
unfolding store
store-append [] a ys v = refl
store-append (x ∷ xs) a ys v = rw (store-append xs a ys v) refl

load-append_next :
    (xs : List ℕ) (c a : ℕ) (ys : List ℕ) → load (xs ++ c ∷ a ∷ ys) (suc (length xs)) ≡ ok a
unfolding load
load-append_next [] c a ys = refl
load-append_next (x ∷ xs) c a ys = load-append_next xs c a ys

store-append_next :
    (xs : List ℕ) (c a : ℕ) (ys : List ℕ) (v : ℕ)
    → store (xs ++ c ∷ a ∷ ys) (suc (length xs)) v ≡ ok (xs ++ c ∷ v ∷ ys)
unfolding store
store-append_next [] c a ys v = refl
store-append_next (x ∷ xs) c a ys v = rw (store-append_next xs c a ys v) refl

-- Shifting up and writing slot 0 puts the value in front and drops the slot at the end.
pub shift_up_lem :
    (i : ℕ) (ys : List ℕ) (a : ℕ) (zs : List ℕ) (v : ℕ)
    → length ys ≡ i
    → (shift_up i (ys ++ a ∷ zs) >>= λ d. store d 0 v) ≡ ok (v ∷ (ys ++ zs))
unfolding shift_up store
shift_up_lem zero [] a zs v e = refl
shift_up_lem zero (y ∷ ys) a zs v e = absurd (omega arith)
shift_up_lem (suc i) ys a zs v e = elim (Last-of ys) [
  | none_last n ↦ absurd (omega (arith, ap length n))
  | last front c k ↦
      let len : length front ≡ i = omega (arith, ap length k, length-append front (c ∷ [])) in
      let whole : ys ++ a ∷ zs ≡ front ++ c ∷ a ∷ zs = rw (k, append_assoc) in
      let read : load (ys ++ a ∷ zs) i ≡ ok c = rw (whole, ← len) (load-append front c (a ∷ zs)) in
      let write : store (ys ++ a ∷ zs) (suc i) c ≡ ok (front ++ c ∷ c ∷ zs) =
        rw (whole, ← len) (store-append_next front c a zs c) in
      rw (read, write) (shift_up_lem i front c (c ∷ zs) v len ∙ (rw (k, append_assoc)))
]

-- Shifting down and writing the last slot drops slot 0.
pub shift_down_lem :
    (ys : List ℕ) (a : ℕ) (zs : List ℕ) (v : ℕ)
    → (shift_down (length zs) (length ys) (ys ++ a ∷ zs) >>= λ d. store d (length ys + length zs) v)
      ≡ ok (ys ++ (zs ++ v ∷ []))
unfolding shift_down
shift_down_lem ys a [] v =
    let e : length ys + 0 ≡ length ys = omega arith in rw e (store-append ys a [] v)
shift_down_lem ys a (z ∷ zs) v =
    let len : length (ys ++ z ∷ []) ≡ suc (length ys) = omega (arith, length-append ys (z ∷ [])) in
    let n : length ys + suc (length zs) ≡ suc (length ys) + length zs = omega arith in
    let shape : ys ++ z ∷ z ∷ zs ≡ (ys ++ z ∷ []) ++ z ∷ zs =
      sym (append_assoc ys (z ∷ []) (z ∷ zs)) in
    rw (load-append_next ys a z zs, store-append ys a (z ∷ zs) z, shape, n, ← len)
      (shift_down_lem (ys ++ z ∷ []) z zs v ∙ ap ok (append_assoc ys (z ∷ []) (zs ++ v ∷ [])))
