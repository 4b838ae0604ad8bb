-- ===== src/LinkedList/Represents.antt =====
-- When a heap holds a doubly linked list of given elements.
use team_otw_os_labs.Base.{
  ℕ, zero, suc, ◌+◌, ◌<◌, ◌≡◌, ◌≢◌, List, [], ◌∷◌, false, ◌==◌, some, ok, length, arith, IsSmall,
  refl, sym, ap, ◌∙◌, ◌++◌, add_int_small,
}
use team_otw_os_labs.LinkedList.{Elem, Ends, Heap, read, put, write, size_loop, list_size}

-- An element: its address and its datum.
abbrev pub Node : Type 0
Node = ℕ × ℕ

-- The address of the first element, or `q` if there is none.
abbrev pub first_of : List Node → ℕ → ℕ
first_of [] q = q
first_of (x ∷ xs) q = x.0

-- The address of the last element, or `p` if there is none.
abbrev pub last_of : ℕ → List Node → ℕ
last_of p [] = p
last_of p (x ∷ xs) = last_of x.0 xs

-- The elements are allocated, differ from NULL and are linked both ways; `p` is the address before
-- the first one and `q` that behind the last one.
abbrev pub Links : Heap → ℕ → List Node → ℕ → Type 0
Links h p [] q = Unit
Links h p (x ∷ xs) q =
    (x.0 ≢ 0)
    × (h x.0 ≡ some (record { prev = p; next = first_of xs q; datum = x.1 }))
    × Links h x.0 xs q

abbrev pub Misses : ℕ → List Node → Type 0
Misses a [] = Unit
Misses a (x ∷ xs) = (x.0 ≢ a) × Misses a xs

abbrev pub Distinct : List Node → Type 0
Distinct [] = Unit
Distinct (x ∷ xs) = Misses x.0 xs × Distinct xs

pub record Represents (lst : Ends) (h : Heap) (xs : List Node) : Type 0 where
  pub starts : lst.head ≡ first_of xs 0
  pub ends : lst.tail ≡ last_of 0 xs
  pub linked : Links h 0 xs 0
  pub distinct : Distinct xs

pub put-here : (h : Heap) (a : ℕ) (e : Elem) → put h a e a ≡ some e
unfolding put
put-here h a e = ground arith

pub put-other : (h : Heap) (a b : ℕ) (e : Elem) → b ≢ a → put h a e b ≡ h b
unfolding put
put-other h a b e n = ground arith

pub read-at : (h : Heap) (a : ℕ) (e : Elem) → h a ≡ some e → read h a ≡ ok e
unfolding read
read-at h a e eq = rw (read, eq)

pub write-at : (h : Heap) (a : ℕ) (e v : Elem) → h a ≡ some e → write h a v ≡ ok (put h a v)
unfolding write
write-at h a e v eq = rw (write, eq)

pub nonzero : (a : ℕ) → a ≢ 0 → (a == 0) ≡ false
nonzero a n = ground arith

-- A write outside the elements leaves their links as they are.
pub Links-put :
    (h : Heap) (a : ℕ) (e : Elem) (p : ℕ) (xs : List Node) (q : ℕ)
    → Misses a xs
    → Links h p xs q
    → Links (put h a e) p xs q
Links-put h a e p [] q m l = tt
Links-put h a e p (x ∷ xs) q m l =
    (l.0, put-other h a x.0 e m.0 ∙ l.1, Links-put h a e x.0 xs q m.1 l.2)

pub first-append : (xs ys : List Node) (q : ℕ) → first_of (xs ++ ys) q ≡ first_of xs (first_of ys q)
first-append [] ys q = refl
first-append (x ∷ xs) ys q = refl

pub last-append : (p : ℕ) (xs ys : List Node) → last_of p (xs ++ ys) ≡ last_of (last_of p xs) ys
last-append p [] ys = refl
last-append p (x ∷ xs) ys = last-append x.0 xs ys

pub Links-append :
    (h : Heap) (p : ℕ) (xs ys : List Node) (q : ℕ)
    → Links h p xs (first_of ys q)
    → Links h (last_of p xs) ys q
    → Links h p (xs ++ ys) q
Links-append h p [] ys q l m = m
Links-append h p (x ∷ xs) ys q l m = (
  l.0,
  l.1 ∙ ap (λ n. some (record { prev = p; next = n; datum = x.1 })) (sym (first-append xs ys q)),
  Links-append h x.0 xs ys q l.2 m,
)

pub Links-split :
    (h : Heap) (p : ℕ) (xs ys : List Node) (q : ℕ)
    → Links h p (xs ++ ys) q
    → Links h p xs (first_of ys q) × Links h (last_of p xs) ys q
Links-split h p [] ys q l = (tt, l)
Links-split h p (x ∷ xs) ys q l =
    let (a, b) = Links-split h x.0 xs ys q l.2 in
    (
      (
        l.0,
        l.1 ∙ ap (λ n. some (record { prev = p; next = n; datum = x.1 })) (first-append xs ys q),
        a,
      ),
      b,
    )

pub Misses-append : (a : ℕ) (xs ys : List Node) → Misses a xs → Misses a ys → Misses a (xs ++ ys)
Misses-append a [] ys m n = n
Misses-append a (x ∷ xs) ys m n = (m.0, Misses-append a xs ys m.1 n)

pub Misses-split : (a : ℕ) (xs ys : List Node) → Misses a (xs ++ ys) → Misses a xs × Misses a ys
Misses-split a [] ys m = (tt, m)
Misses-split a (x ∷ xs) ys m = let (b, c) = Misses-split a xs ys m.1 in ((m.0, b), c)

size_loop-Links :
    (fuel : ℕ) (h : Heap) (p : ℕ) (xs : List Node) (count : ℕ)
    → length xs < fuel
    → IsSmall (count + length xs)
    → Links h p xs 0
    → size_loop fuel (first_of xs 0) count h ≡ ok (count + length xs)
unfolding size_loop
size_loop-Links zero h p xs count lt small l = absurd (omega arith)
size_loop-Links (suc fuel) h p [] count lt small l = ap ok (omega arith)
size_loop-Links (suc fuel) h p (x ∷ xs) count lt small l =
    rw
      (
        nonzero x.0 l.0,
        read-at h x.0 (record { prev = p; next = first_of xs 0; datum = x.1 }) l.1,
        add_int_small count 1 (omega arith),
        size_loop-Links fuel h x.0 xs (count + 1) (omega arith) (omega arith) l.2,
      )
      (ap ok (omega arith))

-- `list_size` of a list of fewer than 2 ^ 31 elements is their number, if the loop may run once
-- more than there are elements.
list_size_lem :
    (fuel : ℕ) (lst : Ends) (h : Heap) (xs : List Node)
    → Represents lst h xs
    → length xs < fuel
    → IsSmall (length xs)
    → list_size fuel lst h ≡ ok (length xs)
unfolding list_size
list_size_lem fuel lst h xs r lt small =
    rw (r.starts, size_loop-Links fuel h 0 xs 0 lt (omega arith) r.linked) (ap ok (omega arith))
