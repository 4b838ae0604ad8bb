-- ===== src/Base/Lists.antt =====
-- Lists measured and indexed by native numbers, and predicates on lists by recursion.
use Prim.Native.Nat.{ℕ, zero, suc, ◌+◌}
use mathlib.Core.Path.{◌≡◌, refl, ap}
use mathlib.Core.List.{List, [], ◌∷◌, ◌++◌}
use native.Mathlib.Omega.{arith}

module _ {ℓ} {A : Type ℓ} where
  abbrev pub length : List A → ℕ
  length [] = 0
  length (x ∷ xs) = suc (length xs)

  abbrev pub get_or : List A → ℕ → A → A
  get_or [] i d = d
  get_or (x ∷ xs) zero d = x
  get_or (x ∷ xs) (suc i) d = get_or xs i d

  -- A write out of bounds changes nothing.
  abbrev pub set : List A → ℕ → A → List A
  set [] i v = []
  set (x ∷ xs) zero v = v ∷ xs
  set (x ∷ xs) (suc i) v = x ∷ set xs i v

  abbrev pub replicate : ℕ → A → List A
  replicate zero a = []
  replicate (suc n) a = a ∷ replicate n a

  pub length-append : (xs ys : List A) → length (xs ++ ys) ≡ length xs + length ys
  length-append [] ys = omega arith
  length-append (x ∷ xs) ys = omega (arith, length-append xs ys)

  pub length-set : (xs : List A) (i : ℕ) (v : A) → length (set xs i v) ≡ length xs
  length-set [] i v = refl
  length-set (x ∷ xs) zero v = refl
  length-set (x ∷ xs) (suc i) v = ap suc (length-set xs i v)

abbrev pub All {ℓ κ} : {A : Type ℓ} → (A → Type κ) → List A → Type κ
All P [] = Unit
All P (x ∷ xs) = P x × All P xs

pub All-append {ℓ κ} :
    {A : Type ℓ} (P : A → Type κ) (xs ys : List A) → All P xs → All P ys → All P (xs ++ ys)
All-append P [] ys hx hy = hy
All-append P (x ∷ xs) ys hx hy = (hx.0, All-append P xs ys hx.1 hy)

pub All-split {ℓ κ} :
    {A : Type ℓ} (P : A → Type κ) (xs ys : List A) → All P (xs ++ ys) → All P xs × All P ys
All-split P [] ys h = (tt, h)
All-split P (x ∷ xs) ys h = let (a, b) = All-split P xs ys h.1 in ((h.0, a), b)

pub All-zip {ℓ κ μ ν} :
    {A : Type ℓ} {P : A → Type κ} {Q : A → Type μ} {R : A → Type ν}
    → ((a : A) → P a → Q a → R a)
    → (xs : List A) → All P xs
    → All Q xs
    → All R xs
All-zip f [] p q = tt
All-zip f (x ∷ xs) p q = (f x p.0 q.0, All-zip f xs p.1 q.1)

-- A list is empty or has a last element.
pub data Last {ℓ} {A : Type ℓ} (l : List A) : Type ℓ where
  none_last : l ≡ [] → Last l
  last : (xs : List A) (a : A) → l ≡ xs ++ a ∷ [] → Last l

pub Last-of {ℓ} : {A : Type ℓ} (xs : List A) → Last xs
Last-of [] = none_last refl
Last-of {A} (x ∷ xs) = go (Last-of xs)
  where
    go : {l : List A} → Last l → Last (x ∷ l)
    go (none_last e) = last [] x (ap (λ l. x ∷ l) e)
    go (last ys a e) = last (x ∷ ys) a (ap (λ l. x ∷ l) e)

module _ {ℓ} {A : Type ℓ} where
  pub get_or-append :
      (xs : List A) (a : A) (ys : List A) (d : A) → get_or (xs ++ a ∷ ys) (length xs) d ≡ a
  get_or-append [] a ys d = refl
  get_or-append (x ∷ xs) a ys d = get_or-append xs a ys d

  pub set-append :
      (xs : List A) (a : A) (ys : List A) (v : A) → set (xs ++ a ∷ ys) (length xs) v ≡ xs ++ v ∷ ys
  set-append [] a ys v = refl
  set-append (x ∷ xs) a ys v = ap (λ l. x ∷ l) (set-append xs a ys v)

  pub replicate-append : (n : ℕ) (a : A) → replicate n a ++ a ∷ [] ≡ a ∷ replicate n a
  replicate-append zero a = refl
  replicate-append (suc n) a = ap (λ l. a ∷ l) (replicate-append n a)

  pub length-replicate : (n : ℕ) (a : A) → length (replicate n a) ≡ n
  length-replicate zero a = refl
  length-replicate (suc n) a = ap suc (length-replicate n a)

module _ {ℓ} {A : Type ℓ} where
  abbrev pub take : ℕ → List A → List A
  take zero xs = []
  take (suc n) [] = []
  take (suc n) (x ∷ xs) = x ∷ take n xs

  abbrev pub drop : ℕ → List A → List A
  drop zero xs = xs
  drop (suc n) [] = []
  drop (suc n) (x ∷ xs) = drop n xs
