-- ===== src/Base/Outcome.antt =====
-- The outcome of a call: a result, a crash (a failed `assert`, a read through NULL or past an
-- array), or a loop whose fuel has run out.
use Prim.Native.Nat.{ℕ, zero, suc}
use mathlib.Core.List.{List, [], ◌∷◌}
use mathlib.Core.Bool.{Bool, true, false}
use team_otw_os_labs.Base.Tests.{if◌then◌else◌}
use mathlib.Core.Path.{◌≡◌, ap, refl}

pub data Run (A : Type 0) : Type 0 where
  ok : A → Run A
  fault : Run A
  out_of_fuel : Run A

infixl 5 ◌>>=◌
abbrev pub ◌>>=◌ : {A B : Type 0} → Run A → (A → Run B) → Run B
ok a >>= f = f a
fault >>= f = fault
out_of_fuel >>= f = out_of_fuel

pub ok-injective : {A : Type 0} {a b : A} → ok a ≡ ok b → a ≡ b
ok-injective {A} {a} e = ap (λ r. value r) e
  where
    value : Run A → A
    value (ok x) = x
    value fault = a
    value out_of_fuel = a

pub ok-fst :
    {A B : Type 0} {a a' : A} {b b' : B} → ◌≡◌ {A = Run (A × B)} (ok (a, b)) (ok (a', b')) → a ≡ a'
ok-fst e = ap (λ t. t.0) (ok-injective e)

pub ok-snd :
    {A B : Type 0} {a a' : A} {b b' : B} → ◌≡◌ {A = Run (A × B)} (ok (a, b)) (ok (a', b')) → b ≡ b'
ok-snd e = ap (λ t. t.1) (ok-injective e)

-- `a[i]` and `a[i] = v` on an array of known length: a crash out of range.
unfoldable pub load : {A : Type 0} → List A → ℕ → Run A
load [] i = fault
load (x ∷ xs) zero = ok x
load (x ∷ xs) (suc i) = load xs i

unfoldable pub store : {A : Type 0} → List A → ℕ → A → Run (List A)
store [] i v = fault
store (x ∷ xs) zero v = ok (v ∷ xs)
store (x ∷ xs) (suc i) v = store xs i v >>= λ ys. ok (x ∷ ys)

-- What holds of the result, if there is one.
abbrev pub After : {A : Type 0} → (A → Type 0) → Run A → Type 0
After P (ok a) = P a
After P fault = Unit
After P out_of_fuel = Unit

pub After->>= :
    {A B : Type 0} (P : B → Type 0) (m : Run A) (f : A → Run B)
    → ((a : A) → m ≡ ok a → After P (f a))
    → After P (m >>= f)
After->>= P (ok a) f h = h a refl
After->>= P fault f h = tt
After->>= P out_of_fuel f h = tt

pub After-ok : {A : Type 0} (P : A → Type 0) {r : Run A} {a : A} → r ≡ ok a → After P r → P a
After-ok P e h = rw e at h

-- There is a result.
abbrev pub Total : {A : Type 0} → Run A → Type 0
Total {A} r = (a : A) × (r ≡ ok a)

pub Total->>= :
    {A B : Type 0} (m : Run A) (f : A → Run B) → Total m → ((a : A) → Total (f a)) → Total (m >>= f)
Total->>= m f t h = rw t.1 (h t.0)

pub Total-ite :
    {A : Type 0} (b : Bool) {x y : Run A} → Total x → Total y → Total (if b then x else y)
Total-ite true t u = t
Total-ite false t u = u

-- Two calls that together give `b`, and then a third.
pub through :
    {A B C : Type 0} (m : Run A) (f : A → Run B) (g : B → Run C) (b : B)
    → (m >>= f) ≡ ok b
    → (m >>= λ x. f x >>= g) ≡ g b
through (ok a) f g b e = ap (λ r. r >>= g) e
through fault f g b e = cc
through out_of_fuel f g b e = cc
