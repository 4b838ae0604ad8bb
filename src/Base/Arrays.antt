-- ===== src/Base/Arrays.antt =====
-- Arrays of known length: `load` against `get_or`, and both after `set`.
use Prim.Native.Nat.{ℕ, zero, suc, ◌<◌, ◌≤◌}
use mathlib.Core.Path.{◌≡◌, refl, ap, sym}
use mathlib.Core.Logic.{◌≢◌}
use mathlib.Core.List.{List, [], ◌∷◌}
use native.Mathlib.Omega.{arith}
use team_otw_os_labs.Base.Lists.{take, length, get_or, set}
use team_otw_os_labs.Base.Outcome.{ok, load, ok-injective}

module _ {A : Type 0} where
  pub load-get_or : (xs : List A) (i : ℕ) (v : A) → i < length xs → load xs i ≡ ok (get_or xs i v)
  unfolding load
  load-get_or [] i v h = absurd (omega arith)
  load-get_or (x ∷ xs) zero v h = refl
  load-get_or (x ∷ xs) (suc i) v h = load-get_or xs i v (omega arith)

  pub load-lt : (xs : List A) (i : ℕ) (a : A) → load xs i ≡ ok a → i < length xs
  unfolding load
  load-lt [] i a h = cc
  load-lt (x ∷ xs) zero a h = omega arith
  load-lt (x ∷ xs) (suc i) a h = omega (arith, load-lt xs i a h)

  pub get_or-load : (xs : List A) (i : ℕ) (a v : A) → load xs i ≡ ok a → get_or xs i v ≡ a
  unfolding load
  get_or-load [] i a v h = cc
  get_or-load (x ∷ xs) zero a v h = cc
  get_or-load (x ∷ xs) (suc i) a v h = get_or-load xs i a v h

  pub get_or-set : (xs : List A) (i : ℕ) (a v : A) → i < length xs → get_or (set xs i a) i v ≡ a
  get_or-set [] i a v h = absurd (omega arith)
  get_or-set (x ∷ xs) zero a v h = refl
  get_or-set (x ∷ xs) (suc i) a v h = get_or-set xs i a v (omega arith)

  pub get_or-set_ne :
      (xs : List A) (i j : ℕ) (a v : A) → j ≢ i → get_or (set xs i a) j v ≡ get_or xs j v
  get_or-set_ne [] i j a v h = refl
  get_or-set_ne (x ∷ xs) zero zero a v h = absurd (h refl)
  get_or-set_ne (x ∷ xs) zero (suc j) a v h = refl
  get_or-set_ne (x ∷ xs) (suc i) zero a v h = refl
  get_or-set_ne (x ∷ xs) (suc i) (suc j) a v h = get_or-set_ne xs i j a v (λ e. h (ap suc e))

  pub set-load : (xs : List A) (i : ℕ) (a : A) → load xs i ≡ ok a → set xs i a ≡ xs
  unfolding load
  set-load [] i a h = refl
  set-load (x ∷ xs) zero a h = ap (λ y. y ∷ xs) (sym (ok-injective h))
  set-load (x ∷ xs) (suc i) a h = ap (λ ys. x ∷ ys) (set-load xs i a h)

  pub load-set_ne : (xs : List A) (i j : ℕ) (a : A) → j ≢ i → load (set xs i a) j ≡ load xs j
  unfolding load
  load-set_ne [] i j a h = refl
  load-set_ne (x ∷ xs) zero zero a h = absurd (h refl)
  load-set_ne (x ∷ xs) zero (suc j) a h = refl
  load-set_ne (x ∷ xs) (suc i) zero a h = refl
  load-set_ne (x ∷ xs) (suc i) (suc j) a h = load-set_ne xs i j a (λ e. h (ap suc e))

  pub take-all : (xs : List A) (n : ℕ) → length xs ≤ n → take n xs ≡ xs
  take-all [] zero h = refl
  take-all [] (suc n) h = refl
  take-all (x ∷ xs) zero h = absurd (omega arith)
  take-all (x ∷ xs) (suc n) h = ap (λ l. x ∷ l) (take-all xs n (omega arith))
