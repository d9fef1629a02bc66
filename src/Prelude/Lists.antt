-- ===== src/Prelude/Lists.antt =====
-- `std::vector` as a list over the native numbers: `size`, indexed reads and writes, the last
-- element and the list without it, and membership as a predicate by recursion.
use Prim.Native.Nat.{ℕ, zero, suc, ◌+◌, ◌<◌}
use mathlib.Core.Path.{◌≡◌, refl, ap}
use mathlib.Core.Logic.{◌≢◌, ◌⊎◌}
use mathlib.Core.List.{List, [], ◌∷◌, ◌++◌}
use mathlib.Core.Option.{Option, none, some}
use native.Mathlib.Omega.{arith}

module _ {ℓ} {A : Type ℓ} where
  abbrev pub length : List A → ℕ
  length [] = 0
  length (x ∷ xs) = suc (length xs)

  abbrev pub get_elem? : List A → ℕ → Option A
  get_elem? [] i = none
  get_elem? (x ∷ xs) zero = some x
  get_elem? (x ∷ xs) (suc i) = get_elem? xs i

  -- A write out of bounds changes nothing.
  abbrev pub set : List A → ℕ → A → List A
  set [] i v = []
  set (x ∷ xs) zero v = v ∷ xs
  set (x ∷ xs) (suc i) v = x ∷ set xs i v

module _ {ℓ} {A : Type ℓ} where
  pub length-append : (xs ys : List A) → length (xs ++ ys) ≡ length xs + length ys
  length-append [] ys = omega arith
  length-append (x ∷ xs) ys = omega (arith, length-append xs ys)

  pub length-set : (xs : List A) (i : ℕ) (v : A) → length (set xs i v) ≡ length xs
  length-set [] i v = refl
  length-set (x ∷ xs) zero v = refl
  length-set (x ∷ xs) (suc i) v = ap suc (length-set xs i v)

  pub get_elem?-set_self :
      (xs : List A) (i : ℕ) (v : A) → i < length xs → get_elem? (set xs i v) i ≡ some v
  get_elem?-set_self [] i v h = elim h [ ]
  get_elem?-set_self (x ∷ xs) zero v h = refl
  get_elem?-set_self (x ∷ xs) (suc i) v h = get_elem?-set_self xs i v (omega arith)

  pub get_elem?-set_ne :
      (xs : List A) (i j : ℕ) (v : A) → i ≢ j → get_elem? (set xs i v) j ≡ get_elem? xs j
  get_elem?-set_ne [] i j v h = refl
  get_elem?-set_ne (x ∷ xs) zero zero v h = absurd (h refl)
  get_elem?-set_ne (x ∷ xs) zero (suc j) v h = refl
  get_elem?-set_ne (x ∷ xs) (suc i) zero v h = refl
  get_elem?-set_ne (x ∷ xs) (suc i) (suc j) v h = get_elem?-set_ne xs i j v (λ e. h (ap suc e))

  -- An element is found exactly at the indices below the length.
  pub get_elem?-some_lt : (xs : List A) (i : ℕ) {a : A} → get_elem? xs i ≡ some a → i < length xs
  get_elem?-some_lt [] i h = cc
  get_elem?-some_lt (x ∷ xs) zero h = omega arith
  get_elem?-some_lt (x ∷ xs) (suc i) h = omega (arith, get_elem?-some_lt xs i h)

  pub get_elem?-none : (xs : List A) → get_elem? xs (length xs) ≡ none
  get_elem?-none [] = refl
  get_elem?-none (x ∷ xs) = get_elem?-none xs

  pub get_elem?-ne-none : (xs : List A) (i : ℕ) → i < length xs → get_elem? xs i ≢ none
  get_elem?-ne-none [] i h e = elim h [ ]
  get_elem?-ne-none (x ∷ xs) zero h e = cc
  get_elem?-ne-none (x ∷ xs) (suc i) h e = get_elem?-ne-none xs i (omega arith) e

  pub get_elem?-append_last : (xs : List A) (a : A) → get_elem? (xs ++ a ∷ []) (length xs) ≡ some a
  get_elem?-append_last [] a = refl
  get_elem?-append_last (x ∷ xs) a = get_elem?-append_last xs a

  pub get_elem?-append_ne :
      (xs : List A) (a : A) (i : ℕ) → i ≢ length xs → get_elem? (xs ++ a ∷ []) i ≡ get_elem? xs i
  get_elem?-append_ne [] a zero h = absurd (h refl)
  get_elem?-append_ne [] a (suc i) h = refl
  get_elem?-append_ne (x ∷ xs) a zero h = refl
  get_elem?-append_ne (x ∷ xs) a (suc i) h = get_elem?-append_ne xs a i (λ e. h (ap suc e))

-- `a` is one of the elements, with its place.
abbrev pub IsIn : {A : Type 0} → A → List A → Type 0
IsIn a [] = ⊥
IsIn a (x ∷ xs) = (x ≡ a) ⊎ IsIn a xs

abbrev pub Distinct : {A : Type 0} → List A → Type 0
Distinct [] = Unit {0}
Distinct (x ∷ xs) = (¬ IsIn x xs) × Distinct xs

-- The sum of a weight over a list. Two lists with the same sum for every weight hold the same
-- elements, each as often.
abbrev pub total {ℓ} : {A : Type ℓ} → (A → ℕ) → List A → ℕ
total f [] = 0
total f (x ∷ xs) = f x + total f xs

pub total-append {ℓ} :
    {A : Type ℓ} (f : A → ℕ) (xs ys : List A) → total f (xs ++ ys) ≡ total f xs + total f ys
total-append f [] ys = omega arith
total-append f (x ∷ xs) ys = omega (arith, total-append f xs ys)

-- A list with an element is one that ends in an element.
pub snoc_view {ℓ} :
    {A : Type ℓ} (x : A) (xs : List A) → (ys : List A) × (b : A) × (x ∷ xs ≡ ys ++ b ∷ [])
snoc_view x [] = ([], x, refl)
snoc_view x (y ∷ xs) = let (ys, b, e) = snoc_view y xs in (x ∷ ys, b, ap (λ l. x ∷ l) e)

pub set-snoc {ℓ} :
    {A : Type ℓ} (ys : List A) (b v : A) (i : ℕ)
    → i < length ys
    → set (ys ++ b ∷ []) i v ≡ set ys i v ++ b ∷ []
set-snoc [] b v i h = elim h [ ]
set-snoc (y ∷ ys) b v zero h = refl
set-snoc (y ∷ ys) b v (suc i) h = ap (λ l. y ∷ l) (set-snoc ys b v i (omega arith))

pub set-length {ℓ} : {A : Type ℓ} (ys : List A) (v : A) → set ys (length ys) v ≡ ys
set-length [] v = refl
set-length (y ∷ ys) v = ap (λ l. y ∷ l) (set-length ys v)

pub total-set {ℓ} :
    {A : Type ℓ} (f : A → ℕ) (ys : List A) (i : ℕ) (b : A) {y : A}
    → get_elem? ys i ≡ some y
    → total f ys + f b ≡ f y + total f (set ys i b)
total-set f [] i b h = cc
total-set f (x ∷ ys) zero b h = ground arith
total-set f (x ∷ ys) (suc i) b h = omega (arith, total-set f ys i b h)
