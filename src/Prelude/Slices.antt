-- ===== src/Prelude/Slices.antt =====
-- Parts of a list: its first elements and the rest, and where a list occurs in another.
use Prim.Native.Nat.{ℕ, zero, suc, ◌+◌, ◌-◌, ◌≤◌}
use mathlib.Core.Path.{◌≡◌, refl, sym, ap, ◌∙◌}
use mathlib.Core.Bool.{Bool, true, false, ◌&&◌}
use mathlib.Core.List.{List, [], ◌∷◌, ◌++◌}
use native.Mathlib.Omega.{arith}
use net.Prelude.Tests.{leb, ◌==◌, if◌then◌else◌}
use net.Prelude.Lists.{length, length-append}

abbrev pub min : ℕ → ℕ → ℕ
min a b = if leb a b then a else b

module _ {ℓ} {A : Type ℓ} where
  abbrev pub take : ℕ → List A → List A
  take zero xs = []
  take (suc n) [] = []
  take (suc n) (x ∷ xs) = x ∷ take n xs

  abbrev pub drop : ℕ → List A → List A
  drop zero xs = xs
  drop (suc n) [] = []
  drop (suc n) (x ∷ xs) = drop n xs

  pub append_assoc : (xs ys zs : List A) → (xs ++ ys) ++ zs ≡ xs ++ (ys ++ zs)
  append_assoc [] ys zs = refl
  append_assoc (x ∷ xs) ys zs = ap (λ l. x ∷ l) (append_assoc xs ys zs)

  pub append_nil : (xs : List A) → xs ++ [] ≡ xs
  append_nil [] = refl
  append_nil (x ∷ xs) = ap (λ l. x ∷ l) (append_nil xs)

  pub take-drop : (n : ℕ) (xs : List A) → take n xs ++ drop n xs ≡ xs
  take-drop zero xs = refl
  take-drop (suc n) [] = refl
  take-drop (suc n) (x ∷ xs) = ap (λ l. x ∷ l) (take-drop n xs)

  pub length-take : (n : ℕ) (xs : List A) → length (take n xs) ≡ min n (length xs)
  length-take zero xs = ground arith
  length-take (suc n) [] = ground arith
  length-take (suc n) (x ∷ xs) = ground (arith, length-take n xs)

  pub length-drop : (n : ℕ) (xs : List A) → length (drop n xs) ≡ length xs - n
  length-drop zero xs = omega arith
  length-drop (suc n) [] = omega arith
  length-drop (suc n) (x ∷ xs) = omega (arith, length-drop n xs)

  drop_nil : (n : ℕ) → ◌≡◌ {A = List A} (drop n []) []
  drop_nil zero = refl
  drop_nil (suc n) = refl

  pub drop-drop : (n k m : ℕ) (xs : List A) → m ≡ n + k → drop k (drop n xs) ≡ drop m xs
  drop-drop zero k m xs e = ap (λ j. drop j xs) (omega arith)
  drop-drop (suc n) k zero xs e = absurd (omega arith)
  drop-drop (suc n) k (suc m) [] e = drop_nil k
  drop-drop (suc n) k (suc m) (x ∷ xs) e = drop-drop n k m xs (omega arith)

  pub drop-append : (n : ℕ) (xs ys : List A) → n ≤ length xs → drop n (xs ++ ys) ≡ drop n xs ++ ys
  drop-append zero xs ys h = refl
  drop-append (suc n) [] ys h = absurd (omega arith)
  drop-append (suc n) (x ∷ xs) ys h = drop-append n xs ys (omega arith)

  pub take-append : (xs ys : List A) → take (length xs) (xs ++ ys) ≡ xs
  take-append [] ys = refl
  take-append (x ∷ xs) ys = ap (λ l. x ∷ l) (take-append xs ys)

  pub take_all : (xs : List A) → take (length xs) xs ≡ xs
  take_all [] = refl
  take_all (x ∷ xs) = ap (λ l. x ∷ l) (take_all xs)

module _ {ℓ} {A : Type ℓ} where
  take_nil : (n : ℕ) → ◌≡◌ {A = List A} (take n []) []
  take_nil zero = refl
  take_nil (suc n) = refl

  pub take-take : (m n : ℕ) (xs : List A) → take m (take n xs) ≡ take (min m n) xs
  take-take zero n xs = let none_left : min 0 n ≡ 0 = ground arith in rw none_left refl
  take-take (suc m) zero xs = let none_left : min (suc m) 0 ≡ 0 = ground arith in rw none_left refl
  take-take (suc m) (suc n) [] = sym (take_nil (min (suc m) (suc n)))
  take-take (suc m) (suc n) (x ∷ xs) =
      let both : min (suc m) (suc n) ≡ suc (min m n) = ground arith in
      rw both (ap (λ l. x ∷ l) (take-take m n xs))

  pub take-drop_length : (n : ℕ) (xs : List A) → take n xs ++ drop (length (take n xs)) xs ≡ xs
  take-drop_length zero xs = refl
  take-drop_length (suc n) [] = refl
  take-drop_length (suc n) (x ∷ xs) = ap (λ l. x ∷ l) (take-drop_length n xs)

  pub take-append_behind :
      (xs ys zs : List A) (n : ℕ) → n ≡ length xs + length ys → take n (xs ++ ys ++ zs) ≡ xs ++ ys
  take-append_behind xs ys zs n e =
      ap (λ k. take k (xs ++ ys ++ zs)) (e ∙ sym (length-append xs ys)) ∙ take-append (xs ++ ys) zs

-- Whether a list of numbers begins with another, and the index of its first occurrence, or the
-- length where there is none: `std::search`, and `std::find` for a single element.
abbrev pub starts_with : List ℕ → List ℕ → Bool
starts_with [] xs = true
starts_with (p ∷ ps) [] = false
starts_with (p ∷ ps) (x ∷ xs) = (x == p) && starts_with ps xs

abbrev pub search : List ℕ → List ℕ → ℕ
search ps [] = 0
search ps (x ∷ xs) = if starts_with ps (x ∷ xs) then 0 else suc (search ps xs)

abbrev pub find : ℕ → List ℕ → ℕ
find p [] = 0
find p (x ∷ xs) = if x == p then 0 else suc (find p xs)

pub find-search : (p : ℕ) (xs : List ℕ) → find p xs ≡ search (p ∷ []) xs
find-search p [] = refl
find-search p (x ∷ xs) = ground (arith, find-search p xs)

pub starts_with-append :
    (ps xs ys : List ℕ) → length ps ≤ length xs → starts_with ps (xs ++ ys) ≡ starts_with ps xs
starts_with-append [] xs ys h = refl
starts_with-append (p ∷ ps) [] ys h = absurd (omega arith)
starts_with-append (p ∷ ps) (x ∷ xs) ys h =
    ap (λ b. (x == p) && b) (starts_with-append ps xs ys (omega arith))

pub starts_with-long :
    (ps xs ys : List ℕ) → starts_with ps xs ≡ true → starts_with ps (xs ++ ys) ≡ true
starts_with-long [] xs ys h = refl
starts_with-long (p ∷ ps) [] ys h = cc
starts_with-long (p ∷ ps) (x ∷ xs) ys h = ground (arith, starts_with-long ps xs ys)

pub starts_with-length : (ps xs : List ℕ) → starts_with ps xs ≡ true → length ps ≤ length xs
starts_with-length [] xs h = omega arith
starts_with-length (p ∷ ps) [] h = absurd cc
starts_with-length (p ∷ ps) (x ∷ xs) h = ground (arith, starts_with-length ps xs)

pub search-le : (ps xs : List ℕ) → search ps xs ≤ length xs
search-le ps [] = omega arith
search-le ps (x ∷ xs) = ground (arith, search-le ps xs)
