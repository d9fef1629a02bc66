-- ===== src/Stream/Split.antt =====
-- The text before and behind the first occurrence of a sentinel, which `read` of demo_stream.hpp
-- is to find, and what a search of a part of the text tells of it.
use net.Prelude.{
  ℕ, zero, suc, ◌+◌, ◌≤◌, ◌<◌, ◌≡◌, ◌≢◌, inl, inr, append_assoc, refl, sym, ap, false, Option, none,
  some, List, [], ◌∷◌, ◌++◌, arith, if◌then◌else◌, Bool-cases, length, length-append, length-drop,
  take, drop, take-drop, subst, search, starts_with, starts_with-append, starts_with-long,
  starts_with-length, drop-append,
}

abbrev pub prepend : List ℕ → Option (List ℕ × List ℕ) → Option (List ℕ × List ℕ)
prepend xs none = none
prepend xs (some (pre, post)) = some (xs ++ pre, post)

abbrev pub split : List ℕ → List ℕ → Option (List ℕ × List ℕ)
split t [] = none
split t (x ∷ xs) =
    if starts_with t (x ∷ xs)
    then some ([], drop (length t) (x ∷ xs))
    else prepend (x ∷ []) (split t xs)

pub prepend-prepend :
    (xs ys : List ℕ) (o : Option (List ℕ × List ℕ))
    → prepend xs (prepend ys o) ≡ prepend (xs ++ ys) o
prepend-prepend xs ys none = refl
prepend-prepend xs ys (some (pre, post)) = ap (λ l. some (l, post)) (sym (append_assoc xs ys pre))

prepend_nil : (o : Option (List ℕ × List ℕ)) → prepend [] o ≡ o
prepend_nil none = refl
prepend_nil (some (pre, post)) = refl

-- Where the search finds the text, whatever follows.
pub split-found :
    (t xs more : List ℕ)
    → search t xs ≢ length xs
    → (split t (xs ++ more)
        ≡ some (take (search t xs) xs, drop (length t) (drop (search t xs) xs) ++ more))
      × (length t ≤ length (drop (search t xs) xs))
split-found t [] more h = absurd (h refl)
split-found t (x ∷ xs) more h = elim (Bool-cases (starts_with t (x ∷ xs))) [
  | inl here ↦
      let fits = starts_with-length t (x ∷ xs) here in
      let long = starts_with-long t (x ∷ xs) more here in
      rw (here, long) (ap (λ l. some ([], l)) (drop-append (length t) (x ∷ xs) more fits), fits)
  | inr later ↦
      let rest_found : search t xs ≢ length xs = λ e. h (ground arith) in
      let (text, fits) = split-found t xs more rest_found in
      let shorter = length-drop (search t xs) xs in
      let none_here = starts_with-append t (x ∷ xs) more (omega arith) in
      (rw (none_here, later, text) refl, rw later fits)
]

-- Where it does not, all but the last bytes can be set aside.
split-set_aside :
    (t out kept more : List ℕ)
    → 0 < length t
    → search t (out ++ kept) ≡ length (out ++ kept)
    → length t ≤ length kept + 1
    → split t ((out ++ kept) ++ more) ≡ prepend out (split t (kept ++ more))
split-set_aside t [] kept more some_text h fits = sym (prepend_nil (split t (kept ++ more)))
split-set_aside t (x ∷ out) kept more some_text h fits =
    let later : starts_with t (x ∷ out ++ kept) ≡ false =
      elim (Bool-cases (starts_with t (x ∷ out ++ kept))) [ inl e ↦ ground arith | inr e ↦ e ] in
    let none_here =
      starts_with-append t (x ∷ out ++ kept) more (omega (arith, length-append out kept)) in
    let rest = split-set_aside t out kept more some_text (ground arith) fits in
    rw (none_here, later, rest) (prepend-prepend (x ∷ []) out (split t (kept ++ more)))

-- The same, where what is set aside is the first n bytes, or nothing.
pub split-take :
    (t xs more : List ℕ) (n : ℕ)
    → 0 < length t
    → search t xs ≡ length xs
    → (0 < n → length t ≤ length (drop n xs) + 1)
    → split t (xs ++ more) ≡ prepend (take n xs) (split t (drop n xs ++ more))
split-take t xs more zero some_text h fits = sym (prepend_nil (split t (xs ++ more)))
split-take t xs more (suc n) some_text h fits =
    let k = suc n in
    subst (λ l. split t (l ++ more) ≡ prepend (take k xs) (split t (drop k xs ++ more)))
      (take-drop k xs)
      (split-set_aside t (take k xs) (drop k xs) more some_text
        (subst (λ l. search t l ≡ length l) (sym (take-drop k xs)) h) (fits (omega arith)))

pub split-absent : (t xs : List ℕ) → search t xs ≡ length xs → split t xs ≡ none
split-absent t [] h = refl
split-absent t (x ∷ xs) h =
    let later : starts_with t (x ∷ xs) ≡ false = elim (Bool-cases (starts_with t (x ∷ xs))) [
      | inl e ↦ ground arith
      | inr e ↦ e
    ] in
    rw (later, split-absent t xs (ground arith)) refl
