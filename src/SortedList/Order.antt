-- ===== src/SortedList/Order.antt =====
-- The list of `net.SortedList` stays in the order of its comparison.
use mathlib.Core.List.{Perm}
use mathlib.Core.List.Perm
use net.Prelude.{ℕ, ◌≡◌, Bool, true, false, List, [], ◌∷◌, arith, ltb, Bool-cases, inl, inr, ◌==◌}
use net.SortedList.View.{insert_sorted, remove}

-- What `Compare` promises: it is a strict weak order, of which these two laws are used.
pub record IsStrictWeak {V : Type 0} (comp : V → V → Bool) : Type 0 where
  pub asymm : (a b : V) → comp a b ≡ true → comp b a ≡ false
  pub trans_not : (a b c : V) → comp a b ≡ false → comp b c ≡ false → comp a c ≡ false

-- `std::less` on times.
pub ltb-IsStrictWeak : IsStrictWeak ltb
ltb-IsStrictWeak = record { asymm = λ a b h. ground arith; trans_not = λ a b c h k. ground arith }

module _ {V : Type 0} (comp : V → V → Bool) (value : ℕ → V) where
  -- No node of the list is less than `v`.
  abbrev pub NoneLess : V → List ℕ → Type 0
  NoneLess v [] = Unit {0}
  NoneLess v (x ∷ xs) = (comp (value x) v ≡ false) × NoneLess v xs

  -- No node is less than one before it.
  abbrev pub IsSorted : List ℕ → Type 0
  IsSorted [] = Unit {0}
  IsSorted (x ∷ xs) = NoneLess (value x) xs × IsSorted xs

  module _ (laws : IsStrictWeak comp) where
    NoneLess-trans : (a b : V) (xs : List ℕ) → comp b a ≡ false → NoneLess b xs → NoneLess a xs
    NoneLess-trans a b [] h n = tt
    NoneLess-trans a b (x ∷ xs) h (n, ns) =
        (laws.trans_not (value x) b a n h, NoneLess-trans a b xs h ns)

    NoneLess-insert_sorted :
        (v : V) (node : ℕ) (xs : List ℕ)
        → comp (value node) v ≡ false
        → NoneLess v xs
        → NoneLess v (insert_sorted comp value node xs)
    NoneLess-insert_sorted v node [] h n = (h, tt)
    NoneLess-insert_sorted v node (x ∷ xs) h (n, ns) =
        elim (Bool-cases (comp (value x) (value node))) [
          | inl less ↦ rw less (n, NoneLess-insert_sorted v node xs h ns)
          | inr stop ↦ rw stop (h, (n, ns))
        ]

    insert_sorted-IsSorted :
        (node : ℕ) (xs : List ℕ) → IsSorted xs → IsSorted (insert_sorted comp value node xs)
    insert_sorted-IsSorted node [] h = (tt, tt)
    insert_sorted-IsSorted node (x ∷ xs) (n, s) = elim (Bool-cases (comp (value x) (value node))) [
      | inl less ↦ rw less (
        NoneLess-insert_sorted (value x) node xs (laws.asymm (value x) (value node) less) n,
        insert_sorted-IsSorted node xs s,
      )
      | inr stop ↦ rw stop ((stop, NoneLess-trans (value node) (value x) xs stop n), (n, s))
    ]

  insert_sorted-perm :
      (node : ℕ) (xs : List ℕ) → Perm (insert_sorted comp value node xs) (node ∷ xs)
  insert_sorted-perm node [] = Perm.refl (node ∷ [])
  insert_sorted-perm node (x ∷ xs) = elim (Bool-cases (comp (value x) (value node))) [
    | inl less ↦
        rw less (Perm.trans (Perm.cons x (insert_sorted-perm node xs)) (Perm.swap node x xs))
    | inr stop ↦ rw stop (Perm.refl (node ∷ x ∷ xs))
  ]

  -- Inserting a node into a sorted list gives a sorted list of the same nodes and that one, where
  -- the comparison is a strict weak order.
  pub insert_sorted_lem :
      (node : ℕ) (xs : List ℕ)
      → IsStrictWeak comp
      → IsSorted xs
      → IsSorted (insert_sorted comp value node xs)
        × Perm (insert_sorted comp value node xs) (node ∷ xs)
  insert_sorted_lem node xs laws s =
      (insert_sorted-IsSorted laws node xs s, insert_sorted-perm node xs)

  NoneLess-remove : (v : V) (node : ℕ) (xs : List ℕ) → NoneLess v xs → NoneLess v (remove node xs)
  NoneLess-remove v node [] n = tt
  NoneLess-remove v node (x ∷ xs) (n, ns) = elim (Bool-cases (x == node)) [
    | inl hit ↦ rw hit ns
    | inr miss ↦ rw miss (n, NoneLess-remove v node xs ns)
  ]

  pub remove-IsSorted : (node : ℕ) (xs : List ℕ) → IsSorted xs → IsSorted (remove node xs)
  remove-IsSorted node [] s = tt
  remove-IsSorted node (x ∷ xs) (n, s) = elim (Bool-cases (x == node)) [
    | inl hit ↦ rw hit s
    | inr miss ↦ rw miss (NoneLess-remove (value x) node xs n, remove-IsSorted node xs s)
  ]
