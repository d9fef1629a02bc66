-- ===== src/SortedList/View.antt =====
-- The sequence of nodes that a `net.SortedList` stands for, and the operations on it.
use net.Prelude.{
  ℕ, Bool, List, [], ◌∷◌, Option, none, some, ◌≡◌, ◌==◌, if◌then◌else◌, false, true, Distinct,
}
use net.SortedList.{Store}

-- From the pointer `p` the `next` fields lead through the nodes to `nullptr`.
abbrev pub Segment : Store → Option ℕ → List ℕ → Type 0
Segment s p [] = p ≡ none
Segment s p (x ∷ xs) = (p ≡ some x) × Segment s (s.next x) xs

-- The list of `s` holds the distinct nodes `xs`, in this order.
pub record Holds (s : Store) (xs : List ℕ) : Type 0 where
  pub segment : Segment s s.head xs
  pub distinct : Distinct xs

-- Before the first node whose value is not less than that of `node`.
abbrev pub insert_sorted {κ} : {V : Type κ} → (V → V → Bool) → (ℕ → V) → ℕ → List ℕ → List ℕ
insert_sorted comp value node [] = node ∷ []
insert_sorted comp value node (x ∷ xs) =
    if comp (value x) (value node) then x ∷ insert_sorted comp value node xs else node ∷ x ∷ xs

abbrev pub remove : ℕ → List ℕ → List ℕ
remove node [] = []
remove node (x ∷ xs) = if x == node then xs else x ∷ remove node xs

abbrev pub contains : ℕ → List ℕ → Bool
contains node [] = false
contains node (x ∷ xs) = if x == node then true else contains node xs
