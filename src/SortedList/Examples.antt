-- ===== src/SortedList/Examples.antt =====
-- Tests of `net.SortedList`, and its theorems at a small list.
use net.Prelude.{ℕ, zero, suc, ◌≡◌, refl, Option, none, some, [], ◌∷◌, arith, ltb, IsIn}
use net.SortedList.{Store, insert, erase}
use net.SortedList.View.{Holds}
use net.SortedList.Insert.{insert-Holds}
use net.SortedList.Erase.{erase-Holds}

-- The node is its own value; the list is 2, 5.
abbrev links : ℕ → Option ℕ
links (suc (suc zero)) = some 5
links _ = none

abbrev two : Store
two = record { head = some 2; next = links }

abbrev same : ℕ → ℕ
same n = n

two-Holds : Holds two (2 ∷ 5 ∷ [])
two-Holds = record { segment = (refl, (refl, refl)); distinct = omega arith }

insert-Holds_example :
    (t : Store) × (insert ltb same 3 two 4 ≡ some t)
    × Holds t (2 ∷ 4 ∷ 5 ∷ [])
    × ((j : ℕ) → ¬ IsIn j (4 ∷ 2 ∷ 5 ∷ []) → t.next j ≡ two.next j)
insert-Holds_example =
    insert-Holds ltb same 3 two 4 (2 ∷ 5 ∷ []) (omega arith) two-Holds (omega arith)

erase-Holds_example :
    (t : Store) × (erase 3 two 5 ≡ some (some 5, t))
    × Holds t (2 ∷ [])
    × ((j : ℕ) → ¬ IsIn j (2 ∷ 5 ∷ []) → t.next j ≡ two.next j)
erase-Holds_example = erase-Holds 3 two 5 (2 ∷ 5 ∷ []) (omega arith) two-Holds
