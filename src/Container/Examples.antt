-- ===== src/Container/Examples.antt =====
-- Tests of the table of `net.Container`, and its theorems at a small table.
use net.Prelude.{
  ℕ, zero, suc, ◌≡◌, refl, ◌<◌, [], ◌∷◌, Option, none, some, arith, length, get_elem?, inl, IsIn,
}
use net.Container.{Slot, Container, empty, insert, erase, lookup, invalid}
use net.Container.Invariant.{IsValid}
use net.Container.Lookup.{Updates, lookup-insert, lookup-erase}

-- Two slots, of which the first was erased.
abbrev holed : Container ℕ
holed = record { records = Slot.link 2 ∷ Slot.used 8 ∷ []; free = 0 }

abbrev built : Option (Container ℕ)
built = elim (insert 7 (empty {R = ℕ})) [
  | none ↦ none
  | some (_, c) ↦ elim (insert 8 c) [ none ↦ none | some (_, d) ↦ erase 0 d ]
]

built-holed : built ≡ some holed
unfolding insert erase
built-holed = refl

-- A slot that is erased twice links to itself, and the second `insert` after that fails.
erased_twice :
    (elim (erase 0 holed) [ none ↦ none | some c ↦ insert 1 c ])
    ≡ some (0, record { records = Slot.used 1 ∷ Slot.used 8 ∷ []; free = 0 })
unfolding insert erase
erased_twice = refl

abbrev stuck : Container ℕ
stuck = record { records = Slot.used 1 ∷ Slot.used 8 ∷ []; free = 0 }

then_stuck : insert 2 stuck ≡ none
unfolding insert
then_stuck = refl

holed_complete : (i n : ℕ) → get_elem? holed.records i ≡ some (Slot.link n) → IsIn i (0 ∷ [])
holed_complete zero n h = inl refl
holed_complete (suc zero) n h = cc
holed_complete (suc (suc i)) n h = cc

holed-IsValid : IsValid holed
holed-IsValid = record {
  frees = 0 ∷ [];
  chain = (refl, (2, refl, refl));
  distinct = (λ p. p, tt);
  complete = holed_complete;
  fits = omega arith;
}

lookup-insert_example :
    (id : ℕ) × (c' : Container ℕ) × (insert 9 holed ≡ some (id, c'))
    × IsValid c'
    × (lookup id holed ≡ none)
    × (id < invalid)
    × Updates holed id (some 9) c'
lookup-insert_example = lookup-insert 9 holed holed-IsValid (omega arith)

lookup-erase_example :
    (c' : Container ℕ) × (erase 1 holed ≡ some c')
    × IsValid c'
    × (length c'.records ≡ 2)
    × Updates holed 1 none c'
unfolding lookup
lookup-erase_example = lookup-erase 1 holed {r = 8} holed-IsValid refl
