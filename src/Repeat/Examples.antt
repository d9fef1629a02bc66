-- ===== src/Repeat/Examples.antt =====
-- The theorems of `net.Repeat` for a predicate that counts down, and a body that is 0 once it was
-- moved from.
use net.Prelude.{ℕ, zero, suc, ◌≡◌, refl, true, false, [], ◌∷◌, ◌++◌}
use net.Prelude.Outcome.{returns}
use net.Repeat.{value, Asked, says, State, init, start, run}
use net.Repeat.Loop.{values, Over, run-Over}

abbrev count_down : ℕ → Asked ℕ
count_down zero = says true zero
count_down (suc n) = says false n

abbrev emptied : ℕ → ℕ
emptied b = 0

run-Over_example :
    (e : State ℕ ℕ) × (run count_down emptied
        (values 2 ++ value ∷ [])
        (start count_down emptied (init 7 2))
      ≡ returns tt e)
    × Over count_down emptied value 2 7 e
run-Over_example = run-Over count_down emptied 2 7 2 0 0 (1, refl, (0, refl, refl)) refl
