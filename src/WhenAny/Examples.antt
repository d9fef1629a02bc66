-- ===== src/WhenAny/Examples.antt =====
-- The theorems of `net.WhenAny` for two children: the second completes first, the first one is
-- stopped by it, and their steps alternate.
use net.Prelude.{
  ℕ, zero, suc, ◌≡◌, ◌<◌, ◌≤◌, refl, true, List, [], ◌∷◌, ◌++◌, some, if◌then◌else◌, arith, total,
  ◌==◌,
}
use net.WhenAny.{Completion, value, stopped, begin, run}
use net.WhenAny.Invariant.{finished}
use net.WhenAny.Finish.{first_result, turns, told-first_result, run-told}

abbrev both : List (ℕ × Completion ℕ ℕ)
both = (1, value 5) ∷ (0, stopped) ∷ []

abbrev alternating : List (ℕ × Completion ℕ ℕ)
alternating = both ++ both ++ both ++ both

told-first_result_example :
    (run alternating (begin 2)).state.told
    ≡ (if total finished (run alternating (begin 2)).children == 2 then value 5 ∷ [] else [])
told-first_result_example = told-first_result 2 alternating (omega arith) refl

often : (i : ℕ) → i < 2 → 4 ≤ turns i alternating
often zero lt = omega arith
often (suc zero) lt = omega arith
often (suc (suc i)) lt = absurd (omega arith)

run-told_example :
    (c : Completion ℕ ℕ) × (first_result 2 alternating ≡ some c)
    × ((run alternating (begin 2)).state.told ≡ c ∷ [])
    × ((run alternating (begin 2)).state.stop_requested ≡ true)
run-told_example = run-told 2 alternating (omega arith) (omega arith) often
