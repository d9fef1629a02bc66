-- ===== src/Limit/Examples.antt =====
-- The theorems of `net.Limit` for three operations, the second and third of which find the object in
-- use.
use net.Prelude.{ℕ, ◌≡◌, ◌++◌, false, List, [], ◌∷◌, total}
use net.Limit.{Limit, fresh, Event, starts, ends, run_all}
use net.Limit.Turns.{IsExclusive, weight, started_by, ends_only, run_all-Exclusive, run_all-drained}

abbrev history : List Event
history = starts 1 ∷ starts 2 ∷ ends ∷ starts 3 ∷ []

run_all-Exclusive_example :
    IsExclusive (run_all history fresh)
    × ((f : ℕ → ℕ) → weight f (run_all history fresh) ≡ started_by f history)
run_all-Exclusive_example = run_all-Exclusive history

run_all-drained_example :
    (m : Limit) × (run_all (history ++ ends_only 3) fresh ≡ m)
    × (m.in_use ≡ false)
    × (m.started ≡ [])
    × (m.head ≡ [])
    × ((f : ℕ → ℕ) → total f m.told ≡ started_by f history)
run_all-drained_example = run_all-drained history
