-- ===== src/Task/Examples.antt =====
-- The theorems of `net.Task` for a coroutine that awaits one sender and returns what it gave, and
-- for one that lets the exception of the sender out.
use net.Prelude.{true, ℕ, ◌≡◌, List, [], ◌∷◌, none}
use net.Prelude.Outcome.{returns, and_then}
use net.Task.{
  task_result, Resumed, started, result, rethrown, Did, awaits, finishes, throws, Task, value,
  error, connect, start,
}
use net.Task.Once.{Event, completes, stop_requested, happen, Settles, Handles, start-Settles}

abbrev returns_it : ℕ → Resumed ℕ ℕ → ℕ × Did ℕ ℕ
returns_it n started = (n, awaits)
returns_it n (result v) = (n, finishes v)
returns_it n (rethrown x) = (n, finishes x)

returns_it-Handles : Handles returns_it
returns_it-Handles b started x = cc
returns_it-Handles b (result v) x = cc
returns_it-Handles b (rethrown y) x = cc

abbrev lets_out : ℕ → Resumed ℕ ℕ → ℕ × Did ℕ ℕ
lets_out n started = (n, awaits)
lets_out n (result v) = (n, finishes v)
lets_out n (rethrown x) = (n, throws x)

abbrev history : List (Event ℕ ℕ)
history = stop_requested ∷ completes (value 7) ∷ []

start-Settles_example :
    (t : Task ℕ ℕ ℕ) × (and_then
        (start returns_it true (connect 0 (task_result none)))
        (λ _ s. happen returns_it history s)
      ≡ returns tt t)
    × Settles returns_it t
start-Settles_example =
    start-Settles returns_it true 0 (task_result none) history returns_it-Handles

-- The sender fails, and a stop is requested after that.
abbrev failing : List (Event ℕ ℕ)
failing = completes (error 4) ∷ stop_requested ∷ []
