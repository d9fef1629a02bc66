-- ===== src/IntoExpected/Examples.antt =====
-- The theorem of `net.IntoExpected` for a coroutine that lets the exceptions of its senders out; the
-- sender that it awaits fails.
use net.Prelude.{ℕ, ◌≡◌, false, List, [], ◌∷◌, none}
use net.Prelude.Outcome.{returns, and_then}
use net.Task.{
  Task, task_result, Resumed, started, result, rethrown, Did, awaits, finishes, throws, error,
  connect, start,
}
use net.Task.Once.{Event, completes, stop_requested, happen, Settles}
use net.IntoExpected.{Expected, index_0, index_1}
use net.IntoExpected.Awaited.{adapt_all, ThrowsNothing, adapt_all-Settles}

abbrev code_of : Expected ℕ ℕ → ℕ
code_of (index_0 v) = v
code_of (index_1 e) = e

abbrev handles_nothing : ℕ → Resumed (Expected ℕ ℕ) ℕ → ℕ × Did ℕ ℕ
handles_nothing n started = (n, awaits)
handles_nothing n (result r) = (n, finishes (code_of r))
handles_nothing n (rethrown x) = (n, throws x)

abbrev history : List (Event ℕ ℕ)
history = stop_requested ∷ completes (error 104) ∷ []

handles_nothing-ThrowsNothing : ThrowsNothing handles_nothing
unfolding ThrowsNothing
handles_nothing-ThrowsNothing = (λ b x e. cc, λ b v x e. cc)

adapt_all-Settles_example :
    (t : Task ℕ ℕ ℕ) × (and_then
        (start handles_nothing false (connect 0 (task_result none)))
        (λ _ s. happen handles_nothing (adapt_all history) s)
      ≡ returns tt t)
    × Settles handles_nothing t
adapt_all-Settles_example =
    adapt_all-Settles handles_nothing false 0 (task_result none) history
      handles_nothing-ThrowsNothing
