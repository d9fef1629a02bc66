-- ===== src/Task/Fate.antt =====
-- What the receiver of a `task<void>` of demo_task.hpp is told, exceptions of its code included.
use net.Prelude.{◌≡◌, true, none, List, [], ◌∷◌}
use net.Prelude.Outcome.{Outcome, returns}
use net.Task.{
  running, no_result, Signal, set_value, set_error, set_stopped, Resumed, result, rethrown, Did,
  awaits, finishes, throws, Task, value, error, stopped_early,
}
use net.Task.Once.{Event, completes, stop_requested}

-- How the code of a coroutine comes to its end, if it does.
pub data Fate (X : Type 0) : Type 0 where
  goes_on returned was_stopped : Fate X
  threw : X → Fate X

-- What the receiver is told of that, the last thing first.
abbrev pub report : {R X : Type 0} → Fate X → List (Signal R X)
report goes_on = []
report returned = set_value none ∷ []
report was_stopped = set_stopped ∷ []
report (threw x) = set_value none ∷ set_error x ∷ []

module _ {B V R X : Type 0} (body : B → Resumed V X → B × Did R X) where
  -- The code alone: it is resumed by each completion in turn until one says that it was stopped, and
  -- requests to stop are nothing to it.
  unfoldable pub fate : B → Did R X → List (Event V X) → Fate X
  fate b (finishes r) es = returned
  fate b (throws x) es = threw x
  fate b awaits [] = goes_on
  fate b awaits (stop_requested ∷ es) = fate b awaits es
  fate b awaits (completes (value v) ∷ es) = fate (body b (result v)).0 (body b (result v)).1 es
  fate b awaits (completes (error x) ∷ es) = fate (body b (rethrown x)).0 (body b (rethrown x)).1 es
  fate b awaits (completes stopped_early ∷ es) = was_stopped

  abbrev Tells : Outcome (Task B R X) Unit → List (Signal R X) → Type 0
  Tells o l = (t : Task B R X) × (o ≡ returns tt t) × (t.told ≡ l)

  -- The code awaits a sender.
  record Awaits (t : Task B R X) : Type 0 where
    void : t.kept ≡ no_result
    runs : t.stop_state ≡ running
    waits_for : t.awaiting ≡ true
    none_told : t.told ≡ []
