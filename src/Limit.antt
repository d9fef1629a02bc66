-- ===== src/Limit.antt =====
-- examples/postgres.cpp: `pg::limit`, which lets one operation at a time use an object. An operation
-- that finds the object in use is put in front of the list of those that wait. The sender that an
-- operation runs is not modelled: that it completes is an event.
pub mod Turns
mod Examples
use net.Prelude.{ℕ, Bool, true, false, List, [], ◌∷◌, if◌then◌else◌}

-- `in_use` and the list from `head` on, the operations whose inner operation was started and has not
-- completed, and those whose receiver was told.
pub record Limit : Type 0 where
  pub in_use : Bool
  pub head : List ℕ
  pub started : List ℕ
  pub told : List ℕ

abbrev pub fresh : Limit
fresh = record { in_use = false; head = []; started = []; told = [] }

-- `run`: connects and starts the inner operation.
unfoldable pub run : ℕ → Limit → Limit
run op l = record l { started = op ∷ l.started }

unfoldable pub start : ℕ → Limit → Limit
unfolding run
start op l =
    if l.in_use then record l { head = op ∷ l.head } else run op (record l { in_use = true })

unfoldable pub complete : Limit → Limit
unfolding run
complete l = elim l.head [
  | op ∷ rest ↦ run op (record l { head = rest })
  | [] ↦ record l { in_use = false }
]

-- The receiver of the inner operation: `complete`, and then the receiver is told.
unfoldable pub receive : ℕ → Limit → Limit
unfolding complete
receive op l = let c = complete l in record c { told = op ∷ c.told }

pub data Event : Type 0 where
  starts : ℕ → Event
  -- the inner operation that was started last and still runs completes
  ends : Event

unfoldable pub step : Event → Limit → Limit
unfolding start receive
step (starts op) l = start op l
step ends l = elim l.started [ [] ↦ l | op ∷ rest ↦ receive op (record l { started = rest }) ]

unfoldable pub run_all : List Event → Limit → Limit
unfolding step
run_all [] l = l
run_all (e ∷ es) l = run_all es (step e l)
