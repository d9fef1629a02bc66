-- ===== src/Scheduler.antt =====
-- include/beman/net/detail/io_context_scheduler.hpp: the scheduler of an `io_context` and the sender
-- of `schedule`, on the context of `net.Poll`. An operation of the sender is a task of the context:
-- `ran` of it in the log of the context is its `complete`, which tells its receiver a value.
pub mod Order
mod Examples
use net.Prelude.{ℕ, Bool, Option, none, some, List, [], ◌∷◌, ◌==◌, if◌then◌else◌, ◌+◌}
use net.Poll.{Context, Signal, ran, schedule}

-- A scheduler is the context that it names; the constructor asserts that there is one.
pub record Scheduler : Type 0 where
  pub d_context : ℕ

unfoldable pub construct : Option ℕ → Option Scheduler
construct none = none
construct (some context) = some (record { d_context = context })

-- `operator==`.
unfoldable pub equals : Scheduler → Scheduler → Bool
equals a b = a.d_context == b.d_context

-- The sender of `schedule`, and the scheduler on which it says that it completes.
pub record Sender : Type 0 where
  pub d_context : ℕ

unfoldable pub sender_of : Scheduler → Sender
sender_of s = record { d_context = s.d_context }

unfoldable pub completion_scheduler : Sender → Option Scheduler
unfolding construct
completion_scheduler s = construct (some s.d_context)

-- `start` of an operation, by its id.
unfoldable pub start : ℕ → Context → Context
unfolding schedule
start op c = schedule op c

-- How often the receiver of an operation was told a value.
abbrev pub values_told : ℕ → List Signal → ℕ
values_told op [] = 0
values_told op (ran task ∷ log) = (if task == op then 1 else 0) + values_told op log
values_told op (_ ∷ log) = values_told op log
