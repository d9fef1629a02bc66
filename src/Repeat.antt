-- ===== src/Repeat.antt =====
-- include/beman/net/detail/repeat_effect_until.hpp: a sender that completes an upstream sender and
-- then starts a body again and again, until a predicate says true. The predicate is an object that
-- is called and may throw. The body is an object that connecting it moves from: `moved` is what
-- this leaves. Operation states of other senders are arguments as well: each completion of the one
-- that runs is a `Completion`, and the calls of the receiver and the bodies that were started go to
-- logs, newest first.
pub mod Loop
pub mod AsyncRun
mod Examples
mod AsyncExamples
use net.Prelude.{ℕ, zero, suc, Bool, true, false, Option, none, some, List, [], ◌∷◌}
use net.Prelude.Outcome.{Outcome, returns, undefined, terminated, and_then}

pub data Completion : Type 0 where
  value stopped : Completion
  error : ℕ → Completion

-- What calling a predicate gives.
pub data Asked (P : Type 0) : Type 0 where
  says : Bool → P → Asked P
  throws : Asked P

-- The child operation that was started and has not completed.
pub data Child : Type 0 where
  nothing upstream body_state : Child

-- `state`, with its child operations.
pub record State (P B : Type 0) : Type 0 where
  pub body : B
  pub predicate : P
  pub running : Child
  pub told : List Completion
  pub bodies : List B

abbrev pub init : {P B : Type 0} → B → P → State P B
init b p = record { body = b; predicate = p; running = nothing; told = []; bodies = [] }

module _ {P B : Type 0} (ask : P → Asked P) (moved : B → B) where
  -- `start`.
  unfoldable pub start : State P B → State P B
  start s = record s { running = upstream }

  abbrev pub tell : Completion → State P B → State P B
  tell c s = record s { running = nothing; told = c ∷ s.told }

  abbrev pub start_body : State P B → State P B
  start_body s = record s { body = moved s.body; running = body_state; bodies = s.body ∷ s.bodies }

  -- `run_next`, which is noexcept.
  unfoldable pub run_next : State P B → Outcome (State P B) (Unit {0})
  run_next s = elim (ask s.predicate) [
    | throws ↦ terminated
    | says true p ↦ returns tt (tell value (record s { predicate = p }))
    | says false p ↦ returns tt (start_body (record s { predicate = p }))
  ]

  -- `set_value`, `set_error` and `set_stopped` of `receiver`.
  unfoldable pub receive : Completion → State P B → Outcome (State P B) (Unit {0})
  receive value s = run_next s
  receive (error e) s = returns tt (tell (error e) s)
  receive stopped s = returns tt (tell stopped s)

  -- A completion comes from a child that runs.
  abbrev pub complete_child : Child → Completion → State P B → Outcome (State P B) (Unit {0})
  complete_child nothing c s = undefined
  complete_child upstream c s = receive c s
  complete_child body_state c s = receive c s

  -- The completions of the children, in their order.
  unfoldable pub run : List Completion → State P B → Outcome (State P B) (Unit {0})
  run [] s = returns tt s
  run (c ∷ cs) s = and_then (complete_child s.running c s) λ _. run cs
