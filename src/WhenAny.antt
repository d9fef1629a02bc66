-- ===== src/WhenAny.antt =====
-- examples/demo_algorithm.hpp: `when_any`, which starts several senders and passes on what the
-- first of them completes with, once all of them are done. `State` is the state that the receivers
-- of the children share. A child is a thread of its own: `act` is its next atomic step, and a
-- schedule says which child acts next, and what it completes with if it was still running. That a
-- stop request ends other children from within, on the same thread, is one of these orders.
pub mod Invariant
pub mod Finish
mod Examples
use net.Prelude.{
  ℕ, zero, suc, ◌+◌, ◌%◌, ◌^◌, Bool, true, false, Option, none, some, List, [], ◌∷◌, ◌==◌,
  if◌then◌else◌, get_elem?, set,
}

-- What a sender completes with.
pub data Completion (V E : Type 0) : Type 0 where
  value : V → Completion V E
  error : E → Completion V E
  stopped : Completion V E

-- `state_base` and `state_value`, with the stop source and what the receiver was told.
pub record State (V E : Type 0) : Type 0 where
  pub total_count : ℕ
  pub done_count : ℕ
  pub ready_count : ℕ
  pub error_kept : Option E
  pub value_kept : Option V
  pub stop_requested : Bool
  pub told : List (Completion V E)

-- Where a child is: it has not completed; it was the first and is about to request the stop; it is
-- about to store its result; it is about to say that it is ready; it is through.
pub data Phase (V E : Type 0) : Type 0 where
  running : Phase V E
  winning : Completion V E → Phase V E
  storing : Completion V E → Phase V E
  leaving : Phase V E
  through : Phase V E

pub record System (V E : Type 0) : Type 0 where
  pub state : State V E
  pub children : List (Phase V E)

abbrev pub next_count : ℕ → ℕ
next_count n = (n + 1) % 2 ^ 64

module _ {V E : Type 0} where
  -- `notify_done`.
  unfoldable pub notify_done : State V E → State V E
  notify_done s =
      let tell = λ (c : Completion V E). record s { told = c ∷ s.told } in
      elim s.error_kept [
        | some e ↦ tell (error e)
        | none ↦ elim s.value_kept [ some v ↦ tell (value v) | none ↦ tell stopped ]
      ]

  -- `ready`.
  unfoldable pub ready : State V E → State V E
  ready s =
      let counted = record s { ready_count = next_count s.ready_count } in
      if counted.ready_count == s.total_count then notify_done counted else counted

  -- `error.emplace`, `value.emplace`; a child that was stopped stores nothing.
  unfoldable pub keep : Completion V E → State V E → State V E
  keep (value v) s = record s { value_kept = some v }
  keep (error e) s = record s { error_kept = some e }
  keep stopped s = s

  -- The next step of `set_value`, `set_error` or `set_stopped`; the first is `complete`.
  unfoldable pub act : Completion V E → Phase V E → State V E → Phase V E × State V E
  act c running s = (
    (if s.done_count == 0 then winning c else leaving),
    record s { done_count = next_count s.done_count },
  )
  act c (winning d) s = (storing d, record s { stop_requested = true })
  act c (storing d) s = (leaving, keep d s)
  act c leaving s = (through, ready s)
  act c through s = (through, s)

  abbrev pub replicate : ℕ → List (Phase V E)
  replicate zero = []
  replicate (suc n) = running ∷ replicate n

  -- The constructor of `state`, after `start` has started every child.
  abbrev pub begin : ℕ → System V E
  begin n = record {
    state = record {
      total_count = n;
      done_count = 0;
      ready_count = 0;
      error_kept = none;
      value_kept = none;
      stop_requested = false;
      told = [];
    };
    children = replicate n;
  }

  unfoldable pub step : ℕ × Completion V E → System V E → System V E
  unfolding act
  step (i, c) sys = elim (get_elem? sys.children i) [
    | none ↦ sys
    | some p ↦
        let (q, s) = act c p sys.state in record { state = s; children = set sys.children i q }
  ]

  unfoldable pub run : List (ℕ × Completion V E) → System V E → System V E
  unfolding step
  run [] sys = sys
  run (t ∷ ts) sys = run ts (step t sys)
