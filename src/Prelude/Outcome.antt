-- ===== src/Prelude/Outcome.antt =====
-- How a call of the source ends, as a value, and the sequencing of calls over a state.

pub data Outcome (S A : Type 0) : Type 0 where
  returns : A → S → Outcome S A
  -- the call waits for an answer of the operating system that is not there yet
  waits : Outcome S A
  -- the source has undefined behaviour, fails an `assert` or throws
  undefined : Outcome S A
  -- the source calls `std::terminate`
  terminated : Outcome S A

abbrev pub and_then : {S A B : Type 0} → Outcome S A → (A → S → Outcome S B) → Outcome S B
and_then (returns a s) k = k a s
and_then waits k = waits
and_then undefined k = undefined
and_then terminated k = terminated
