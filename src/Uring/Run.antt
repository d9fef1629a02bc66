-- ===== src/Uring/Run.antt =====
-- The loop of uring_context.hpp.
use net.Prelude.{ℕ, zero, suc, ◌==◌, if◌then◌else◌}
use net.Prelude.Int.{ℤ}
use net.Uring.{
  Call, returns, and_then, no_except, Ring, Context, update, process_task, flushed, wait,
}
use net.Uring.Work.{work, set_extra}

module _ {R : Type 0} where
  -- What is done with a completion.
  unfoldable pub dispatch : ℤ × ℕ → Context R → Call (Context R) ℕ
  dispatch (res, op) c = and_then (work op (update (set_extra res) op c)) λ _ d. returns 1 d

module _ {R : Type 0} (ring : Ring R) where
  -- `if (submitting) { ... }`.
  unfoldable pub flush : Context R → Call (Context R) (Unit {0})
  flush c =
      if c.submitting == 0
      then returns tt c
      else flushed ring (ring.submit_and_wait 1 c.ring).0 (ring.submit_and_wait 1 c.ring).1 c

  -- `run_one` once no task is there, and before its `noexcept` is looked at.
  unfoldable pub turn : Context R → Call (Context R) ℕ
  turn c =
      and_then (flush c)
        λ _ d. if d.outstanding == 0 then returns 0 d else and_then (wait ring d) dispatch

  unfoldable pub run_one : Context R → Call (Context R) ℕ
  run_one c = elim (process_task c).0 [
    | suc n ↦ returns (suc n) (process_task c).1
    | zero ↦ no_except (turn (process_task c).1)
  ]
