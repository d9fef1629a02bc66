-- ===== src/Iocp/Waits.antt =====
-- What `run_one` of iocp_context.hpp does with what the completion port gives, where no timer is set
-- and no task is there.
use net.Prelude.{ℕ, ◌<◌, ◌≡◌, refl, ap, ◌∙◌, false, some, none, Option, [], arith, ◌==◌, ◌&&◌}
use net.Prelude.Int.{ℤ}
use net.Prelude.Outcome.{undefined}
use net.Iocp.{Context, Pointer, process_task, process_timeout}
use net.Iocp.Work.{System}
use net.Iocp.Run.{
  Packet, done, failed, posted, timed_out, wait_failed, timeout_ms, run_one, is_nil, take, int_of,
  minus_int_of, arrive,
}

module _ (sys : System) (ticks now : ℕ) (status : ℕ → Packet) (later : ℕ) (c : Context) where
  -- No timer is due, no task is there, but something is left to wait for.
  pub run_one-waits :
      process_timeout now c ≡ (0, c)
      → process_task c ≡ (0, c)
      → ((c.outstanding == 0) && is_nil c.timeouts) ≡ false
      → run_one sys ticks now status later c ≡ take sys (status (timeout_ms ticks now c)) later c
  unfolding run_one
  run_one-waits no_timer no_task busy = rw (no_timer, run_one) (rw no_task (rw busy refl))

pub no_timer_due : (now : ℕ) (c : Context) → c.timeouts ≡ [] → process_timeout now c ≡ (0, c)
unfolding process_timeout
no_timer_due now c e = simp (e, process_timeout)

pub no_task_there : (c : Context) → c.tasks ≡ [] → process_task c ≡ (0, c)
unfolding process_task
no_task_there c e = simp (e, process_task)

-- The packet of the operation at a pointer, with the result that the loop notes for it.
abbrev pub IsFor : Packet → ℤ → Pointer → Type 0
IsFor (done bytes q) res p = (q ≡ p) × (int_of bytes ≡ res)
IsFor (failed error q) res p = (q ≡ p) × (minus_int_of error ≡ some res)
IsFor _ res p = ⊥

take-arrive :
    (sys : System) (later : ℕ) (c : Context) (packet : Packet) (res : ℤ) (p : Pointer)
    → IsFor packet res p
    → take sys packet later c ≡ arrive sys res p c
take-arrive sys later c (done bytes q) res p (at, with_res) =
    ap (λ x. arrive sys x q c) with_res ∙ ap (λ x. arrive sys res x c) at
take-arrive sys later c (failed error q) res p (at, with_res) =
    ap (λ (o : Option ℤ). elim o [ none ↦ undefined | some r ↦ arrive sys r q c ]) with_res
    ∙ ap (λ x. arrive sys res x c) at
take-arrive sys later c posted res p h = absurd h
take-arrive sys later c timed_out res p h = absurd h
take-arrive sys later c wait_failed res p h = absurd h

-- `run_one` takes the packet of an operation.
pub run_one-arrive :
    (sys : System) (ticks now later : ℕ) (c : Context) (packet : Packet) (res : ℤ) (p : Pointer)
    → c.timeouts ≡ []
    → c.tasks ≡ []
    → 0 < c.outstanding
    → IsFor packet res p
    → run_one sys ticks now (λ _. packet) later c ≡ arrive sys res p c
run_one-arrive sys ticks now later c packet res p no_timers no_tasks some_outstanding at =
    let busy : ((c.outstanding == 0) && is_nil c.timeouts) ≡ false = ground arith in
    run_one-waits sys ticks now (λ _. packet) later c (no_timer_due now c no_timers)
      (no_task_there c no_tasks) busy
    ∙ take-arrive sys later c packet res p at
