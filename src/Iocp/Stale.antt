-- ===== src/Iocp/Stale.antt =====
-- Returns of `run_one` of iocp_context.hpp that end the loop of a client while work is left.
use net.Prelude.{
  ℕ, zero, suc, ap, ◌+◌, ◌-◌, ◌*◌, ◌/◌, ◌%◌, ◌<◌, ◌≤◌, ◌≡◌, refl, ◌∙◌, true, false, List, [], ◌∷◌,
  arith, leb, ltb, ◌==◌, ◌&&◌, Bool-cases, inl, inr,
}
use native.Mathlib.Nat.{mod-le, mod-eq-sub-div-mul, mod-eq_of_lt}
use net.Prelude.Outcome.{Outcome, returns, waits}
use net.Iocp.{Context, ran, signal, deadline_of, schedule, process_task, process_timeout}
use net.Iocp.Work.{System}
use net.Iocp.Waits.{run_one-waits, no_timer_due, no_task_there}
use net.Iocp.Run.{Packet, posted, timed_out, timeout_ms, infinite, run_one, is_nil, take}

timer_ahead :
    (now : ℕ) (c : Context) {op : ℕ} {rest : List ℕ}
    → c.timeouts ≡ op ∷ rest
    → now < deadline_of c op
    → process_timeout now c ≡ (0, c)
unfolding process_timeout
timer_ahead now c {op} timers ahead =
    let later : leb (deadline_of c op) now ≡ false = ground arith in
    simp (timers, later, process_timeout)

schedule-task :
    (t : ℕ) (c : Context)
    → process_task (schedule t c)
      ≡ (1, signal (ran t) (record c { port_packets = c.port_packets + 1 }))
unfolding schedule process_task
schedule-task t c = refl

schedule-timers :
    (t now : ℕ) (c : Context)
    → c.timeouts ≡ []
    → process_timeout now (schedule t c) ≡ (0, schedule t c)
unfolding schedule
schedule-timers t now c e = no_timer_due now (schedule t c) e

-- The packet of a task that is gone.
take-posted :
    (sys : System) (later : ℕ) (c : Context) {n : ℕ}
    → c.tasks ≡ []
    → c.port_packets ≡ n + 1
    → take sys posted later c ≡ returns 0 (record c { port_packets = n })
unfolding process_task
take-posted sys later c {n} no_tasks queued =
    let there : c.port_packets ≡ suc n = queued ∙ omega arith in
    let after : ℕ → Outcome Context ℕ = λ n.
      returns (process_task (record c { port_packets = n })).0
        (process_task (record c { port_packets = n })).1 in
    ap (λ k. elim k [ zero ↦ waits | suc n ↦ after n ]) there
    ∙ ap (λ r. returns r.0 r.1) (no_task_there (record c { port_packets = n }) no_tasks)

-- Where no timer is set and no task is there, `schedule` puts one packet into the queue of the port,
-- and `run_one` then runs the task and leaves the packet there. The `run_one` that takes a packet
-- with no operation from the queue runs nothing and returns 0, while operations are outstanding.
pub schedule-run_one :
    (sys : System) (ticks now : ℕ) (status : ℕ → Packet) (later t : ℕ) (c : Context)
    → c.timeouts ≡ []
    → c.tasks ≡ []
    → 0 < c.outstanding
    → (d : Context) × (run_one sys ticks now status later (schedule t c) ≡ returns 1 d)
      × (d.signals ≡ ran t ∷ c.signals)
      × (d.port_packets ≡ c.port_packets + 1)
      × (e : Context) × (run_one sys ticks later (λ _. posted) later d ≡ returns 0 e)
      × (e.signals ≡ d.signals)
      × (e.port_packets ≡ c.port_packets)
      × (e.outstanding ≡ c.outstanding)
unfolding run_one
schedule-run_one sys ticks now status later t c no_timers no_tasks some_outstanding =
    let d = signal (ran t) (record c { port_packets = c.port_packets + 1 }) in
    let busy : ((d.outstanding == 0) && is_nil d.timeouts) ≡ false = ground arith in
    let idle = no_task_there d no_tasks in
    (
      d,
      rw (schedule-timers t now c no_timers, run_one) (rw (schedule-task t c) refl),
      refl,
      refl,
      record d { port_packets = c.port_packets },
      run_one-waits sys ticks later (λ _. posted) later d (no_timer_due later d no_timers) idle busy
          ∙ take-posted sys later d no_tasks refl,
      refl,
      refl,
      refl,
    )

wait-ms :
    (ticks now : ℕ) (c : Context) {op : ℕ} {rest : List ℕ}
    → c.timeouts ≡ op ∷ rest
    → now < deadline_of c op
    → (deadline_of c op - now) / ticks < infinite - 1
    → timeout_ms ticks now c ≡ (deadline_of c op - now) / ticks
unfolding timeout_ms
wait-ms ticks now c {op} timers ahead short =
    let later : leb (deadline_of c op) now ≡ false = ground arith in
    let below : ltb ((deadline_of c op - now) / ticks) (infinite - 1) ≡ true = ground arith in
    simp (timers, later, below, timeout_ms) (mod-eq_of_lt (omega arith))

-- Where the first timer is set for a time that is no whole number of milliseconds from now and less
-- than `INFINITE - 1` of them, and no task is there, a wait that ends when its milliseconds have
-- passed ends before the timer is due: `run_one` then returns 0 and the timer is left.
pub timed_out-early :
    (sys : System) (ticks now : ℕ) (c : Context) {op : ℕ} {rest : List ℕ}
    → c.timeouts ≡ op ∷ rest
    → c.tasks ≡ []
    → 0 < (deadline_of c op - now) % ticks
    → (deadline_of c op - now) / ticks < infinite - 1
    → run_one sys ticks now (λ _. timed_out) (now + timeout_ms ticks now c * ticks) c ≡ returns 0 c
timed_out-early sys ticks now c {op} {rest} timers no_tasks part short =
    let gap = deadline_of c op - now in
    let some_gap : 0 < gap = let whole : gap % ticks ≤ gap = mod-le gap ticks in omega arith in
    let ahead : now < deadline_of c op = omega arith in
    let cut : gap % ticks ≡ gap - gap / ticks * ticks = mod-eq-sub-div-mul gap ticks in
    let still : now + gap / ticks * ticks < deadline_of c op = omega arith in
    let busy : ((c.outstanding == 0) && is_nil c.timeouts) ≡ false =
      elim (Bool-cases (c.outstanding == 0)) [ inl z ↦ rw (z, timers) | inr z ↦ rw z ] in
    run_one-waits sys ticks now (λ _. timed_out) _ c (timer_ahead now c timers ahead)
      (no_task_there c no_tasks) busy
    ∙ rw (wait-ms ticks now c timers ahead short) (rw (timer_ahead _ c timers still) refl)
