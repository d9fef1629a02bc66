-- ===== src/Scheduler/Order.antt =====
-- What `run` of `net.Poll.Run` does with operations of the sender of `schedule`.
use net.Prelude.{ℕ, suc, ◌+◌, ◌≡◌, refl, ap, ◌∙◌, List, [], ◌∷◌, arith, ◌==◌, if◌then◌else◌, length}
use net.Prelude.Outcome.{returns}
use net.Poll.{Context, Signal, ran, schedule, process_task, process_timeout}
use net.Poll.Run.{Turn, run_one, run}
use net.Poll.Idle.{IsIdle}
use net.Scheduler.{start, values_told}

-- Operations, the one that is started last in front.
abbrev pub start_all : List ℕ → Context → Context
start_all [] c = c
start_all (op ∷ ops) c = start op (start_all ops c)

-- The log after operations have completed, in the order of the list.
abbrev pub completed_after : List ℕ → List Signal → List Signal
completed_after [] log = log
completed_after (op ∷ ops) log = completed_after ops (ran op ∷ log)

abbrev pub occurrences : ℕ → List ℕ → ℕ
occurrences op [] = 0
occurrences op (o ∷ ops) = (if o == op then 1 else 0) + occurrences op ops

start_all-tasks :
    (ops : List ℕ) (c : Context) → c.d_tasks ≡ [] → start_all ops c ≡ record c { d_tasks = ops }
unfolding start schedule
start_all-tasks [] c none_there = ap (λ l. record c { d_tasks = l }) none_there
start_all-tasks (op ∷ ops) c none_there = ap (schedule op) (start_all-tasks ops c none_there)

-- A context that only has tasks.
abbrev only : List ℕ → List Signal → Context → Context
only ops log c = record c { d_poll = []; d_timeouts = []; d_tasks = ops; signals = log }

idle-only : (c : Context) → IsIdle c → c ≡ only [] c.signals c
idle-only c idle =
    ap (λ l. record c { d_poll = l }) idle.no_poll
    ∙ ap (λ l. record c { d_poll = []; d_timeouts = l }) idle.no_timeouts
    ∙ ap (λ l. record c { d_poll = []; d_timeouts = []; d_tasks = l }) idle.no_tasks

run-only :
    (ticks : ℕ) (turns : List Turn) (ops : List ℕ) (log : List Signal) (n : ℕ) (c : Context)
    → length turns ≡ suc (length ops)
    → run ticks turns n (only ops log c)
      ≡ returns (n + length ops) (only [] (completed_after ops log) c)
unfolding run run_one process_timeout process_task
run-only ticks [] ops log n c enough = absurd (omega arith)
run-only ticks (t ∷ turns) [] log n c enough = ap (λ k. returns k (only [] log c)) (omega arith)
run-only ticks (t ∷ turns) (op ∷ ops) log n c enough =
    run-only ticks turns ops (ran op ∷ log) (n + 1) c (omega arith)
    ∙ ap (λ k. returns k (only [] (completed_after (op ∷ ops) log) c)) (omega arith)

start_all-only : (ops : List ℕ) (c : Context) → IsIdle c → start_all ops c ≡ only ops c.signals c
start_all-only ops c idle =
    start_all-tasks ops c idle.no_tasks
    ∙ ap {A = Context} (λ d. record d { d_tasks = ops }) (idle-only c idle)

values_told-after :
    (op : ℕ) (ops : List ℕ) (log : List Signal)
    → values_told op (completed_after ops log) ≡ occurrences op ops + values_told op log
values_told-after op [] log = omega arith
values_told-after op (o ∷ ops) log = omega (arith, values_told-after op ops (ran o ∷ log))

-- Where operations of the sender of `schedule` are started on a context for which nothing waits,
-- `run` returns their number as soon as it was called on for one round more than there are of them:
-- they complete one after the other, the one that was started last first, the receiver of each is
-- told a value as often as it was started, and nothing waits.
pub run-start_all :
    (ticks : ℕ) (turns : List Turn) (ops : List ℕ) (c : Context)
    → IsIdle c
    → length turns ≡ suc (length ops)
    → (d : Context) × (run ticks turns 0 (start_all ops c) ≡ returns (length ops) d)
      × (d.signals ≡ completed_after ops c.signals)
      × ((op : ℕ) → values_told op d.signals ≡ occurrences op ops + values_told op c.signals)
      × IsIdle d
run-start_all ticks turns ops c idle enough =
    let d = only [] (completed_after ops c.signals) c in
    (
      d,
      ap (λ e. run ticks turns 0 e) (start_all-only ops c idle)
          ∙ run-only ticks turns ops c.signals 0 c enough
          ∙ ap (λ k. returns k d) (omega arith),
      refl,
      λ op. values_told-after op ops c.signals,
      record { no_poll = refl; no_timeouts = refl; no_tasks = refl },
    )
