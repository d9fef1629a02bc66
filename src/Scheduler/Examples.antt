-- ===== src/Scheduler/Examples.antt =====
-- The theorem of `net.Scheduler` for three operations, one of which is started twice.
use net.Prelude.{ℕ, ◌≡◌, ◌+◌, refl, none, List, [], ◌∷◌}
use net.Prelude.Outcome.{returns}
use net.Event.{EventType}
use net.Poll.{Context, Operation, ok}
use net.Poll.Work.{System}
use net.Poll.Run.{Turn, run}
use net.Poll.Idle.{IsIdle}
use net.Scheduler.{values_told}
use net.Scheduler.Order.{start_all, completed_after, occurrences, run-start_all}

abbrev blank : ℕ → Operation
blank n = record {
  id = 0;
  event = EventType.input;
  work = none;
  deadline = 0;
  count = 0;
  accepted = none;
}

abbrev nothing : Context
nothing = record {
  d_sockets = record { records = []; free = 0 };
  d_poll = [];
  d_outstanding = [];
  d_timeouts = [];
  d_tasks = [];
  operations = blank;
  signals = [];
}

abbrev silent : System
silent = record {
  accept_call = λ _. [];
  recvmsg = λ _. [];
  sendmsg = λ _. [];
  fcntl = λ _. ok 0;
  connect_call = λ _. ok 0;
  getsockopt = λ _. ok 0;
  so_error = λ _. none;
}

abbrev turn : Turn
turn = record { sys = silent; now = 0; rounds = [] }

abbrev started : List ℕ
started = 6 ∷ 5 ∷ 6 ∷ []

run-start_all_example :
    (d : Context) × (run 1000 (turn ∷ turn ∷ turn ∷ turn ∷ []) 0 (start_all started nothing)
      ≡ returns 3 d)
    × (d.signals ≡ completed_after started [])
    × ((op : ℕ) → values_told op d.signals ≡ occurrences op started + values_told op [])
    × IsIdle d
run-start_all_example =
    run-start_all 1000 (turn ∷ turn ∷ turn ∷ turn ∷ []) started nothing
      (record { no_poll = refl; no_timeouts = refl; no_tasks = refl }) refl
