-- ===== src/Sender/Examples.antt =====
-- Tests of `net.Sender` and its children, and their theorems at a small context.
use net.Prelude.{ℕ, ◌≡◌, refl, none, some, List, [], ◌∷◌, true, false, arith, if◌then◌else◌, ◌==◌}
use net.Prelude.Int.{pos}
use net.Prelude.Outcome.{returns}
use net.Container.{Slot, lookup}
use net.Event.{EventType, no_bits, is_ready}
use net.Poll
use net.Poll.{Context, eintr, Operation, ok, failed, receive_work}
use net.Poll.Work.{System}
use net.Poll.Run.{Round, polled, refused, run_one}
use net.Poll.Told.{Prompt}
use net.Poll.Start
use net.Sender.{value, stopped, complete}
use net.Sender.Steps.{Client, History, none_yet, then_step, runs, stops, request_stop, start}
use net.Sender.Phase.{IsWaiting, IsEnded, Settles}
use net.Sender.Stop.{IsFresh, request_stop_lem}
use net.Sender.Start.{start-IsWaiting}
use net.Sender.Once.{History-Settles}

-- Operation 7 receives on the socket with id 0 and handle 5; its stop callback is number 20.
abbrev receives : ℕ → Operation
receives n = record {
  id = 0;
  event = EventType.input;
  work = some receive_work;
  deadline = 0;
  count = 0;
  accepted = none;
}

abbrev nothing : Context
nothing = record {
  d_sockets = record {
    records = Slot.used (record { handle = 5; blocking = true }) ∷ [];
    free = 1;
  };
  d_poll = [];
  d_outstanding = [];
  d_timeouts = [];
  d_tasks = [];
  operations = receives;
  signals = [];
}

abbrev willing : System
willing = record {
  accept_call = λ _. ok 12 ∷ [];
  recvmsg = λ _. ok 12 ∷ [];
  sendmsg = λ _. ok 12 ∷ [];
  fcntl = λ _. ok 0;
  connect_call = λ _. ok 0;
  getsockopt = λ _. ok 0;
  so_error = λ _. none;
}

-- The system that answers the sender of these tests.
abbrev Answers : System → Type 0
Answers sys = sys ≡ willing

willing-Prompt : (sys : System) → Answers sys → Prompt sys
willing-Prompt sys e = record {
  accepts = λ h. rw e tt;
  receives = λ h. rw e tt;
  sends = λ h. rw e tt;
}

abbrev fresh : Client
fresh = record {
  context = nothing;
  state = record { d_outstanding = pos 0; d_callback = false; received = [] };
  stop_requested = false;
}

abbrev waiting : Client
waiting = record fresh {
  context = record nothing {
    d_poll = record { fd = 5; events = record no_bits { pollin = true }; revents = no_bits } ∷ [];
    d_outstanding = 7 ∷ [];
  };
  state = record { d_outstanding = pos 1; d_callback = true; received = [] };
}

fresh-IsFresh : IsFresh 7 20 fresh
fresh-IsFresh = record { aligned = refl; unused = refl; silent = refl; absent = refl; apart = refl }

waiting-IsWaiting : IsWaiting 7 20 waiting
waiting-IsWaiting = record {
  aligned = refl;
  running = record { one_user = refl; silent = refl };
  engaged = refl;
  unasked = refl;
  queued = refl;
  apart = refl;
}

abbrev rounds : List Round
rounds =
    record { poll_call = λ _ _. refused eintr; later = 1 }
    ∷ record { poll_call = λ _ _. polled (record no_bits { pollin = true } ∷ []); later = 2 }
    ∷ []

-- The data has arrived, and the receiver was told.
abbrev arrived : Client
arrived = record waiting {
  context = record nothing {
    operations = λ n. if n == 7 then record (receives n) { count = 12 } else receives n;
    signals = Poll.completed 7 ∷ [];
  };
  state = record { d_outstanding = pos 0; d_callback = false; received = value ∷ [] };
}

abbrev asked : Client
asked = record arrived { stop_requested = true }

history : History 7 20 Answers waiting asked
unfolding run_one is_ready lookup request_stop complete
history =
    then_step waiting arrived asked
      (then_step waiting waiting arrived (none_yet waiting)
        (runs willing 1 0 rounds 1 waiting arrived refl refl))
      (stops arrived asked refl)

History-Settles_example : Settles 7 20 asked
History-Settles_example =
    History-Settles 7 20 Answers waiting asked (λ e. absurd (omega arith)) willing-Prompt
      waiting-IsWaiting history

request_stop_lem_example :
    (l : Client) × (request_stop 7 20 waiting ≡ returns tt l)
    × (l.state.received ≡ stopped ∷ [])
    × IsEnded 7 20 l
request_stop_lem_example =
    request_stop_lem 7 20 waiting (λ e. absurd (omega arith)) waiting-IsWaiting

start-IsWaiting_example :
    (l : Client) × (start 7 20 (Poll.Start.start receive_work willing 7) fresh ≡ returns tt l)
    × IsWaiting 7 20 l
unfolding lookup
start-IsWaiting_example =
    start-IsWaiting 7 20 5 receive_work willing fresh (λ e. absurd (omega arith)) (λ e. cc)
      fresh-IsFresh refl (record { record_there = refl })
