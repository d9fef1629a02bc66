-- ===== src/Poll/Examples.antt =====
-- Tests of `net.Poll` and its children, and their theorems at small contexts.
use net.Prelude.{
  ℕ, ◌+◌, ◌*◌, ◌≡◌, refl, ◌⊎◌, none, some, List, [], ◌∷◌, true, arith, length, total, ◌==◌,
  if◌then◌else◌,
}
use net.Prelude.Outcome.{returns, terminated}
use net.Container.{Slot, Container, lookup}
use net.Event.{EventType, PollBits, no_bits, is_ready}
use net.Poll.{
  Context, Errno, eintr, eagain, Operation, PollFd, PollRecord, ok, failed, receive_work, completed,
  remove_outstanding, cancel, process_timeout,
}
use net.Poll.Work.{System}
use net.Poll.Run.{scan, Round, Turn, polled, refused, run_one, run}
use net.Poll.Removal.{entries, remove_outstanding_lem}
use net.Poll.Ledger.{unit, pending, told}
use net.Poll.Told.{Ensures, Prompt}
use net.Poll.Conservation.{Keeps}
use net.Poll.RunOne.{run_one-Keeps}
use net.Poll.Calls.{IsTimely, Cancels, cancel_lem}
use net.Poll.Start.{IsOpen}
use net.Poll.Lost.{run_one-eagain}
use net.Poll.Timing.{Fires, process_timeout_lem}
use net.Poll.Idle.{IsIdle, WorksOrIdle, run_lem}
use net.Poll.Progress.{Counts, run_one-Counts}

-- Operation `n` receives on the socket with id 0 and handle 5; as a timer it is set for `10 * n`.
abbrev receives : ℕ → Operation
receives n = record {
  id = 0;
  event = EventType.input;
  work = some receive_work;
  deadline = 10 * n;
  count = 0;
  accepted = none;
}

abbrev entry : PollFd
entry = record { fd = 5; events = record no_bits { pollin = true }; revents = no_bits }

abbrev sockets : Container PollRecord
sockets = record { records = Slot.used (record { handle = 5; blocking = true }) ∷ []; free = 1 }

abbrev nothing : Context
nothing = record {
  d_sockets = sockets;
  d_poll = [];
  d_outstanding = [];
  d_timeouts = [];
  d_tasks = [];
  operations = receives;
  signals = [];
}

-- Operations 7 and 8 wait for the socket, 3 and 4 for their time.
abbrev loaded : Context
loaded = record nothing {
  d_poll = entry ∷ entry ∷ [];
  d_outstanding = 7 ∷ 8 ∷ [];
  d_timeouts = 3 ∷ 4 ∷ [];
}

-- Every call on a socket succeeds with 12.
abbrev willing : System
willing = record {
  accept_call = λ _. ok 12 ∷ [];
  recvmsg = λ _. failed eintr ∷ ok 12 ∷ [];
  sendmsg = λ _. ok 12 ∷ [];
  fcntl = λ _. ok 0;
  connect_call = λ _. failed Errno.einprogress;
  getsockopt = λ _. ok 0;
  so_error = λ _. none;
}

willing-Prompt : Prompt willing
willing-Prompt = record { accepts = λ _. tt; receives = λ _. tt; sends = λ _. tt }

-- The first socket becomes readable after an interruption.
abbrev rounds : List Round
rounds =
    record { poll_call = λ _ _. refused eintr; later = 1 }
    ∷ record { poll_call = λ _ _. polled (record no_bits { pollin = true } ∷ []); later = 2 }
    ∷ []

abbrev received : Context
received = record loaded {
  d_poll = entry ∷ [];
  d_outstanding = 8 ∷ [];
  operations = λ n. if n == 7 then record (receives n) { count = 12 } else receives n;
  signals = completed 7 ∷ [];
}

run_one_receives : run_one willing 1 0 rounds loaded ≡ returns 1 received
unfolding run_one is_ready lookup
run_one_receives = refl

remove_outstanding_lem_example :
    ((f : PollFd × ℕ → ℕ)
      → total f (entries loaded.d_poll loaded.d_outstanding)
        ≡ f (entry, 7)
          + total f (
              entries
                (remove_outstanding 0 loaded).d_poll
                (remove_outstanding 0 loaded).d_outstanding))
    × (length (remove_outstanding 0 loaded).d_poll
        ≡ length (remove_outstanding 0 loaded).d_outstanding)
remove_outstanding_lem_example = remove_outstanding_lem 0 loaded refl refl refl

run_one-Keeps_example : Ensures (λ _ d. Keeps loaded d) (run_one willing 1 0 rounds loaded)
run_one-Keeps_example = run_one-Keeps willing 1 0 willing-Prompt rounds loaded refl

loaded-IsTimely : IsTimely loaded
loaded-IsTimely = ((refl, tt), (tt, tt))

cancel_lem_example :
    ((pending loaded 8 ≡ 0) × (cancel 20 8 loaded ≡ terminated))
    ⊎ ((d : Context) × (cancel 20 8 loaded ≡ returns tt d) × Cancels 20 8 loaded d)
cancel_lem_example = cancel_lem 20 8 loaded refl

cancel_terminates : cancel 20 9 loaded ≡ terminated
unfolding cancel
cancel_terminates = refl

open_socket : (op : ℕ) → IsOpen loaded op 5
unfolding lookup
open_socket op = record { record_there = refl }

-- The peer has closed the connection.
abbrev closed : Context
closed = record loaded { d_timeouts = [] }

abbrev hang_ups : List Round
hang_ups =
    record {
      poll_call = λ _ _. polled (record no_bits { pollhup = true } ∷ no_bits ∷ []);
      later = 1;
    }
    ∷ []

abbrev hesitant : System
hesitant = record willing { recvmsg = λ _. failed eagain ∷ [] }

-- The second socket becomes readable.
abbrev second_ready : List PollBits
second_ready = no_bits ∷ record no_bits { pollin = true } ∷ []

abbrev answer : Round
answer = record { poll_call = λ _ _. polled second_ready; later = 1 }

run_one-eagain_example :
    (d : Context) × (run_one hesitant 1 0 (answer ∷ []) loaded ≡ returns 1 d)
    × ((a : ℕ) → pending loaded a ≡ unit a 8 + pending d a)
    × ((a : ℕ) → told d a ≡ told loaded a)
unfolding is_ready process_timeout scan
run_one-eagain_example =
    run_one-eagain hesitant 1 0 answer [] second_ready 1 8 5 receive_work loaded refl refl refl refl
      refl refl refl (open_socket 8) ([], refl)

process_timeout_lem_example : Fires 35 loaded (process_timeout 35 loaded)
process_timeout_lem_example = process_timeout_lem 35 loaded loaded-IsTimely

run_one-Counts_example :
    Ensures (λ n d. Counts loaded n d × WorksOrIdle n d) (run_one willing 1 0 rounds loaded)
run_one-Counts_example =
    run_one-Counts willing willing-Prompt 1 0 rounds loaded
      (λ _ _ e said. ground arith, (λ _ _ e said. cc, tt))

abbrev waiting : Context
waiting = record nothing { d_poll = entry ∷ []; d_outstanding = 7 ∷ [] }

abbrev turn : Turn
turn = record { sys = willing; now = 0; rounds = rounds }

run_counts_one : (d : Context) × (run 1 (turn ∷ turn ∷ []) 0 waiting ≡ returns 1 d)
unfolding run is_ready lookup
run_counts_one = (_, refl)

run_lem_example : Ensures (λ _ d. IsIdle d) (run 1 (turn ∷ turn ∷ []) 0 waiting)
run_lem_example = run_lem 1 (turn ∷ turn ∷ []) 0 waiting (
  (λ _ _ e said. ground arith, (λ _ _ e said. cc, tt)),
  ((λ _ _ e said. ground arith, (λ _ _ e said. cc, tt)), tt),
)
