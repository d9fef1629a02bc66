-- ===== src/Iocp/Examples.antt =====
-- Tests of `net.Iocp`, and its theorems, at a context with two open sockets.
use net.Prelude.{ℕ, ◌+◌, ◌≡◌, refl, none, some, [], ◌∷◌, arith, ◌*◌, ◌==◌, if◌then◌else◌}
use net.Prelude.Int.{pos}
use net.Prelude.Outcome.{Outcome, returns, undefined}
use net.Container
use net.Container.{Container, lookup}
use net.Event.{SubmitResult}
use net.Iocp.{
  index, receiving, clear, Operation, Context, made, open_socket, release, receive_work,
  native_handle, schedule, ran,
}
use net.Iocp.Work.{System, receive, point}
use net.Iocp.Run.{run_one, done, posted}
use net.Iocp.Stale.{schedule-run_one}
use net.Iocp.Arrivals.{IsGiven}
use net.Iocp.Trips.{IsOpen, Ended, trip_lem}
use net.Iocp.Freed.{run_one-undefined}

-- Receiving is pending; the rest works at once.
abbrev sys : System
sys = record {
  socket_call = λ family. made 9;
  accept_ex = λ h s. none;
  bind_any = λ h. none;
  connect_ex = λ h. none;
  wsa_recv = λ h buffer. some 997;
  wsa_send = λ h buffer flags. none;
  associate = λ h. none;
  sockaddrs = λ h. [];
}

-- Operation n is for socket n.
abbrev operation : ℕ → Operation
operation n = record {
  id = n;
  work = none;
  extra = none;
  deadline = 2500 * n;
  iov = (4096, 16) ∷ [];
  flags = 0;
  count = 0;
  peer = [];
  socket = none;
}

abbrev empty_context : Context
empty_context = record {
  sockets = Container.empty;
  tasks = [];
  outstanding = 0;
  deferred = [];
  timeouts = [];
  blocks = λ n. none;
  next_block = 0;
  operations = operation;
  signals = [];
  closed = [];
  port_packets = 0;
}

abbrev context_of : {A : Type 0} → Outcome Context A → Context
context_of (returns a c) = c
context_of _ = empty_context

abbrev two_sockets : Context
unfolding open_socket
two_sockets =
    context_of
      (open_socket 2 (made 5) none (context_of (open_socket 2 (made 4) none empty_context)))

test1 : two_sockets.next_block ≡ 2
unfolding two_sockets Container.insert
test1 = refl

two_sockets-IsOpen : IsOpen 1 (record { handle = 5; address_family = 2; io = some 1 }) 1 two_sockets
unfolding two_sockets Container.insert Container.lookup
two_sockets-IsOpen = record {
  data_at = λ d. clear;
  record_there = refl;
  has_data = refl;
  allocated = refl;
}

trip_lem_example :
    (d : Context) × (receive sys 1 two_sockets ≡ returns SubmitResult.submit d)
    × (d.signals ≡ two_sockets.signals)
    × (d.outstanding ≡ two_sockets.outstanding + 1)
    × (e : Context) × (run_one sys 1000 0 (λ _. done 3 (point 1 receiving)) 0 d ≡ returns 1 e)
    × Ended receive_work (pos 3) 1 two_sockets e
unfolding two_sockets Container.insert
trip_lem_example =
    trip_lem receive_work sys 1000 0 0 (done 3 (point 1 receiving)) (pos 3) two_sockets-IsOpen refl
      (omega arith) refl refl (refl, refl)

-- Both sockets receive; the first is released.
abbrev one_released : Context
unfolding two_sockets
one_released =
    context_of
      (release 0 none (context_of (receive sys 1 (context_of (receive sys 0 two_sockets)))))

test2 : one_released.closed ≡ 4 ∷ []
unfolding one_released two_sockets release receive Container.insert Container.lookup Container.erase
    native_handle
test2 = refl

one_released-IsGiven : IsGiven receive_work (point 1 receiving) 1 one_released
unfolding one_released two_sockets release receive Container.insert Container.lookup Container.erase
    native_handle
one_released-IsGiven = record {
  data_at = λ d.
      if index d == index receiving
      then record clear { completion = some 1; wsabuf = (4096, 16) }
      else clear;
  allocated = refl;
  completes = refl;
  has_work = refl;
  has_extra = refl;
  open_for = tt;
}

run_one-undefined_example :
    (e : Context) × (run_one sys 1000 0 (λ _. done 3 (point 1 receiving)) 1 one_released
      ≡ returns 1 e)
    × (e.blocks 0 ≡ none)
    × (run_one sys 1000 1 (λ _. done 5 (point 0 receiving)) 1 e ≡ undefined)
unfolding one_released two_sockets release receive Container.insert Container.lookup Container.erase
    native_handle
run_one-undefined_example =
    run_one-undefined sys 1000 0 1 (done 3 (point 1 receiving)) (done 5 (point 0 receiving)) (pos 3)
      (pos 5) (point 0 receiving) one_released-IsGiven refl refl refl (omega arith) (omega arith)
      (refl, refl) (refl, refl)

abbrev one_outstanding : Context
one_outstanding = record empty_context { outstanding = 1 }

schedule-run_one_example :
    (d : Context) × (run_one sys 1000 0 (λ _. posted) 0 (schedule 6 one_outstanding) ≡ returns 1 d)
    × (d.signals ≡ ran 6 ∷ [])
    × (d.port_packets ≡ 1)
    × (e : Context) × (run_one sys 1000 0 (λ _. posted) 0 d ≡ returns 0 e)
    × (e.signals ≡ d.signals)
    × (e.port_packets ≡ 0)
    × (e.outstanding ≡ 1)
schedule-run_one_example =
    schedule-run_one sys 1000 0 (λ _. posted) 0 6 one_outstanding refl refl (omega arith)
