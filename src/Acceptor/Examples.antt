-- ===== src/Acceptor/Examples.antt =====
-- The theorems of `net.Acceptor` for poll_context.hpp with an empty table, where bind(2) works and
-- where it does not.
use net.Prelude.{ℕ, ◌≡◌, ◌⊎◌, refl, none, some, true, List, [], ◌∷◌, arith}
use net.Prelude.Outcome.{returns}
use net.Container
use net.Container.{Slot}
use net.Container.Invariant.{empty-IsValid}
use net.Event.{EventType}
use net.Poll.{Rc, Errno, ok, failed, eintr, Context, PollRecord, open_socket, make_socket}
use net.Acceptor.{
  Calls, ErrorCode, already_open, normally, throws, move_from, open_with, destroy, construct,
}
use net.Acceptor.Laws.{Laws}
use net.Acceptor.Lifetime.{owner, construct-destroy, open_with-already}
use net.Acceptor.PollContext.{poll_calls, IsReady, HasRoom, poll_calls-Laws}

abbrev no_sockets : Context
no_sockets = record {
  d_sockets = Container.empty;
  d_poll = [];
  d_outstanding = [];
  d_timeouts = [];
  d_tasks = [];
  operations = λ n. record {
    id = Container.invalid;
    event = EventType.input;
    work = none;
    deadline = 0;
    count = 0;
    accepted = none;
  };
  signals = [];
}

abbrev closed_well : Rc
closed_well = ok 0

abbrev sockets_of : ℕ → Rc
sockets_of family = ok 5

abbrev options_set : ℕ → ℕ → ℕ → ℕ → Rc
options_set fd level name value = ok 0

abbrev bind_fails : ℕ → List ℕ → Rc
bind_fails fd endpoint = failed eintr

abbrev listens_well : ℕ → ℕ → Rc
listens_well fd backlog = ok 0

abbrev calls : Calls Context PollRecord Errno
calls = poll_calls sockets_of closed_well options_set bind_fails listens_well

lawful : Laws calls IsReady HasRoom
lawful = poll_calls-Laws sockets_of closed_well options_set bind_fails listens_well

poll_calls-Laws_example : Laws calls IsReady HasRoom
poll_calls-Laws_example = poll_calls-Laws sockets_of closed_well options_set bind_fails listens_well

abbrev one_socket : Context
one_socket = record no_sockets {
  d_sockets = record {
    records = Slot.used (record { handle = 5; blocking = true }) ∷ [];
    free = 1;
  };
}

construct-destroy_example :
    ((construct calls 2 (127 ∷ []) true no_sockets ≡ returns (normally (owner 2 0)) one_socket)
      × ((e : Context) × (destroy calls (move_from (owner 2 0)).0 one_socket ≡ returns tt e)
          × (destroy calls (move_from (owner 2 0)).1 one_socket ≡ returns tt one_socket)
          × (destroy calls (move_from (owner 2 0)).1 e ≡ returns tt e)
          × ((j : ℕ) → calls.at j e ≡ calls.at j no_sockets)))
    ⊎ ((x : ErrorCode Errno) × (r : PollRecord) × (construct calls 2 (127 ∷ []) true no_sockets
          ≡ returns (throws x) one_socket)
        × (calls.at 0 no_sockets ≡ none)
        × (calls.at 0 one_socket ≡ some r))
unfolding open_socket make_socket Container.insert
construct-destroy_example =
    construct-destroy calls lawful 2 (127 ∷ []) true no_sockets one_socket empty-IsValid
      (omega arith) refl

abbrev two_sockets : Context
two_sockets = record no_sockets {
  d_sockets = record {
    records =
        Slot.used (record { handle = 5; blocking = true })
        ∷ Slot.used (record { handle = 5; blocking = true })
        ∷ [];
    free = 2;
  };
}

one_socket-IsReady : IsReady one_socket
unfolding open_socket make_socket Container.insert
one_socket-IsReady = (lawful.makes 2 no_sockets one_socket empty-IsValid (omega arith) refl).0

open_with-already_example :
    (open_with calls 2 (owner 2 0) one_socket
      ≡ returns (record (owner 2 0) { d_id = 1 }, some already_open) two_sockets)
    × ((e : Context) × (destroy calls (record (owner 2 0) { d_id = 1 }) two_sockets ≡ returns tt e)
        × (calls.at 1 e ≡ none)
        × (calls.at 0 e ≡ some (record { handle = 5; blocking = true })))
unfolding open_socket make_socket Container.insert Container.lookup
open_with-already_example =
    open_with-already calls lawful 2 (owner 2 0) one_socket two_sockets one_socket-IsReady
      (omega arith) (λ e. ground arith) refl refl
