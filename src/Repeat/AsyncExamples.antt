-- ===== src/Repeat/AsyncExamples.antt =====
-- `async_run` for a poll context with one task.
use net.Prelude.{◌≡◌, refl, none, List, [], ◌∷◌}
use net.Prelude.Outcome.{returns, and_then}
use net.Container
use net.Event.{EventType}
use net.Poll.{ok, Context, ran}
use net.Poll.Work.{System}
use net.Poll.Run.{Turn, run, run_one}
use net.Repeat.{value, receive, run_next, start}
use net.Repeat.AsyncRun.{drive, async_run, async_run-run}

abbrev one_task : Context
one_task = record {
  d_sockets = Container.empty;
  d_poll = [];
  d_outstanding = [];
  d_timeouts = [];
  d_tasks = 4 ∷ [];
  operations = λ n. record {
    id = Container.invalid;
    event = EventType.input;
    work = none;
    deadline = 0;
    count = 0;
    accepted = none;
  };
  signals = [];
}

abbrev quiet : System
quiet = record {
  accept_call = λ _. [];
  recvmsg = λ _. [];
  sendmsg = λ _. [];
  fcntl = λ _. ok 0;
  connect_call = λ _. ok 0;
  getsockopt = λ _. ok 0;
  so_error = λ _. none;
}

abbrev two_turns : List Turn
two_turns =
    record { sys = quiet; now = 0; rounds = [] } ∷ record { sys = quiet; now = 1; rounds = [] } ∷ []

test_async_run :
    async_run 1 two_turns one_task
    ≡ returns (value ∷ []) (record one_task { d_tasks = []; signals = ran 4 ∷ [] })
unfolding async_run receive run_next start drive run_one
test_async_run = refl

async_run-run_example :
    async_run 1 two_turns one_task
    ≡ and_then (run 1 two_turns 0 one_task) (λ _. returns (value ∷ []))
async_run-run_example = async_run-run 1 two_turns one_task
