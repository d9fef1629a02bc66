-- ===== src/Uring/Examples.antt =====
-- A ring that meets the laws of `net.Uring.Laws`, with two entries in its submission queue, tests
-- of `net.Uring` on it, and the theorems at small contexts.
use net.Prelude.{
  ℕ, ◌+◌, ◌≡◌, refl, inl, inr, none, some, List, [], ◌∷◌, ◌++◌, arith, ltb, length, total,
  total-append, if◌then◌else◌, ◌==◌, Bool-cases,
}
use net.Prelude.Int.{ℤ, pos, negsuc}
use net.Container
use net.Container.{Container}
use net.Uring.{
  returns, prep_cancel, Answer, accepted, refused, Completion, got, not_got, Ring, receive_work,
  cancel_work, Operation, completed, Context, process_task, wait,
}
use net.Uring.Work.{work, cancel}
use net.Uring.Run.{run_one, turn, flush, dispatch}
use net.Uring.Laws.{Stages, Moves, IsLawful, MakesRoom}
use net.Uring.Counts.{Ensures, IsCounted}
use net.Uring.Ends.{TakesSocket}
use net.Uring.Once.{Rounds, run_one-Rounds}
use net.Uring.Fuel.{Finishes}
use net.Uring.Starts.{Takes, Asks, start, request_of, Started, start-Started, cancel-Takes}

record Toy : Type 0 where
  waiting : List ℕ
  given : List ℕ
  results : List ℤ

abbrev first_result : List ℤ → ℤ
first_result [] = pos 0
first_result (r ∷ rs) = r

abbrev drop_one : {A : Type 0} → List A → List A
drop_one [] = []
drop_one (x ∷ xs) = xs

abbrev pass_on : Toy → Answer × Toy
pass_on r = (accepted (length r.waiting), record r { waiting = []; given = r.given ++ r.waiting })

-- EINTR where the kernel has nothing.
abbrev next_completion : List ℕ → List ℤ → Completion
next_completion [] rs = not_got 4
next_completion (op ∷ ops) rs = got (first_result rs) op

abbrev toy : Ring Toy
toy = record {
  get_sqe = λ r. if ltb (length r.waiting) 2 then some r else none;
  set_data = λ op r. record r { waiting = r.waiting ++ op ∷ [] };
  prep = λ q r. r;
  submit = pass_on;
  submit_and_wait = λ least. pass_on;
  wait_cqe = λ r. (next_completion r.given r.results, r);
  cqe_seen = λ r. record r { given = drop_one r.given; results = drop_one r.results };
}

abbrev stages : Stages Toy
stages = record { queued = λ r. r.waiting; inflight = λ r. r.given }

state_of : (r s : Toy) → toy.get_sqe r ≡ some s → r ≡ s
state_of r s e = elim (Bool-cases (ltb (length r.waiting) 2)) [
  | inl room ↦ ground arith
  | inr full ↦ ground arith
]

passed_on : (r s : Toy) (n : ℕ) → pass_on r ≡ (accepted n, s) → Moves toy stages n r s
passed_on r s n e = record {
  moved = ground arith;
  conserved = λ f. ground (arith, total-append f r.given r.waiting);
}

waited_for :
    (xs : List ℕ) (r s : Toy) (res : ℤ) (op : ℕ)
    → xs ≡ r.given
    → toy.wait_cqe r ≡ (got res op, s)
    → (f : ℕ → ℕ) → total f r.given ≡ f op + total f (toy.cqe_seen s).given
waited_for [] r s res op same e f = ground arith
waited_for (x ∷ xs) r s res op same e f = ground arith

toy-IsLawful : IsLawful toy stages
toy-IsLawful = record {
  get_queued = λ r s op e f. ground (arith, state_of r s e, total-append f s.waiting (op ∷ []));
  get_inflight = λ r s op e. ground (arith, state_of r s e);
  prep_queued = λ q r. refl;
  prep_inflight = λ q r. refl;
  submit_moves = passed_on;
  submit_and_wait_moves = λ r s least. passed_on r s;
  wait_queued = λ r s res op e. ground arith;
  wait_inflight = λ r s res op e f. waited_for r.given r s res op refl e f;
}

toy-MakesRoom : MakesRoom toy
toy-MakesRoom = record { room = λ r s n full e. ground arith }

-- Operation `n` receives on the socket with id 0 and handle 5; its time is a second and a half.
abbrev receives : ℕ → Operation
receives n = record {
  id = 0;
  work = some receive_work;
  extra = none;
  flags = 3;
  at = pos 1500000000;
  count = 0;
  socket = none;
}

abbrev start_state : Toy
start_state = record { waiting = []; given = []; results = pos 12 ∷ negsuc 124 ∷ [] }

abbrev nothing : Context Toy
nothing = record {
  ring = start_state;
  sockets = record { records = Container.Slot.used 5 ∷ []; free = 1 };
  tasks = [];
  submitting = 0;
  outstanding = 0;
  operations = receives;
  signals = [];
}

-- Operation 7 waits to be submitted, and 8 and 9 are with the kernel.
abbrev busy : Context Toy
busy = record nothing {
  ring = record start_state { waiting = 7 ∷ []; given = 8 ∷ 9 ∷ [] };
  submitting = 1;
  outstanding = 3;
}

busy-IsCounted : IsCounted stages busy
busy-IsCounted = record { submitting_counts = refl; outstanding_counts = refl }

busy-TakesSocket : TakesSocket busy
unfolding Container.insert
busy-TakesSocket fd = λ e. cc

abbrev answered : ℕ → Operation
answered n = if n == 8 then record (receives n) { extra = some (pos 12) } else receives n

-- The first result is that of operation 8, the second says that 9 was cancelled.
abbrev received : Context Toy
received = record busy {
  ring = record start_state { given = 9 ∷ 7 ∷ []; results = negsuc 124 ∷ [] };
  submitting = 0;
  outstanding = 2;
  operations = λ n. if n == 8 then record (answered n) { count = 12 } else answered n;
  signals = completed 8 ∷ [];
}

run_one_receives : run_one toy busy ≡ returns 1 received
unfolding run_one process_task turn flush dispatch wait work
run_one_receives = refl

run_one-Rounds_example : Ensures (λ n d. Rounds stages busy n d) (run_one toy busy)
run_one-Rounds_example =
    run_one-Rounds stages toy toy-IsLawful busy busy-IsCounted (λ a known e. cc) busy-TakesSocket

start-Started_example :
    Started stages toy toy-IsLawful receive_work
      (request_of receive_work 5 (busy.operations 4))
      4
      busy
      (start toy receive_work 2 4 busy)
unfolding Container.lookup
start-Started_example =
    start-Started stages toy toy-IsLawful toy-MakesRoom receive_work 0 4 5 busy tt busy-IsCounted
      refl

cancel-Takes_example :
    Finishes (cancel toy 2 20 8 busy)
    × Ensures
        (λ _ d. Takes stages 20 cancel_work busy d × Asks stages toy toy-IsLawful (prep_cancel 8) d)
        (cancel toy 2 20 8 busy)
cancel-Takes_example = cancel-Takes stages toy toy-IsLawful toy-MakesRoom 0 20 8 busy busy-IsCounted

-- A ring whose system calls are interrupted.
abbrev interrupted : Ring Toy
interrupted = record toy {
  submit_and_wait = λ least r. (refused 4, r);
  wait_cqe = λ r. (not_got 4, r);
}

abbrev submitted : Context Toy
submitted = record busy {
  ring = record start_state { given = 8 ∷ 9 ∷ [] };
  submitting = 0;
  outstanding = 2;
}
