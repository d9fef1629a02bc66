-- ===== src/Poll/Work.antt =====
-- The operations of poll_context.hpp on sockets: the functions that `work` points at, which a
-- readiness indication calls, and the functions that start an operation. A retry loop
-- `while (true)` around a system call is a recursion over the answers of that call.
use net.Prelude.{ℕ, Option, none, some, List, [], ◌∷◌, ◌++◌, if◌then◌else◌}
use net.Prelude.Outcome.{returns, waits, undefined, and_then}
use net.Container
use net.Event.{SubmitResult, poll_events, no_bits}
use net.Poll.{
  Errno, eintr, eagain, econnreset, epipe, einprogress, Rc, ok, failed, WorkKind, poll_work,
  accept_work, connect_work, receive_work, send_work, Operation, PollFd, M, completed, failed_with,
  signal, update, make_socket, native_handle,
}

-- The answers of the operating system, by handle: those of successive calls for the functions
-- that retry, and the error that `SO_ERROR` holds.
pub record System : Type 0 where
  pub accept_call : ℕ → List Rc
  pub recvmsg : ℕ → List Rc
  pub sendmsg : ℕ → List Rc
  pub fcntl : ℕ → Rc
  pub connect_call : ℕ → Rc
  pub getsockopt : ℕ → Rc
  pub so_error : ℕ → Option Errno

-- `complete()` and `error(e)`, with the result that the caller then returns.
abbrev pub finish : SubmitResult → ℕ → M SubmitResult
finish r op c = returns r (signal (completed op) c)

abbrev pub fail : ℕ → Errno → M SubmitResult
fail op e c = returns SubmitResult.error (signal (failed_with op e) c)

abbrev pub set_accepted : ℕ → Operation → Operation
set_accepted id o = record o { accepted = some id }

abbrev pub set_count : ℕ → Operation → Operation
set_count n o = record o { count = n }

unfoldable pub accept_loop : List Rc → ℕ → M SubmitResult
accept_loop [] op c = waits
accept_loop (ok fd ∷ rest) op c =
    and_then (make_socket fd c) λ id d. finish SubmitResult.ready op (update (set_accepted id) op d)
accept_loop (failed eintr ∷ rest) op c = accept_loop rest op c
accept_loop (failed eagain ∷ rest) op c = returns SubmitResult.submit c
accept_loop (failed e ∷ rest) op c = fail op e c

-- The loops of `receive` and of `send`, which differ in the system call alone.
unfoldable pub transfer_loop : List Rc → ℕ → M SubmitResult
transfer_loop [] op c = waits
transfer_loop (ok n ∷ rest) op c = finish SubmitResult.ready op (update (set_count n) op c)
transfer_loop (failed econnreset ∷ rest) op c =
    finish SubmitResult.ready op (update (set_count 0) op c)
transfer_loop (failed epipe ∷ rest) op c = finish SubmitResult.ready op (update (set_count 0) op c)
transfer_loop (failed eintr ∷ rest) op c = transfer_loop rest op c
transfer_loop (failed eagain ∷ rest) op c = returns SubmitResult.submit c
transfer_loop (failed e ∷ rest) op c = fail op e c

abbrev pub connected : Rc → Option Errno → ℕ → M SubmitResult
connected (failed e) error op c = fail op e c
connected (ok _) none op c = finish SubmitResult.ready op c
connected (ok _) (some e) op c = fail op e c

unfoldable pub run_work : WorkKind → System → ℕ → M SubmitResult
unfolding native_handle accept_loop transfer_loop
run_work poll_work sys op c = finish SubmitResult.submit op c
run_work accept_work sys op c =
    and_then (native_handle (c.operations op).id c)
      λ handle. accept_loop (sys.accept_call handle) op
run_work connect_work sys op c =
    and_then (native_handle (c.operations op).id c)
      λ handle. connected (sys.getsockopt handle) (sys.so_error handle) op
run_work receive_work sys op c =
    and_then (native_handle (c.operations op).id c) λ handle. transfer_loop (sys.recvmsg handle) op
run_work send_work sys op c =
    and_then (native_handle (c.operations op).id c) λ handle. transfer_loop (sys.sendmsg handle) op

-- `op->work(*this, op)`.
unfoldable pub work : System → ℕ → M SubmitResult
unfolding run_work
work sys op c = elim (c.operations op).work [
  | none ↦ undefined
  | some kind ↦ run_work kind sys op c
]

-- The end of `add_outstanding`: the operation waits for its events.
unfoldable pub enqueue : ℕ → M SubmitResult
unfolding native_handle
enqueue op c = and_then (native_handle (c.operations op).id c) λ handle d.
    let entry : PollFd = record {
      fd = handle;
      events = poll_events (d.operations op).event;
      revents = no_bits;
    } in
    returns SubmitResult.submit
      (record d { d_poll = d.d_poll ++ entry ∷ []; d_outstanding = d.d_outstanding ++ op ∷ [] })

unfoldable pub add_outstanding : System → ℕ → M SubmitResult
unfolding work enqueue
add_outstanding sys op c = elim (Container.lookup (c.operations op).id c.d_sockets) [
  | none ↦ undefined
  | some r ↦
      if r.blocking
      then enqueue op c
      else and_then (work sys op c) λ result d. elim result [
        | SubmitResult.submit ↦ enqueue op d
        | _ ↦ returns SubmitResult.ready d
      ]
]

abbrev pub set_work : WorkKind → Operation → Operation
set_work kind o = record o { work = some kind }

unfoldable pub poll : System → ℕ → M SubmitResult
unfolding add_outstanding
poll sys op c = add_outstanding sys op (update (set_work poll_work) op c)

unfoldable pub accept : System → ℕ → M SubmitResult
unfolding add_outstanding
accept sys op c = add_outstanding sys op (update (set_work accept_work) op c)

unfoldable pub receive : System → ℕ → M SubmitResult
unfolding add_outstanding
receive sys op c = add_outstanding sys op (update (set_work receive_work) op c)

unfoldable pub send : System → ℕ → M SubmitResult
unfolding add_outstanding
send sys op c = add_outstanding sys op (update (set_work send_work) op c)

-- What `connect` does with the answer of `connect(2)`.
abbrev pub after_connect : Rc → System → ℕ → M SubmitResult
after_connect (ok _) sys op c = finish SubmitResult.ready op c
after_connect (failed einprogress) sys op c =
    add_outstanding sys op (update (set_work connect_work) op c)
after_connect (failed eintr) sys op c = add_outstanding sys op (update (set_work connect_work) op c)
after_connect (failed e) sys op c = fail op e c

-- And with that of `fcntl(2)`, which makes the socket non-blocking.
abbrev pub after_fcntl : Rc → System → (handle op : ℕ) → M SubmitResult
after_fcntl (failed e) sys handle op c = fail op e c
after_fcntl (ok _) sys handle op c = after_connect (sys.connect_call handle) sys op c

unfoldable pub connect : System → ℕ → M SubmitResult
unfolding native_handle add_outstanding
connect sys op c =
    and_then (native_handle (c.operations op).id c)
      λ handle. after_fcntl (sys.fcntl handle) sys handle op
