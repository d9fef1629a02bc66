-- ===== src/Poll/Start.antt =====
-- How an operation on a socket enters a `net.Poll` context, and how one gets lost there.
use net.Prelude.{
  ℕ, ◌+◌, ◌≡◌, refl, ◌∙◌, some, [], ◌∷◌, ◌++◌, arith, length, get_elem?, total-append, true,
  ==_refl, length-append, get_elem?-append_last, ◌≢◌,
}
use net.Prelude.Outcome.{returns}
use net.Container
use net.Event.{SubmitResult, poll_events, no_bits}
use net.Poll.{
  Context, M, WorkKind, poll_work, accept_work, connect_work, receive_work, send_work, PollFd,
  native_handle, update, Rc, ok, failed, eintr, einprogress,
}
use net.Poll.Work.{
  System, add_outstanding, poll, accept, receive, send, connect, set_work, after_connect,
  after_fcntl,
}
use net.Poll.Ledger.{unit, pending, told}
use net.Poll.Conservation.{IsAligned}

-- The entry that `add_outstanding` makes for the operation on a socket with this handle.
abbrev pub entry_of : Context → ℕ → ℕ → PollFd
entry_of c op handle = record {
  fd = handle;
  events = poll_events (c.operations op).event;
  revents = no_bits;
}

abbrev queued : ℕ → ℕ → Context → Context
queued op handle c = record c {
  d_poll = c.d_poll ++ entry_of c op handle ∷ [];
  d_outstanding = c.d_outstanding ++ op ∷ [];
}

-- The operation was put at the end of both vectors, with the handle of its socket and the events
-- of its mask; no operation was told of its end, and no other was touched.
pub record Takes (op handle : ℕ) (c d : Context) : Type 0 where
  pub aligned : IsAligned d
  pub taken : (a : ℕ) → pending d a ≡ unit a op + pending c a
  pub untold : (a : ℕ) → told d a ≡ told c a
  pub last_entry : get_elem? d.d_poll (length c.d_poll) ≡ some (entry_of c op handle)
  pub last_operation : get_elem? d.d_outstanding (length c.d_outstanding) ≡ some op

-- The socket of the operation is open, and its record says `blocking`, as every record does that
-- `make_socket` made.
pub record IsOpen (c : Context) (op handle : ℕ) : Type 0 where
  pub record_there :
      Container.lookup (c.operations op).id c.d_sockets
      ≡ some (record { handle = handle; blocking = true })

queued-Takes : (op handle : ℕ) (c : Context) → IsAligned c → Takes op handle c (queued op handle c)
queued-Takes op handle c h = record {
  aligned = omega (
    arith,
    h,
    length-append c.d_poll (entry_of c op handle ∷ []),
    length-append c.d_outstanding (op ∷ []),
  );
  taken = λ a. omega (arith, total-append (unit a) c.d_outstanding (op ∷ []));
  untold = λ a. refl;
  last_entry = get_elem?-append_last c.d_poll (entry_of c op handle);
  last_operation = get_elem?-append_last c.d_outstanding op;
}

module _ (sys : System) (op handle : ℕ) (c : Context) (open_socket : IsOpen c op handle) where
  pub native_handle-IsOpen : native_handle (c.operations op).id c ≡ returns handle c
  unfolding native_handle
  native_handle-IsOpen = rw (open_socket.record_there, native_handle)

  add_outstanding-queued :
      add_outstanding sys op c ≡ returns SubmitResult.submit (queued op handle c)
  unfolding add_outstanding
  add_outstanding-queued = rw (open_socket.record_there, add_outstanding, native_handle-IsOpen)

  -- Installing a `work` function changes neither the socket nor the mask of the operation.
  set_work-IsOpen : (kind : WorkKind) → IsOpen (update (set_work kind) op c) op handle
  set_work-IsOpen kind = record { record_there = rw (==_refl op) open_socket.record_there }

  Takes-update :
      (kind : WorkKind) (d : Context)
      → Takes op handle (update (set_work kind) op c) d
      → Takes op handle c d
  Takes-update kind d t = record {
    aligned = t.aligned;
    taken = t.taken;
    untold = t.untold;
    last_entry = t.last_entry ∙ rw (==_refl op);
    last_operation = t.last_operation;
  }

-- The functions that start an operation without a system call of their own.
abbrev pub start : WorkKind → System → ℕ → M SubmitResult
start poll_work = poll
start accept_work = accept
start connect_work = connect
start receive_work = receive
start send_work = send

-- The end of `start kind`, with the function that it installs.
starts_with :
    (kind : WorkKind) (sys : System) (op handle : ℕ) (c : Context)
    → IsAligned c
    → IsOpen c op handle
    → (d : Context) × (add_outstanding sys op (update (set_work kind) op c)
        ≡ returns SubmitResult.submit d)
      × Takes op handle c d
      × ((d.operations op).work ≡ some kind)
starts_with kind sys op handle c h there =
    let c' = update (set_work kind) op c in
    (
      queued op handle c',
      add_outstanding-queued sys op handle c' (set_work-IsOpen sys op handle c there kind),
      Takes-update sys op handle c there kind (queued op handle c') (queued-Takes op handle c' h),
      rw (==_refl op),
    )

-- On a context with both vectors of one size and an open socket, `poll`, `accept`, `receive` and
-- `send` return `submit`: the operation stands at the end of both vectors, with the handle of the
-- socket and the events of its mask, and with the function of its kind installed; none is told of
-- its end.
pub start_lem :
    (kind : WorkKind) (sys : System) (op handle : ℕ) (c : Context)
    → kind ≢ connect_work
    → IsAligned c
    → IsOpen c op handle
    → (d : Context) × (start kind sys op c ≡ returns SubmitResult.submit d)
      × Takes op handle c d
      × ((d.operations op).work ≡ some kind)
unfolding poll accept receive send
start_lem poll_work sys op handle c ne h there = starts_with poll_work sys op handle c h there
start_lem accept_work sys op handle c ne h there = starts_with accept_work sys op handle c h there
start_lem connect_work sys op handle c ne h there = absurd (ne refl)
start_lem receive_work sys op handle c ne h there = starts_with receive_work sys op handle c h there
start_lem send_work sys op handle c ne h there = starts_with send_work sys op handle c h there

-- What `connect` leads to: the operation waits, or was told of its end once.
pub data Connects (op handle : ℕ) (c : Context) (r : SubmitResult) (d : Context) : Type 0 where
  waits_for : r ≡ SubmitResult.submit → Takes op handle c d → Connects op handle c r d
  ended :
      r ≢ SubmitResult.submit
      → IsAligned d
      → ((a : ℕ) → pending d a ≡ pending c a)
      → ((a : ℕ) → told d a ≡ unit a op + told c a)
      → Connects op handle c r d

after_connect_cases :
    (answer : Rc) (sys : System) (op handle : ℕ) (c : Context)
    → IsAligned c
    → IsOpen c op handle
    → (r : SubmitResult) × (d : Context) × (after_connect answer sys op c ≡ returns r d)
      × Connects op handle c r d
after_connect_cases (ok n) sys op handle c h there =
    (SubmitResult.ready, _, refl, ended (λ e. cc) h (λ a. refl) (λ a. refl))
after_connect_cases (failed einprogress) sys op handle c h there =
    let (d, e, t, _) = starts_with connect_work sys op handle c h there in
    (SubmitResult.submit, d, e, waits_for refl t)
after_connect_cases (failed eintr) sys op handle c h there =
    let (d, e, t, _) = starts_with connect_work sys op handle c h there in
    (SubmitResult.submit, d, e, waits_for refl t)
after_connect_cases (failed other) sys op handle c h there =
    (SubmitResult.error, _, refl, ended (λ e. cc) h (λ a. refl) (λ a. refl))

after_fcntl_cases :
    (answer : Rc) (sys : System) (op handle : ℕ) (c : Context)
    → IsAligned c
    → IsOpen c op handle
    → (r : SubmitResult) × (d : Context) × (after_fcntl answer sys handle op c ≡ returns r d)
      × Connects op handle c r d
after_fcntl_cases (failed e) sys op handle c h there =
    (SubmitResult.error, _, refl, ended (λ e. cc) h (λ a. refl) (λ a. refl))
after_fcntl_cases (ok n) sys op handle c h there =
    after_connect_cases (sys.connect_call handle) sys op handle c h there

-- On a context with both vectors of one size and an open socket, `connect` returns, whatever
-- `fcntl` and `connect(2)` say: with `submit`, and the operation then waits for its events, or
-- with another result, and the operation was then told of its end once.
pub connect_lem :
    (sys : System) (op handle : ℕ) (c : Context)
    → IsAligned c
    → IsOpen c op handle
    → (r : SubmitResult) × (d : Context) × (connect sys op c ≡ returns r d)
      × Connects op handle c r d
unfolding connect
connect_lem sys op handle c h there =
    rw (native_handle-IsOpen sys op handle c there, connect)
      (after_fcntl_cases (sys.fcntl handle) sys op handle c h there)
