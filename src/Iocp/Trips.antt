-- ===== src/Iocp/Trips.antt =====
-- A receive, send or connect operation of iocp_context.hpp from the call that starts it to the
-- packet that ends it.
use net.Prelude.{
  ℕ, [], ◌+◌, ◌^◌, ◌<◌, ◌≡◌, refl, ap, ◌∙◌, true, Option, none, some, ◌∷◌, arith, ◌==◌,
  if◌then◌else◌, ==_refl,
}
use net.Prelude.Int.{ℤ}
use net.Prelude.Outcome.{returns, undefined, and_then}
use net.Container
use net.Event.{SubmitResult}
use net.Iocp.{
  Direction, accepting, receiving, sending, connecting, index, Block, clear, SocketRecord, WorkKind,
  accept_work, connect_work, receive_work, send_work, Operation, Context, M, update, store,
  set_block, native_handle,
}
use net.Iocp.Work.{
  System, give, submitted, install, point, first_buffer, receive, send, connect, data_of,
  error_io_pending,
}
use net.Iocp.Run.{Packet, run_one}
use net.Iocp.Waits.{IsFor, run_one-arrive}
use net.Iocp.Transfers.{verdict, is_transfer, bytes_of, IsOpenFor}
use net.Iocp.Arrivals.{IsGiven, less_one, arrive-Arrives}

-- The calls that start such an operation.
abbrev pub start : WorkKind → System → ℕ → M SubmitResult
start receive_work = receive
start send_work = send
start connect_work = connect
start accept_work = λ sys op c. undefined

abbrev pub direction_of : WorkKind → Direction
direction_of receive_work = receiving
direction_of send_work = sending
direction_of connect_work = connecting
direction_of accept_work = accepting

-- The call of the operating system succeeds at once or later.
abbrev pub IsPending : Option ℕ → Type 0
IsPending none = Unit {0}
IsPending (some e) = e ≡ error_io_pending

-- So does the one that starts the operation.
abbrev pub Proceeds : WorkKind → System → ℕ → Operation → Type 0
Proceeds receive_work sys h o = IsPending (sys.wsa_recv h (first_buffer o.iov))
Proceeds send_work sys h o = IsPending (sys.wsa_send h (first_buffer o.iov) o.flags)
Proceeds connect_work sys h o = (sys.bind_any h ≡ none) × IsPending (sys.connect_ex h)
Proceeds accept_work sys h o = ⊥

-- The socket of the operation is open, and its data is allocated.
pub record IsOpen (op : ℕ) (r : SocketRecord) (b : ℕ) (c : Context) : Type 0 where
  pub data_at : Block
  pub record_there : Container.lookup (c.operations op).id c.sockets ≡ some r
  pub has_data : r.io ≡ some b
  pub allocated : c.blocks b ≡ some data_at

submitted-pending :
    (a : Option ℕ) (op : ℕ) (c : Context)
    → IsPending a
    → submitted a op c ≡ returns SubmitResult.submit (record c { outstanding = c.outstanding + 1 })
submitted-pending none op c h = refl
submitted-pending (some e) op c h = rw h

-- What `install` leaves.
abbrev pub installed : WorkKind → Direction → ℕ × ℕ → ℕ → Block → ℕ → Context → Context
installed kind direction buffer b at_b op c =
    let v = record clear { completion = some op; wsabuf = buffer } in
    update (give (point b direction) kind) op
      (set_block b (some (λ d. if index d == index direction then v else at_b d)) c)

-- And what the call leaves that gives it away.
abbrev pub given : WorkKind → Direction → ℕ × ℕ → ℕ → Block → ℕ → Context → Context
given kind direction buffer b at_b op c = record (installed kind direction buffer b at_b op c) {
  outstanding = c.outstanding + 1;
}

install-installed :
    (kind : WorkKind) (direction : Direction) (buffer : ℕ × ℕ) (b op : ℕ) (c : Context)
    {at_b : Block}
    → c.blocks b ≡ some at_b
    → install direction kind buffer b op c
      ≡ returns tt (installed kind direction buffer b at_b op c)
install-installed kind direction buffer b op c e = rw (e, store) refl

module _ (kind : WorkKind) (direction : Direction) (buffer : ℕ × ℕ) (b : ℕ) (at_b : Block) (op : ℕ)
    (c : Context) where
  pub open_installed :
      (k : WorkKind) → IsOpenFor k op c → IsOpenFor k op (given kind direction buffer b at_b op c)
  open_installed accept_work o = o
  open_installed connect_work (r, o) = (r, rw (==_refl op) o)
  open_installed receive_work o = o
  open_installed send_work o = o

  pub installed-IsGiven :
      IsOpenFor kind op c
      → IsGiven kind (point b direction) op (given kind direction buffer b at_b op c)
  installed-IsGiven o = record {
    data_at = λ d.
        if index d == index direction
        then record clear { completion = some op; wsabuf = buffer }
        else at_b d;
    allocated = rw (==_refl b);
    completes = rw (==_refl (index direction));
    has_work = rw (==_refl op);
    has_extra = rw (==_refl op);
    open_for = open_installed kind o;
  }

-- The operation goes to the operating system.
pub record Goes (kind : WorkKind) (sys : System) (op b : ℕ) (c e : Context) : Type 0 where
  pub started : start kind sys op c ≡ returns SubmitResult.submit e
  pub is_given : IsGiven kind (point b (direction_of kind)) op e
  pub silent : e.signals ≡ c.signals
  pub one_more : e.outstanding ≡ c.outstanding + 1
  pub same_count : (e.operations op).count ≡ (c.operations op).count
  pub same_timeouts : e.timeouts ≡ c.timeouts
  pub same_tasks : e.tasks ≡ c.tasks

module _ {op : ℕ} {r : SocketRecord} {b : ℕ} {c : Context} (o : IsOpen op r b c) where
  handle_there : native_handle (c.operations op).id c ≡ returns r.handle c
  unfolding native_handle
  handle_there = rw (o.record_there, native_handle)

  data_there : data_of op c ≡ returns b c
  data_there = rw (o.record_there, data_of) (rw o.has_data)

  module _ (kind : WorkKind) (buffer : ℕ × ℕ) where
    pub leaves :
        (sys : System)
        → IsOpenFor kind op c
        → start kind sys op c
          ≡ returns SubmitResult.submit (given kind (direction_of kind) buffer b o.data_at op c)
        → (e : Context) × Goes kind sys op b c e
    leaves sys there started = (
      given kind (direction_of kind) buffer b o.data_at op c,
      record {
        started = started;
        is_given = installed-IsGiven kind (direction_of kind) buffer b o.data_at op c there;
        silent = refl;
        one_more = refl;
        same_count = rw (==_refl op);
        same_timeouts = refl;
        same_tasks = refl;
      },
    )

  pub install-submitted :
      (kind : WorkKind) (direction : Direction) (buffer : ℕ × ℕ) (answer : Option ℕ)
      → IsPending answer
      → and_then (install direction kind buffer b op c) (λ _. submitted answer op)
        ≡ returns SubmitResult.submit (given kind direction buffer b o.data_at op c)
  install-submitted kind direction buffer answer h =
      ap (λ m. and_then m (λ _. submitted answer op))
        (install-installed kind direction buffer b op c o.allocated)
      ∙ submitted-pending answer op _ h

  pub start-Goes :
      (kind : WorkKind) (sys : System)
      → Proceeds kind sys r.handle (c.operations op)
      → (e : Context) × Goes kind sys op b c e
  unfolding receive send connect
  start-Goes accept_work sys h = absurd h
  start-Goes receive_work sys h =
      let buffer = first_buffer (c.operations op).iov in
      leaves receive_work buffer sys tt (
        rw (receive, handle_there)
          (rw data_there (install-submitted receive_work receiving buffer _ h)))
  start-Goes send_work sys h =
      let buffer = first_buffer (c.operations op).iov in
      leaves send_work buffer sys tt
        (rw (send, handle_there) (rw data_there (install-submitted send_work sending buffer _ h)))
  start-Goes connect_work sys (bound, h) =
      leaves connect_work (0, 0) sys (r, o.record_there)
        (rw (connect, handle_there)
          (rw bound (rw data_there (install-submitted connect_work connecting (0, 0) _ h))))

-- The operation was told once what the result says, and the count is as it was before the start.
pub record Ended (kind : WorkKind) (res : ℤ) (op : ℕ) (c e : Context) : Type 0 where
  pub said : e.signals ≡ verdict kind res op ∷ c.signals
  pub counted :
      is_transfer kind ≡ true → (e.operations op).count ≡ bytes_of res (c.operations op).count
  pub balanced : e.outstanding ≡ c.outstanding

-- A receive, send or connect operation on an open socket whose data is allocated, for which the
-- call of the operating system succeeds or is pending, is submitted without any signal and raises
-- `outstanding` by one. Where no timer is set and no task is there, the packet for it then makes
-- `run_one` return 1 and gives the operation the one signal that its result asks for: `complete` for
-- a result that is not negative, and otherwise `cancel`, `error` or, at the end of a connection,
-- `complete` with 0 bytes. `outstanding` is again what it was, and a receive or send operation has
-- the number of bytes.
pub trip_lem :
    {op : ℕ} {r : SocketRecord} {b : ℕ} {c : Context} (kind : WorkKind) (sys : System)
    (ticks now later : ℕ) (packet : Packet) (res : ℤ)
    → IsOpen op r b c
    → Proceeds kind sys r.handle (c.operations op)
    → c.outstanding < 2 ^ 64
    → c.timeouts ≡ []
    → c.tasks ≡ []
    → IsFor packet res (point b (direction_of kind))
    → (d : Context) × (start kind sys op c ≡ returns SubmitResult.submit d)
      × (d.signals ≡ c.signals)
      × (d.outstanding ≡ c.outstanding + 1)
      × (e : Context) × (run_one sys ticks now (λ _. packet) later d ≡ returns 1 e)
      × Ended kind res op c e
trip_lem {op} {r} {b} {c} kind sys ticks now later packet res o proceeds bound no_timers no_tasks
      at =
    let (d, g) = start-Goes o kind sys proceeds in
    let back : less_one (c.outstanding + 1) ≡ c.outstanding = omega arith in
    let (e, ran, a) = arrive-Arrives sys kind res (point b (direction_of kind)) op d g.is_given in
    (
      d,
      g.started,
      g.silent,
      g.one_more,
      e,
      run_one-arrive sys ticks now later d packet res (point b (direction_of kind))
            (g.same_timeouts ∙ no_timers) (g.same_tasks ∙ no_tasks) (omega (arith, g.one_more)) at
          ∙ ran,
      record {
        said = a.said ∙ ap (λ l. verdict kind res op ∷ l) g.silent;
        counted = λ t. a.counted t ∙ ap (bytes_of res) g.same_count;
        balanced = a.counted_off ∙ ap less_one g.one_more ∙ back;
      },
    )
