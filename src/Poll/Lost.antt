-- ===== src/Poll/Lost.antt =====
-- Where `run_one` of `net.Poll` gives up an operation.
use net.Prelude.{
  ℕ, ◌+◌, ◌≡◌, refl, ◌∙◌, ap, some, List, [], ◌∷◌, arith, length, get_elem?, total, false,
}
use net.Prelude.Outcome.{returns}
use net.Event.{SubmitResult, PollBits}
use net.Poll.{
  Context, Operation, accept_work, receive_work, send_work, WorkKind, failed, eagain, native_handle,
  remove_outstanding, PollFd, process_timeout,
}
use net.Poll.Work.{System, work, run_work, transfer_loop, accept_loop}
use net.Poll.Run.{dispatch, scan, set_revents, Round, polled, wait_loop, timeout, is_nil, run_one}
use net.Poll.Ledger.{unit, tells, pending, told}
use net.Poll.Start.{IsOpen, native_handle-IsOpen}
use net.Poll.Conservation.{
  IsAligned, count-remove_outstanding, timeouts-remove_outstanding, signals-remove_outstanding,
  length-set_revents,
}
use net.Poll.HangUp.{run_one-waits}

-- The first answer of the system call of this kind is EAGAIN.
abbrev pub SaysEagain : WorkKind → System → ℕ → Type 0
SaysEagain accept_work sys handle =
    (rest : List _) × (sys.accept_call handle ≡ failed eagain ∷ rest)
SaysEagain receive_work sys handle = (rest : List _) × (sys.recvmsg handle ≡ failed eagain ∷ rest)
SaysEagain send_work sys handle = (rest : List _) × (sys.sendmsg handle ≡ failed eagain ∷ rest)
SaysEagain _ sys handle = ⊥

module _ (sys : System) (op handle : ℕ) (c : Context) where
  run_work-eagain :
      (kind : WorkKind)
      → native_handle (c.operations op).id c ≡ returns handle c
      → SaysEagain kind sys handle
      → run_work kind sys op c ≡ returns SubmitResult.submit c
  unfolding run_work accept_loop transfer_loop
  run_work-eagain accept_work h (rest, e) = rw (h, run_work, e)
  run_work-eagain receive_work h (rest, e) = rw (h, run_work, e)
  run_work-eagain send_work h (rest, e) = rw (h, run_work, e)
  run_work-eagain _ h e = elim e [ ]

module _ (i : ℕ) (c : Context) where
  sockets-remove_outstanding : (remove_outstanding i c).d_sockets ≡ c.d_sockets
  unfolding remove_outstanding
  sockets-remove_outstanding = ground arith

  operations-remove_outstanding : (remove_outstanding i c).operations ≡ c.operations
  unfolding remove_outstanding
  operations-remove_outstanding = ground arith

  IsOpen-remove_outstanding :
      (op handle : ℕ) → IsOpen c op handle → IsOpen (remove_outstanding i c) op handle
  IsOpen-remove_outstanding op handle there = record {
    record_there =
        rw (sockets-remove_outstanding, operations-remove_outstanding) there.record_there;
  }

  work-eagain :
      (sys : System) (op handle : ℕ) (kind : WorkKind)
      → (c.operations op).work ≡ some kind
      → IsOpen c op handle
      → SaysEagain kind sys handle
      → work sys op (remove_outstanding i c) ≡ returns SubmitResult.submit (remove_outstanding i c)
  unfolding work
  work-eagain sys op handle kind w there e =
      let w' : ((remove_outstanding i c).operations op).work ≡ some kind =
        ap (λ (f : ℕ → Operation). (f op).work) operations-remove_outstanding ∙ w in
      rw (w', work)
        (run_work-eagain sys op handle (remove_outstanding i c) kind
          (native_handle-IsOpen sys op handle (remove_outstanding i c)
            (IsOpen-remove_outstanding op handle there))
          e)

dispatch-eagain :
    (sys : System) (i op handle : ℕ) (kind : WorkKind) (c : Context)
    → IsAligned c
    → get_elem? c.d_outstanding i ≡ some op
    → (c.operations op).work ≡ some kind
    → IsOpen c op handle
    → SaysEagain kind sys handle
    → (d : Context) × (dispatch sys i c ≡ returns 1 d)
      × ((a : ℕ) → pending c a ≡ unit a op + pending d a)
      × ((a : ℕ) → told d a ≡ told c a)
unfolding dispatch
dispatch-eagain sys i op handle kind c h at w there e = (
  remove_outstanding i c,
  rw (at, dispatch, work-eagain i c sys op handle kind w there e),
  λ a. omega (
    arith,
    count-remove_outstanding i c a h at,
    ap (total (unit a)) (timeouts-remove_outstanding i c),
  ),
  λ a. ap (total (tells a)) (signals-remove_outstanding i c),
)

scan-busy :
    (ps : List PollFd) (bits : List PollBits) {i : ℕ}
    → scan (length (set_revents ps bits)) (set_revents ps bits) ≡ some i
    → is_nil ps ≡ false
unfolding scan
scan-busy [] bits found = absurd cc
scan-busy (p ∷ ps) bits found = refl

-- No timer is due and no task is there, and `poll(2)` reports a socket of an accept, receive or send
-- operation as ready, the last of those in the list. Where the system call then says EAGAIN,
-- `run_one` returns 1, but the operation is gone: it stands in the queues once less than before, and
-- neither it nor any other was told of its end.
pub run_one-eagain :
    (sys : System) (ticks now : ℕ) (r : Round) (rounds : List Round) (bits : List PollBits)
    (i op handle : ℕ) (kind : WorkKind) (c : Context)
    → IsAligned c
    → process_timeout now c ≡ (0, c)
    → c.d_tasks ≡ []
    → r.poll_call c.d_poll (timeout ticks now c) ≡ polled bits
    → scan (length (set_revents c.d_poll bits)) (set_revents c.d_poll bits) ≡ some i
    → get_elem? c.d_outstanding i ≡ some op
    → (c.operations op).work ≡ some kind
    → IsOpen c op handle
    → SaysEagain kind sys handle
    → (d : Context) × (run_one sys ticks now (r ∷ rounds) c ≡ returns 1 d)
      × ((a : ℕ) → pending c a ≡ unit a op + pending d a)
      × ((a : ℕ) → told d a ≡ told c a)
unfolding wait_loop
run_one-eagain sys ticks now r rounds bits i op handle kind c h no_timer no_tasks said found at w
      there e =
    let ready = record c { d_poll = set_revents c.d_poll bits } in
    let (d, ran, gone, silent) =
      dispatch-eagain sys i op handle kind ready (length-set_revents c.d_poll bits ∙ h) at w
        (record { record_there = there.record_there }) e in
    (
      d,
      run_one-waits sys ticks now (r ∷ rounds) c no_timer no_tasks (scan-busy c.d_poll bits found)
          ∙ (rw (said, wait_loop) (rw found ran)),
      gone,
      silent,
    )
