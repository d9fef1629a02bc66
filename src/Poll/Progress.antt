-- ===== src/Poll/Progress.antt =====
-- What `run_one` of `net.Poll.Run` returns is the number of calls that it made.
use net.Prelude.{
  ℕ, suc, ◌+◌, ◌≡◌, ◌≢◌, refl, ap, ◌⊎◌, inl, inr, true, Option, none, some, List, [], ◌∷◌, arith,
  leb, length, get_elem?, Bool-cases, Option-cases, ◌&&◌,
}
use net.Prelude.Outcome.{returns}
use net.Container
use net.Event.{SubmitResult}
use net.Poll.{
  Errno, eintr, eagain, Rc, ok, failed, WorkKind, poll_work, accept_work, connect_work,
  receive_work, send_work, Context, make_socket, process_task, process_timeout, remove_outstanding,
  deadline_of,
}
use net.Poll.Work.{System, accept_loop, transfer_loop, connected, run_work, work}
use net.Poll.Run.{
  Round, timeout, set_revents, scan, dispatch, is_retried, wait_loop, is_nil, run_one,
}
use net.Poll.Told.{
  Ensures, Ensures-native_handle, Ensures-and_then, Ensures-both, Prompt, Settled, run_work-Settled,
}
use net.Poll.Conservation.{signals-remove_outstanding}
use net.Poll.RunOne.{PollAnswer-cases}
use net.Poll.Idle.{NeverRefused, WorksOrIdle, run_one_lem}

-- One virtual call was made.
abbrev OneMore : Context → Context → Type 0
OneMore c d = length d.signals ≡ suc (length c.signals)

abbrev IfSettled : Context → SubmitResult → Context → Type 0
IfSettled c r d = r ≢ SubmitResult.submit → OneMore c d

module _ (sys : System) (op : ℕ) where
  accept_loop-OneMore : (rs : List Rc) (c : Context) → Ensures (IfSettled c) (accept_loop rs op c)
  unfolding accept_loop make_socket
  accept_loop-OneMore [] c = tt
  accept_loop-OneMore (ok fd ∷ rs) c =
      elim (Option-cases (Container.insert (record { handle = fd; blocking = true }) c.d_sockets)) [
        | inl e ↦ rw (e, make_socket) tt
        | inr ((id, sockets), e) ↦ rw (e, make_socket) (λ ended. refl)
      ]
  accept_loop-OneMore (failed eintr ∷ rs) c = accept_loop-OneMore rs c
  accept_loop-OneMore (failed eagain ∷ rs) c = λ ended. absurd (ended refl)
  accept_loop-OneMore (failed e ∷ rs) c = λ ended. refl

  transfer_loop-OneMore :
      (rs : List Rc) (c : Context) → Ensures (IfSettled c) (transfer_loop rs op c)
  unfolding transfer_loop
  transfer_loop-OneMore [] c = tt
  transfer_loop-OneMore (ok n ∷ rs) c = λ ended. refl
  transfer_loop-OneMore (failed eintr ∷ rs) c = transfer_loop-OneMore rs c
  transfer_loop-OneMore (failed eagain ∷ rs) c = λ ended. absurd (ended refl)
  transfer_loop-OneMore (failed e ∷ rs) c = λ ended. refl

  connected-OneMore :
      (answer : Rc) (error : Option Errno) (c : Context)
      → Ensures (IfSettled c) (connected answer error op c)
  connected-OneMore (failed e) error c = λ ended. refl
  connected-OneMore (ok _) none c = λ ended. refl
  connected-OneMore (ok _) (some e) c = λ ended. refl

  run_work-IfSettled :
      (kind : WorkKind) (c : Context) → Ensures (IfSettled c) (run_work kind sys op c)
  unfolding run_work
  run_work-IfSettled poll_work c = λ ended. refl
  run_work-IfSettled accept_work c =
      Ensures-native_handle (IfSettled c) _ c _
        λ handle. accept_loop-OneMore (sys.accept_call handle) c
  run_work-IfSettled connect_work c =
      Ensures-native_handle (IfSettled c) _ c _
        λ handle. connected-OneMore (sys.getsockopt handle) (sys.so_error handle) c
  run_work-IfSettled receive_work c =
      Ensures-native_handle (IfSettled c) _ c _
        λ handle. transfer_loop-OneMore (sys.recvmsg handle) c
  run_work-IfSettled send_work c =
      Ensures-native_handle (IfSettled c) _ c _
        λ handle. transfer_loop-OneMore (sys.sendmsg handle) c

  run_work-OneMore :
      (kind : WorkKind) (c : Context)
      → Prompt sys
      → Ensures (λ _ d. OneMore c d) (run_work kind sys op c)
  run_work-OneMore kind c p = go kind
    where
      other : (k : WorkKind) → k ≢ poll_work → Ensures (λ _ d. OneMore c d) (run_work k sys op c)
      other k ne =
          Ensures-both (IfSettled c) Settled (λ _ d. OneMore c d) (run_work k sys op c)
            (run_work-IfSettled k c) (run_work-Settled sys op k c p ne) (λ r d one ended. one ended)

      go : (k : WorkKind) → Ensures (λ _ d. OneMore c d) (run_work k sys op c)
      go poll_work = unfold run_work in refl
      go accept_work = other accept_work (λ e. cc)
      go connect_work = other connect_work (λ e. cc)
      go receive_work = other receive_work (λ e. cc)
      go send_work = other send_work (λ e. cc)

-- As many calls were made as the result says.
abbrev pub Counts : Context → ℕ → Context → Type 0
Counts c n d = length d.signals ≡ length c.signals + n

-- A task or a timer: nothing was done, or one call was made.
abbrev OneOrNone : Context → ℕ × Context → Type 0
OneOrNone c x = ((x.0 ≡ 0) × (x.1 ≡ c)) ⊎ ((x.0 ≡ 1) × Counts c 1 x.1)

process_task-OneOrNone : (c : Context) → OneOrNone c (process_task c)
unfolding process_task
process_task-OneOrNone c = go c.d_tasks refl
  where
    go : (ts : List ℕ) → c.d_tasks ≡ ts → OneOrNone c (process_task c)
    go [] e = inl (ground arith, ground arith)
    go (t ∷ ts) e = inr (ground arith, ground arith)

process_timeout-OneOrNone : (now : ℕ) (c : Context) → OneOrNone c (process_timeout now c)
unfolding process_timeout
process_timeout-OneOrNone now c = go c.d_timeouts refl
  where
    go : (ts : List ℕ) → c.d_timeouts ≡ ts → OneOrNone c (process_timeout now c)
    go [] e = inl (ground arith, ground arith)
    go (op ∷ ts) e = elim (Bool-cases (leb (deadline_of c op) now)) [
      | inl due ↦ inr (ground arith, ground arith)
      | inr early ↦ inl (ground arith, ground arith)
    ]

module _ (sys : System) (prompt : Prompt sys) where
  dispatch-Counts : (i : ℕ) (c : Context) → Ensures (Counts c) (dispatch sys i c)
  unfolding dispatch work
  dispatch-Counts i c = elim (Option-cases (get_elem? c.d_outstanding i)) [
    | inl e ↦ rw (e, dispatch) tt
    | inr (op, e) ↦
        let b = remove_outstanding i c in
        rw (e, dispatch)
          (elim (Option-cases (b.operations op).work) [
            | inl w ↦ rw (w, work) tt
            | inr (kind, w) ↦
                rw (w, work)
                  (Ensures-and_then (λ _ d. OneMore b d) (Counts c) (run_work kind sys op b)
                    (λ _. returns 1) (run_work-OneMore sys op kind b prompt)
                    λ _ d one. omega (arith, one, ap length (signals-remove_outstanding i c)))
          ])
  ]

  wait_loop-Counts :
      (ticks now : ℕ) (rounds : List Round) (c : Context)
      → Ensures (Counts c) (wait_loop sys ticks now rounds c)
  unfolding wait_loop
  wait_loop-Counts ticks now [] c = tt
  wait_loop-Counts ticks now (r ∷ rounds) c =
      elim (PollAnswer-cases (r.poll_call c.d_poll (timeout ticks now c))) [
        | inl (e, said) ↦
            rw (said, wait_loop)
              (elim (Bool-cases (is_retried e)) [
                | inl again ↦ rw (again, wait_loop) (wait_loop-Counts ticks now rounds c)
                | inr over ↦ rw (over, wait_loop) (omega arith)
              ])
        | inr (bits, said) ↦
            let d = record c { d_poll = set_revents c.d_poll bits } in
            rw (said, wait_loop)
              (elim (Option-cases (scan (length d.d_poll) d.d_poll)) [
                | inr (i, found) ↦ rw (found, wait_loop) (dispatch-Counts i d)
                | inl silent ↦
                    rw (silent, wait_loop)
                      (elim (process_timeout-OneOrNone r.later d) [
                        | inr (due, one) ↦ rw (due, wait_loop) one
                        | inl (early, same) ↦
                            rw (early, wait_loop, same) (wait_loop-Counts ticks now rounds d)
                      ])
              ])
      ]

  run_one-Counts_alone :
      (ticks now : ℕ) (rounds : List Round) (c : Context)
      → Ensures (Counts c) (run_one sys ticks now rounds c)
  unfolding run_one
  run_one-Counts_alone ticks now rounds c = elim (process_timeout-OneOrNone now c) [
    | inr (due, one) ↦ rw (due, run_one) one
    | inl (early, same) ↦
        rw (early, run_one, same)
          (elim (process_task-OneOrNone c) [
            | inr (ran, one) ↦ rw (ran, run_one) one
            | inl (idle, kept) ↦
                rw (idle, run_one, kept)
                  (elim (Bool-cases (is_nil c.d_poll && is_nil c.d_timeouts)) [
                    | inl empty ↦ rw empty (omega arith)
                    | inr busy ↦ rw busy (wait_loop-Counts ticks now rounds c)
                  ])
          ])
  ]

  -- Where `run_one` returns, its result is the number of virtual calls that it made, to tell an
  -- operation of its end or to run a task. It is 1, or it is 0 and nothing waits for a socket, for
  -- its time or for its turn. This supposes that `poll(2)` fails with EINTR or EAGAIN at most, and
  -- that a call on a socket does not say EAGAIN after `poll(2)` said that the socket is ready.
  pub run_one-Counts :
      (ticks now : ℕ) (rounds : List Round) (c : Context)
      → NeverRefused rounds
      → Ensures (λ n d. Counts c n d × WorksOrIdle n d) (run_one sys ticks now rounds c)
  run_one-Counts ticks now rounds c h =
      Ensures-both (Counts c) WorksOrIdle (λ n d. Counts c n d × WorksOrIdle n d)
        (run_one sys ticks now rounds c) (run_one-Counts_alone ticks now rounds c)
        (run_one_lem sys ticks now rounds c h) (λ n d counts idle. (counts, idle))
