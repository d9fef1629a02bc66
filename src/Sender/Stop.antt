-- ===== src/Sender/Stop.antt =====
-- What a stop request does to an operation of `net.Sender` that waits in a `net.Poll` context, to
-- one that has ended, and to one that is started after the request.
use net.Prelude.{
  ℕ, ◌≡◌, ◌≢◌, refl, sym, ◌∙◌, ap, subst, inl, inr, true, [], ◌∷◌, arith, length, Bool-cases,
  Option-cases, ==_refl, ne→==,
}
use net.Prelude.Int.{pos, increment}
use net.Prelude.Outcome.{returns, terminated}
use net.Event.{SubmitResult}
use net.Poll
use net.Poll.{Context, M, cancelled, index_of, remove_outstanding}
use net.SortedList.View.{contains}
use net.Poll.Ledger.{pending}
use net.Poll.Told.{Ensures}
use net.Poll.Conservation.{IsAligned, signals-remove_outstanding}
use net.Poll.Calls.{cancel_lem, Cancels}
use net.Sender.{State, stopped, cancel, callback_complete, add_one}
use net.Sender.Steps.{Client, deliver_all, invoke, start, request_stop, log_empty}
use net.Sender.Phase.{IsWaiting, IsEnded}

-- `cancel` calls the operation first, and then the one that cancels it.
cancel-signals :
    (cb op : ℕ) (c : Context)
    → Ensures (λ _ d. d.signals ≡ cancelled cb ∷ cancelled op ∷ c.signals) (Poll.cancel cb op c)
unfolding Poll.cancel
cancel-signals cb op c = elim (Option-cases (index_of op c.d_outstanding)) [
  | inr (i, e) ↦ rw (e, Poll.cancel, signals-remove_outstanding i c) refl
  | inl out ↦ elim (Bool-cases (contains op c.d_timeouts)) [
    | inl timer ↦ rw (out, timer, Poll.cancel) refl
    | inr absent ↦ rw (out, absent, Poll.cancel) tt
  ]
]

-- An operation that is not pending.
pub record IsFresh (op cb : ℕ) (k : Client) : Type 0 where
  pub aligned : IsAligned k.context
  pub unused : k.state.d_outstanding ≡ pos 0
  pub silent : k.state.received ≡ []
  pub absent : pending k.context op ≡ 0
  pub apart : pending k.context cb ≡ 0

module _ (op cb : ℕ) (k : Client) where
  cancel-pending :
      IsAligned k.context
      → pending k.context op ≡ 1
      → (d : Context) × (Poll.cancel cb op (log_empty op cb k) ≡ returns tt d)
        × Cancels cb op (log_empty op cb k) d
        × (d.signals ≡ cancelled cb ∷ cancelled op ∷ [])
  cancel-pending h one = elim (cancel_lem cb op (log_empty op cb k) h) [
    | inl (none_there, _) ↦ absurd (omega arith)
    | inr (d, e, how) ↦ (
      d,
      e,
      how,
      subst (Ensures (λ _ d. d.signals ≡ cancelled cb ∷ cancelled op ∷ [])) e
          (cancel-signals cb op (log_empty op cb k)),
    )
  ]

  -- Both calls of `cancel`, made to an operation whose stop callback runs.
  both_cancels :
      (s : State)
      → op ≢ cb
      → s.d_outstanding ≡ pos 2
      → deliver_all op cb (cancelled cb ∷ cancelled op ∷ []) s
        ≡ record s { d_outstanding = pos 0; received = stopped ∷ s.received }
  unfolding cancel callback_complete
  both_cancels s apart two =
      rw (==_refl op, ==_refl cb, ne→== cb op (λ e. apart (sym e)), two, cancel, callback_complete)

  -- The operation after the stop, and the log of its receiver.
  abbrev Stopped : Type 0
  Stopped =
      (l : Client) × (request_stop op cb k ≡ returns tt l)
      × (l.state.received ≡ stopped ∷ [])
      × IsEnded op cb l

  cancelled-Stopped :
      (d : Context)
      → op ≢ cb
      → IsWaiting op cb k
      → Poll.cancel cb op (log_empty op cb k) ≡ returns tt d
      → Cancels cb op (log_empty op cb k) d
      → d.signals ≡ cancelled cb ∷ cancelled op ∷ []
      → Stopped
  unfolding request_stop
  cancelled-Stopped d apart w e how said =
      let s = add_one k.state in
      let two : s.d_outstanding ≡ pos 2 = ap increment w.running.one_user in
      let l : Client = record {
        context = d;
        state = deliver_all op cb d.signals s;
        stop_requested = true;
      } in
      let after : l.state ≡ record s { d_outstanding = pos 0; received = stopped ∷ s.received } =
        ap (λ xs. deliver_all op cb xs s) said ∙ both_cancels s apart two in
      let log : l.state.received ≡ stopped ∷ [] =
        ap (λ (t : State). t.received) after ∙ ap (λ xs. stopped ∷ xs) w.running.silent in
      (
        l,
        simp (w.unasked, w.engaged, request_stop, invoke, two, e),
        log,
        record {
          aligned = how.aligned;
          signalled = ap length log;
          gone = ground (arith, how.freed op, w.queued, ==_refl op);
          apart = omega (arith, how.freed cb, w.apart);
          harmless = inr refl;
        },
      )

  -- A stop request, the first one, for an operation that waits in the context: the context gives
  -- the operation up, and its receiver is told that it was stopped, and nothing else. This supposes
  -- that the operation and its stop callback are two objects.
  pub request_stop_lem : op ≢ cb → IsWaiting op cb k → Stopped
  request_stop_lem apart w =
      let (d, e, how, said) = cancel-pending w.aligned w.queued in
      cancelled-Stopped d apart w e how said

  cancel-absent :
      IsAligned k.context
      → pending k.context op ≡ 0
      → Poll.cancel cb op (log_empty op cb k) ≡ terminated
  cancel-absent h none_there = elim (cancel_lem cb op (log_empty op cb k) h) [
    | inl (_, e) ↦ e
    | inr (d, e, how) ↦ absurd (ground (arith, how.freed op, ==_refl op))
  ]

  -- If a stop was requested before `start`, then the stop callback, which the constructor of the
  -- callback runs, cancels the operation in a context that does not know it yet: the program is
  -- terminated. This supposes that the operation was not started before.
  pub start_stopped :
      (submit : M SubmitResult)
      → IsFresh op cb k
      → k.stop_requested ≡ true
      → start op cb submit k ≡ terminated
  unfolding start
  start_stopped submit f stop =
      simp (stop, start, invoke, f.unused, cancel-absent f.aligned f.absent)
