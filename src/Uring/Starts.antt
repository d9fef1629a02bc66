-- ===== src/Uring/Starts.antt =====
-- How an operation enters the ring of uring_context.hpp: the calls on a socket, timers, and the
-- request to cancel another operation.
use net.Prelude.{
  ℕ, suc, ◌+◌, ◌≡◌, ◌≢◌, refl, sym, ap, ◌∙◌, subst, inl, inr, none, some, arith, ◌==◌, length,
  total, Bool-cases, ==_refl, Option-cases, ◌⊎◌, ◌-◌, leb, true,
}
use net.Container
use net.Container.{Container}
use net.Event.{SubmitResult}
use net.Uring.{
  Call, and_then, returns, throws, undefined, Answer, accepted, refused, claimed, Ring, Request,
  prep_accept, prep_connect, prep_recvmsg, prep_sendmsg, prep_cancel, WorkKind, cancel_work,
  accept_work, connect_work, receive_work, send_work, resume_at_work, Operation, Context, update,
  native_handle, submit, get_sqe,
}
use net.Uring.Work.{
  set_work, begin, prepared, accept, connect, receive, send, resume_at, cancel, timeout_of,
  make_timespec,
}
use net.Uring.Fuel.{Finishes, resume_at-Finishes, cancel-Finishes}
use net.Uring.Laws.{Stages, IsLawful, MakesRoom}
use net.Uring.Counts.{
  Ensures, Ensures-and_then, IsCounted, Changes, SameRest, none_of, get_sqe-Changes, submit-Changes,
}
use net.Uring.Ends.{unit}
use net.Uring.Once.{pending, IsInstalled}

Answer-cases :
    {R : Type 0} (p : Answer × R)
    → ((e : ℕ) × (s : R) × (p ≡ (refused e, s))) ⊎ ((n : ℕ) × (s : R) × (p ≡ (accepted n, s)))
Answer-cases (refused e, s) = inl (e, s, refl)
Answer-cases (accepted n, s) = inr (n, s, refl)

-- The calls on a socket, and the request of each.
abbrev pub start :
    {R : Type 0} → Ring R → WorkKind → ℕ → ℕ → Context R → Call (Context R) SubmitResult
start ring accept_work = accept ring
start ring connect_work = connect ring
start ring receive_work = receive ring
start ring send_work = send ring
start ring kind = λ fuel op c. undefined

abbrev pub request_of : WorkKind → ℕ → Operation → Request
request_of connect_work fd o = prep_connect fd
request_of receive_work fd o = prep_recvmsg fd o.flags
request_of send_work fd o = prep_sendmsg fd o.flags
request_of _ fd o = prep_accept fd

abbrev pub IsSocketWork : WorkKind → Type 0
IsSocketWork cancel_work = ⊥
IsSocketWork resume_at_work = ⊥
IsSocketWork _ = Unit {0}

-- The socket of the operation is open.
abbrev pub HasSocket : {R : Type 0} → Context R → ℕ → ℕ → Type 0
HasSocket c op fd = Container.lookup (c.operations op).id c.sockets ≡ some fd

module _ {R : Type 0} (view : Stages R) where
  open view use {queued, inflight}

  -- The operation was given to the ring once, with the function of its kind installed; no other
  -- was, and none was told of its end.
  pub record Takes (op : ℕ) (kind : WorkKind) (c d : Context R) : Type 0 where
    pub counted : IsCounted view d
    pub taken : (a : ℕ) → pending view d a ≡ unit a op + pending view c a
    pub untold : d.signals ≡ c.signals
    pub has_work : (d.operations op).work ≡ some kind
    pub installed : IsInstalled view c → IsInstalled view d

  module _ (ring : Ring R) (laws : IsLawful ring view) where
    -- A ring with a request written into its last entry.
    prepared-Takes :
        (op : ℕ) (kind : WorkKind) (q : Request) (c d : Context R)
        → Changes view (λ f. f op) none_of (update (set_work kind) op c) d
        → Takes op kind c (prepared ring q d)
    prepared-Takes op kind q c d k = record {
      counted = record {
        submitting_counts =
            k.counted.submitting_counts ∙ ap length (sym (laws.prep_queued q d.ring));
        outstanding_counts = omega (
          arith,
          k.counted.outstanding_counts,
          ap length (laws.prep_queued q d.ring),
          ap length (laws.prep_inflight q d.ring),
        );
      };
      taken = λ a. omega (
        arith,
        k.balance (unit a),
        ap (total (unit a)) (laws.prep_queued q d.ring),
        ap (total (unit a)) (laws.prep_inflight q d.ring),
      );
      untold = k.rest.same_signals;
      has_work =
          ap (λ (os : ℕ → Operation). (os op).work) k.rest.same_operations ∙ (rw (==_refl op));
      installed = λ ready a known. elim (Bool-cases (a == op)) [
        | inl hit ↦
            subst (λ (os : ℕ → Operation). (os a).work ≢ none) (sym k.rest.same_operations)
              (rw hit (λ e. cc))
        | inr miss ↦
            subst (λ (os : ℕ → Operation). (os a).work ≢ none) (sym k.rest.same_operations)
              (rw miss (
                ready a (
                  ground (
                    arith,
                    k.balance (unit a),
                    ap (total (unit a)) (laws.prep_queued q d.ring),
                    ap (total (unit a)) (laws.prep_inflight q d.ring),
                  ))))
      ];
    }

    -- The queue is full, and `io_uring_submit` is refused, with the error that the call throws.
    abbrev pub Refused : {A : Type 0} → Context R → Call (Context R) A → Type 0
    Refused c o =
        (e : ℕ) × (s : R) × (ring.get_sqe c.ring ≡ none)
        × (ring.submit c.ring ≡ (refused e, s))
        × (o ≡ throws e)

    -- The entry that was handed out holds the request.
    abbrev pub Asks : Request → Context R → Type 0
    Asks q d = (r : R) × (d.ring ≡ ring.prep q r)

    -- The call returns with the operation given to the ring, or the submission is refused.
    abbrev pub Started : WorkKind → Request → ℕ → Context R → Call (Context R) SubmitResult → Type 0
    Started kind q op c o =
        ((d : Context R) × (o ≡ returns SubmitResult.submit d) × Takes op kind c d × Asks q d)
        ⊎ Refused c o

    update-IsCounted :
        (g : Operation → Operation) (op : ℕ) (c : Context R)
        → IsCounted view c
        → IsCounted view (update g op c)
    update-IsCounted g op c h = record {
      submitting_counts = h.submitting_counts;
      outstanding_counts = h.outstanding_counts;
    }

    handle_of :
        (op fd : ℕ) (kind : WorkKind) (c d : Context R)
        → HasSocket c op fd
        → SameRest (update (set_work kind) op c) d
        → native_handle (d.operations op).id d ≡ returns fd d
    unfolding native_handle
    handle_of op fd kind c d there same =
        let open_there : Container.lookup (d.operations op).id d.sockets ≡ some fd =
          ap (λ (os : ℕ → Operation). Container.lookup (os op).id d.sockets) same.same_operations
          ∙ ap (λ s. Container.lookup ((update (set_work kind) op c).operations op).id s)
              same.same_sockets
          ∙ (rw (==_refl op) there) in
        rw (open_there, native_handle)

    begin-Takes :
        (kind : WorkKind) (request : ℕ → Operation → Request) (fuel op fd : ℕ) (c : Context R)
        → IsCounted view c
        → HasSocket c op fd
        → Ensures
            (λ r d.
              (r ≡ SubmitResult.submit)
              × Takes op kind c d
              × Asks (request fd (set_work kind (c.operations op))) d)
            (begin ring kind request fuel op c)
    unfolding begin
    begin-Takes kind request fuel op fd c h there =
        Ensures-and_then (λ _ d. Changes view (λ f. f op) none_of (update (set_work kind) op c) d) _
          (get_sqe ring fuel op (update (set_work kind) op c)) _
          (get_sqe-Changes view ring laws fuel op (update (set_work kind) op c)
            (update-IsCounted (set_work kind) op c h))
          λ _ d k. rw (handle_of op fd kind c d there k.rest) (
            refl,
            prepared-Takes op kind (request fd (d.operations op)) c d k,
            (
              d.ring,
              ap (λ o. ring.prep (request fd o) d.ring)
                  (ap (λ (os : ℕ → Operation). os op) k.rest.same_operations ∙ (rw (==_refl op))),
            ),
          )

    -- The entry of a call: it is handed out, or the queue is full and its submission is refused.
    get_sqe-cases :
        (roomy : MakesRoom ring) (fuel op : ℕ) (c : Context R)
        → IsCounted view c
        → ((d : Context R) × (get_sqe ring (suc (suc fuel)) op c ≡ returns tt d))
          ⊎ Refused c (get_sqe ring (suc (suc fuel)) op c)
    unfolding get_sqe submit
    get_sqe-cases roomy fuel op c h = elim (Option-cases (ring.get_sqe c.ring)) [
      | inr (r, e) ↦ inl (claimed ring op r c, rw (e, get_sqe) refl)
      | inl full ↦ elim (Answer-cases (ring.submit c.ring)) [
        | inl (e, s, said) ↦ inr (e, s, full, said, rw (full, said, get_sqe) refl)
        | inr (n, s, said) ↦
            let m = laws.submit_moves c.ring s n said in
            let few : leb n c.submitting ≡ true = ground (arith, m.moved, h.submitting_counts) in
            elim (Option-cases (ring.get_sqe s)) [
              | inl still ↦ absurd (roomy.room c.ring s n full said still)
              | inr (r, there) ↦ inl (
                claimed ring op r (record c { ring = s; submitting = c.submitting - n }),
                rw (full, said, few, there, get_sqe) refl,
              )
            ]
      ]
    ]

    begin-cases :
        (roomy : MakesRoom ring) (kind : WorkKind) (request : ℕ → Operation → Request)
        (fuel op fd : ℕ) (c : Context R)
        → IsCounted view c
        → HasSocket c op fd
        → Started kind
            (request fd (set_work kind (c.operations op)))
            op
            c
            (begin ring kind request (suc (suc fuel)) op c)
    unfolding begin
    begin-cases roomy kind request fuel op fd c h there =
        let b = update (set_work kind) op c in
        let h' = update-IsCounted (set_work kind) op c h in
        let ask : Context R → Call (Context R) SubmitResult = λ d.
          and_then (native_handle (d.operations op).id d) (λ fd e.
            returns SubmitResult.submit (prepared ring (request fd (e.operations op)) e)) in
        elim (get_sqe-cases roomy fuel op b h') [
          | inr (e, s, full, said, thrown) ↦
              inr (e, s, full, said, ap (λ m. and_then m (λ _ d. ask d)) thrown)
          | inl (d, given) ↦
              let k =
                subst (Ensures (λ _ d. Changes view (λ f. f op) none_of b d)) given
                  (get_sqe-Changes view ring laws (suc (suc fuel)) op b h') in
              let asked =
                ap
                  (λ m. and_then m (λ fd e.
                    returns SubmitResult.submit (prepared ring (request fd (e.operations op)) e)))
                  (handle_of op fd kind c d there k.rest) in
              let done = ap (λ m. and_then m (λ _ d. ask d)) given ∙ asked in
              let both =
                subst
                  (Ensures (λ r d.
                    (r ≡ SubmitResult.submit)
                    × Takes op kind c d
                    × Asks (request fd (set_work kind (c.operations op))) d))
                  done (begin-Takes kind request (suc (suc fuel)) op fd c h there) in
              inl (prepared ring (request fd (d.operations op)) d, done, both.1, both.2)
        ]

    -- With the counters right, room in the queue after a submission, and an open socket, accept,
    -- connect, receive and send return submit, unless the queue is full and io_uring_submit is
    -- refused, whose error they then throw. Where they return, the operation is with the ring once
    -- more than before, with the function of its kind to call and a request for the handle of its
    -- socket; no other operation was moved, none was told of its end, and the counters are right.
    pub start-Started :
        (roomy : MakesRoom ring) (kind : WorkKind) (fuel op fd : ℕ) (c : Context R)
        → IsSocketWork kind
        → IsCounted view c
        → HasSocket c op fd
        → Started kind
            (request_of kind fd (c.operations op))
            op
            c
            (start ring kind (suc (suc fuel)) op c)
    unfolding accept connect receive send
    start-Started roomy cancel_work fuel op fd c s h there = absurd s
    start-Started roomy resume_at_work fuel op fd c s h there = absurd s
    start-Started roomy accept_work fuel op fd c s h there =
        begin-cases roomy accept_work (request_of accept_work) fuel op fd c h there
    start-Started roomy connect_work fuel op fd c s h there =
        begin-cases roomy connect_work (request_of connect_work) fuel op fd c h there
    start-Started roomy receive_work fuel op fd c s h there =
        begin-cases roomy receive_work (request_of receive_work) fuel op fd c h there
    start-Started roomy send_work fuel op fd c s h there =
        begin-cases roomy send_work (request_of send_work) fuel op fd c h there

    -- With the counters right and room in the queue after a submission, cancel comes to an end, and
    -- where it returns it has ended nothing: the cancelling operation is with the ring, with a
    -- request that names the other one, which is with the ring as often as before.
    pub cancel-Takes :
        (roomy : MakesRoom ring) (fuel cancel_op op : ℕ) (c : Context R)
        → IsCounted view c
        → Finishes (cancel ring (suc (suc fuel)) cancel_op op c)
          × Ensures
              (λ _ d. Takes cancel_op cancel_work c d × Asks (prep_cancel op) d)
              (cancel ring (suc (suc fuel)) cancel_op op c)
    unfolding cancel
    cancel-Takes roomy fuel cancel_op op c h = (
      cancel-Finishes ring roomy fuel cancel_op op c,
      Ensures-and_then
          (λ _ d.
            Changes view (λ f. f cancel_op) none_of (update (set_work cancel_work) cancel_op c) d)
          _ (get_sqe ring (suc (suc fuel)) cancel_op (update (set_work cancel_work) cancel_op c)) _
          (get_sqe-Changes view ring laws (suc (suc fuel)) cancel_op
            (update (set_work cancel_work) cancel_op c)
            (update-IsCounted (set_work cancel_work) cancel_op c h))
          λ _ d k. (prepared-Takes cancel_op cancel_work (prep_cancel op) c d k, (d.ring, refl)),
    )

    submitted-Takes :
        (op : ℕ) (kind : WorkKind) (c d e : Context R)
        → Takes op kind c d
        → Changes view none_of none_of d e
        → Takes op kind c e
    submitted-Takes op kind c d e t k = record {
      counted = k.counted;
      taken = λ a. omega (arith, k.balance (unit a), t.taken a);
      untold = k.rest.same_signals ∙ t.untold;
      has_work = ap (λ (os : ℕ → Operation). (os op).work) k.rest.same_operations ∙ t.has_work;
      installed = λ ready a known.
          subst (λ (os : ℕ → Operation). (os a).work ≢ none) (sym k.rest.same_operations)
            (t.installed ready a (omega (arith, k.balance (unit a))));
    }

    -- With the counters right and room in the queue after a submission, resume_at comes to an end:
    -- it returns submit, or io_uring_submit was refused and it throws. Where it returns, the timer
    -- is with the ring once more than before, with its function to call; no other operation was
    -- moved, none was told of its end, and the counters are right.
    pub resume_at-Takes :
        (roomy : MakesRoom ring) (fuel op : ℕ) (c : Context R)
        → IsCounted view c
        → Finishes (resume_at ring (suc (suc fuel)) op c)
          × Ensures
              (λ r d. (r ≡ SubmitResult.submit) × Takes op resume_at_work c d)
              (resume_at ring (suc (suc fuel)) op c)
    unfolding resume_at
    resume_at-Takes roomy fuel op c h = (
      resume_at-Finishes ring roomy fuel op c,
      Ensures-and_then
          (λ _ d. Changes view (λ f. f op) none_of (update (set_work resume_at_work) op c) d) _
          (get_sqe ring (suc (suc fuel)) op (update (set_work resume_at_work) op c)) _
          (get_sqe-Changes view ring laws (suc (suc fuel)) op
            (update (set_work resume_at_work) op c)
            (update-IsCounted (set_work resume_at_work) op c h))
          λ _ d k.
            let q = timeout_of (make_timespec (d.operations op).at) in
            let t = prepared-Takes op resume_at_work q c d k in
            Ensures-and_then (λ _ e. Changes view none_of none_of (prepared ring q d) e) _
              (submit ring (prepared ring q d)) _
              (submit-Changes view ring laws (prepared ring q d) t.counted)
              λ _ e m. (refl, submitted-Takes op resume_at_work c (prepared ring q d) e t m),
    )
