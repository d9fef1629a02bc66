-- ===== src/Poll/RunOne.antt =====
-- `run_one` of `net.Poll.Run` as a whole: it keeps account of every operation.
use net.Prelude.{
  ℕ, ◌≡◌, refl, ◌⊎◌, inl, inr, List, [], ◌∷◌, Bool-cases, Option-cases, ℕ-cases, if◌then◌else◌,
  length, ltb, ◌&&◌,
}
use net.Prelude.Outcome.{Outcome, returns}
use net.Event.{PollBits}
use net.Poll.{Errno, Context, process_task, process_timeout}
use net.Poll.Work.{System}
use net.Poll.Run.{
  Round, PollAnswer, refused, polled, timeout, set_revents, scan, dispatch, is_retried, wait_loop,
  is_nil, run_one,
}
use net.Poll.Told.{Ensures, Prompt}
use net.Poll.Conservation.{
  IsAligned, Keeps, process_timeout-Keeps, process_task-Keeps, dispatch-Keeps, set_revents-Keeps,
  Ensures-Keeps, Keeps-refl, Keeps-trans,
}

pub PollAnswer-cases :
    (x : PollAnswer)
    → ((e : Errno) × (x ≡ refused e)) ⊎ ((bits : List PollBits) × (x ≡ polled bits))
PollAnswer-cases (refused e) = inl (e, refl)
PollAnswer-cases (polled bits) = inr (bits, refl)

module _ (sys : System) (ticks now : ℕ) (prompt : Prompt sys) where
  wait_loop-Keeps :
      (rounds : List Round) (c : Context)
      → IsAligned c
      → Ensures (λ _ d. Keeps c d) (wait_loop sys ticks now rounds c)
  unfolding wait_loop
  wait_loop-Keeps [] c h = tt
  wait_loop-Keeps (r ∷ rounds) c h =
      elim (PollAnswer-cases (r.poll_call c.d_poll (timeout ticks now c))) [
        | inl (e, said) ↦
            rw (said, wait_loop)
              (elim (Bool-cases (is_retried e)) [
                | inl again ↦ rw (again, wait_loop) (wait_loop-Keeps rounds c h)
                | inr over ↦ rw (over, wait_loop) (Keeps-refl c h)
              ])
        | inr (bits, said) ↦
            let d = record c { d_poll = set_revents c.d_poll bits } in
            let start : Keeps c d = set_revents-Keeps c bits h in
            let fired : Keeps d (process_timeout r.later d).1 =
              process_timeout-Keeps r.later d start.aligned in
            rw (said, wait_loop)
              (elim (Option-cases (scan (length d.d_poll) d.d_poll)) [
                | inr (i, found) ↦
                    rw (found, wait_loop)
                      (Ensures-Keeps (dispatch sys i d) start
                        (dispatch-Keeps sys i d prompt start.aligned))
                | inl silent ↦
                    rw (silent, wait_loop)
                      (elim (ℕ-cases (process_timeout r.later d).0) [
                        | inr (k, due) ↦ rw (due, wait_loop) (Keeps-trans start fired)
                        | inl early ↦
                            rw (early, wait_loop)
                              (Ensures-Keeps
                                (wait_loop sys ticks now rounds (process_timeout r.later d).1)
                                (Keeps-trans start fired)
                                (wait_loop-Keeps rounds (process_timeout r.later d).1
                                  fired.aligned))
                      ])
              ])
      ]

  -- The rest of `run_one`, once no timer was due and no task was there.
  abbrev waits_or_stops : List Round → Context → Outcome Context ℕ
  waits_or_stops rounds e =
      if is_nil e.d_poll && is_nil e.d_timeouts
      then returns 0 e
      else wait_loop sys ticks now rounds e

  waits_or_stops-Keeps :
      (rounds : List Round) (c e : Context)
      → Keeps c e
      → Ensures (λ _ d. Keeps c d) (waits_or_stops rounds e)
  waits_or_stops-Keeps rounds c e k = elim (Bool-cases (is_nil e.d_poll && is_nil e.d_timeouts)) [
    | inl empty ↦ rw empty k
    | inr some_left ↦
        rw some_left
          (Ensures-Keeps (wait_loop sys ticks now rounds e) k (wait_loop-Keeps rounds e k.aligned))
  ]

  -- Whenever `run_one` returns, then for every operation the number of its places in the queues
  -- and of the calls that told it of its end is, taken together, what it was before, and the two
  -- vectors are still of one size; this supposes that they were, and that a call on a socket does
  -- not say EAGAIN after `poll(2)` said that the socket is ready.
  pub run_one-Keeps :
      (rounds : List Round) (c : Context)
      → IsAligned c
      → Ensures (λ _ d. Keeps c d) (run_one sys ticks now rounds c)
  unfolding run_one
  run_one-Keeps rounds c h =
      let timed = process_timeout-Keeps now c h in
      let tasked = process_task-Keeps (process_timeout now c).1 timed.aligned in
      elim (Bool-cases (ltb 0 (process_timeout now c).0)) [
        | inl due ↦ rw (due, run_one) timed
        | inr early ↦
            rw (early, run_one)
              (elim (Bool-cases (ltb 0 (process_task (process_timeout now c).1).0)) [
                | inl ran ↦ rw (ran, run_one) (Keeps-trans timed tasked)
                | inr idle ↦
                    rw (idle, run_one) (waits_or_stops-Keeps rounds c _ (Keeps-trans timed tasked))
              ])
      ]
