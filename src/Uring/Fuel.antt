-- ===== src/Uring/Fuel.antt =====
-- Two rounds of fuel are enough for the loop in `get_sqe` of uring_context.hpp, and so for every
-- call that starts an operation.
use net.Prelude.{ℕ, suc, ◌≡◌, ◌≢◌, refl, inl, inr, none, leb, Bool-cases, Option-cases}
use net.Container
use net.Uring.{
  Call, returns, throws, undefined, terminated, unfinished, and_then, Answer, accepted, refused,
  Ring, cancel_work, resume_at_work, Context, native_handle, submit, flushed, get_sqe, update,
}
use net.Uring.Work.{resume_at, cancel, prepared, set_work, timeout_of, make_timespec}
use net.Uring.Laws.{MakesRoom}
use net.Uring.Counts.{pair_path}

-- The call comes to an end, whatever that is.
abbrev pub Finishes : {S A : Type 0} → Call S A → Type 0
Finishes unfinished = ⊥
Finishes _ = Unit {0}

Finishes-and_then :
    {S A B : Type 0} (m : Call S A) (k : A → S → Call S B)
    → Finishes m
    → ((a : A) (d : S) → Finishes (k a d))
    → Finishes (and_then m k)
Finishes-and_then (returns a d) k f next = next a d
Finishes-and_then (throws e) k f next = tt
Finishes-and_then undefined k f next = tt
Finishes-and_then terminated k f next = tt
Finishes-and_then unfinished k f next = f

module _ {R : Type 0} (ring : Ring R) where
  native_handle-Finishes : (id : ℕ) (c : Context R) → Finishes (native_handle id c)
  unfolding native_handle
  native_handle-Finishes id c = elim (Option-cases (Container.lookup id c.sockets)) [
    | inl e ↦ rw (e, native_handle) tt
    | inr (fd, e) ↦ rw (e, native_handle) tt
  ]

  flushed-Finishes : (a : Answer) (s : R) (c : Context R) → Finishes (flushed ring a s c)
  flushed-Finishes (refused e) s c = tt
  flushed-Finishes (accepted n) s c = elim (Bool-cases (leb n c.submitting)) [
    | inl few ↦ rw few tt
    | inr many ↦ rw many tt
  ]

  module _ (roomy : MakesRoom ring) where
    -- The second round, after the answer to the submission.
    retried-Finishes :
        (fuel op : ℕ) (a : Answer) (s : R) (c : Context R)
        → ((n : ℕ) → a ≡ accepted n → ring.get_sqe s ≢ none)
        → Finishes (and_then (flushed ring a s c) λ _ d. get_sqe ring (suc fuel) op d)
    unfolding get_sqe
    retried-Finishes fuel op (refused e) s c room = tt
    retried-Finishes fuel op (accepted n) s c room = elim (Bool-cases (leb n c.submitting)) [
      | inr many ↦ rw many tt
      | inl few ↦ elim (Option-cases (ring.get_sqe s)) [
        | inl e ↦ absurd (room n refl e)
        | inr (r, e) ↦ rw (few, e, get_sqe) tt
      ]
    ]

    get_sqe-Finishes : (fuel op : ℕ) (c : Context R) → Finishes (get_sqe ring (suc (suc fuel)) op c)
    unfolding get_sqe submit
    get_sqe-Finishes fuel op c = elim (Option-cases (ring.get_sqe c.ring)) [
      | inr (r, e) ↦ rw (e, get_sqe) tt
      | inl e ↦
          rw (e, get_sqe)
            (retried-Finishes fuel op (ring.submit c.ring).0 (ring.submit c.ring).1 c
              (λ n said. roomy.room c.ring (ring.submit c.ring).1 n e (pair_path said)))
    ]

    pub resume_at-Finishes :
        (fuel op : ℕ) (c : Context R) → Finishes (resume_at ring (suc (suc fuel)) op c)
    unfolding resume_at submit
    resume_at-Finishes fuel op c =
        Finishes-and_then (get_sqe ring (suc (suc fuel)) op (update (set_work resume_at_work) op c))
          _ (get_sqe-Finishes fuel op (update (set_work resume_at_work) op c))
          λ _ d.
            let asked = prepared ring (timeout_of (make_timespec (d.operations op).at)) d in
            Finishes-and_then
              (flushed ring (ring.submit asked.ring).0 (ring.submit asked.ring).1 asked) _
              (flushed-Finishes (ring.submit asked.ring).0 (ring.submit asked.ring).1 asked)
              λ _ _. tt

    pub cancel-Finishes :
        (fuel cancel_op op : ℕ) (c : Context R)
        → Finishes (cancel ring (suc (suc fuel)) cancel_op op c)
    unfolding cancel
    cancel-Finishes fuel cancel_op op c =
        Finishes-and_then
          (get_sqe ring (suc (suc fuel)) cancel_op (update (set_work cancel_work) cancel_op c)) _
          (get_sqe-Finishes fuel cancel_op (update (set_work cancel_work) cancel_op c)) λ _ _. tt
