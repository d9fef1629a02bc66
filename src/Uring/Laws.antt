-- ===== src/Uring/Laws.antt =====
-- What liburing documents of the calls that uring_context.hpp makes of it, as far as the theorems
-- on `net.Uring` need it, in terms of the operations that stand in the submission queue and those
-- that the kernel was given and whose completion was not read. Lists are compared by the sum of
-- any weight over them, so the order in which the kernel takes and answers requests is free.
use net.Prelude.{ℕ, ◌+◌, ◌≡◌, ◌≢◌, none, some, List, total, length}
use net.Prelude.Int.{ℤ}
use net.Uring.{Request, accepted, got, Ring}

-- The operations in the two stages, as lists of their numbers.
pub record Stages (R : Type 0) : Type 0 where
  pub queued : R → List ℕ
  pub inflight : R → List ℕ

module _ {R : Type 0} (ring : Ring R) (view : Stages R) where
  open view use {queued, inflight}

  -- A submission moves entries from the first stage to the second, and says how many.
  pub record Moves (n : ℕ) (r s : R) : Type 0 where
    pub moved : n + length (queued s) ≡ length (queued r)
    pub conserved :
        (f : ℕ → ℕ)
        → total f (queued s) + total f (inflight s) ≡ total f (queued r) + total f (inflight r)

  pub record IsLawful : Type 0 where
    -- an entry that was handed out and given an operation is the last of the queue
    pub get_queued :
        (r s : R) (op : ℕ)
        → ring.get_sqe r ≡ some s
        → (f : ℕ → ℕ) → total f (queued (ring.set_data op s)) ≡ f op + total f (queued r)
    pub get_inflight :
        (r s : R) (op : ℕ) → ring.get_sqe r ≡ some s → inflight (ring.set_data op s) ≡ inflight r
    pub prep_queued : (q : Request) (r : R) → queued (ring.prep q r) ≡ queued r
    pub prep_inflight : (q : Request) (r : R) → inflight (ring.prep q r) ≡ inflight r
    pub submit_moves : (r s : R) (n : ℕ) → ring.submit r ≡ (accepted n, s) → Moves n r s
    pub submit_and_wait_moves :
        (r s : R) (least n : ℕ) → ring.submit_and_wait least r ≡ (accepted n, s) → Moves n r s
    pub wait_queued :
        (r s : R) (res : ℤ) (op : ℕ)
        → ring.wait_cqe r ≡ (got res op, s)
        → queued (ring.cqe_seen s) ≡ queued r
    -- a completion is that of a request that the kernel had
    pub wait_inflight :
        (r s : R) (res : ℤ) (op : ℕ)
        → ring.wait_cqe r ≡ (got res op, s)
        → (f : ℕ → ℕ) → total f (inflight r) ≡ f op + total f (inflight (ring.cqe_seen s))

-- A submission that succeeds on a full queue makes room in it.
pub record MakesRoom {R : Type 0} (ring : Ring R) : Type 0 where
  pub room :
      (r s : R) (n : ℕ)
      → ring.get_sqe r ≡ none
      → ring.submit r ≡ (accepted n, s)
      → ring.get_sqe s ≢ none
