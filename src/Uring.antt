-- ===== src/Uring.antt =====
-- include/beman/net/detail/uring_context.hpp: the context on top of io_uring. liburing is not part
-- of the repository: `Ring` has the calls that the source makes of it, over a state `R` of any
-- type, which stands for the two queues, the kernel and what the kernel will answer. `Context` is
-- the object, with the operations that it points at, by number, and a log of the virtual calls
-- that it makes, newest first. The children are the functions that `work` points at and the calls
-- that start an operation (`Work`), the loop (`Run`), and what is proved of them.
pub mod Work
pub mod Run
pub mod Sockets
pub mod Laws
pub mod Counts
pub mod Fuel
pub mod Starts
pub mod Ends
pub mod Once
pub mod Timespec
pub mod Interrupted
mod Examples
use net.Prelude.{
  ℕ, zero, suc, ◌+◌, ◌-◌, Bool, true, false, Option, none, some, List, [], ◌∷◌, leb, ltb, ◌==◌,
  if◌then◌else◌,
}
use net.Prelude.Int.{ℤ}
use net.Container
use net.Container.{Container}

-- How a call ends. `throws` is a `std::system_error` with its code, `undefined` is a failed
-- `assert`, undefined behaviour or another exception, `terminated` is `std::terminate`, and
-- `unfinished` says that the fuel of a loop is used up.
pub data Call (S A : Type 0) : Type 0 where
  returns : A → S → Call S A
  throws : ℕ → Call S A
  undefined terminated unfinished : Call S A

abbrev pub and_then : {S A B : Type 0} → Call S A → (A → S → Call S B) → Call S B
and_then (returns a s) k = k a s
and_then (throws e) k = throws e
and_then undefined k = undefined
and_then terminated k = terminated
and_then unfinished k = unfinished

-- An exception leaves a `noexcept` function.
abbrev pub no_except : {S A : Type 0} → Call S A → Call S A
no_except (returns a s) = returns a s
no_except (throws e) = terminated
no_except undefined = undefined
no_except terminated = terminated
no_except unfinished = unfinished

-- What the `io_uring_prep_` functions write into an entry of the submission queue, which also
-- holds the operation (`io_uring_sqe_set_data`). Buffers and endpoints are parts of the operation.
pub data Request : Type 0 where
  prep_accept prep_connect : (fd : ℕ) → Request
  prep_recvmsg prep_sendmsg : (fd flags : ℕ) → Request
  prep_timeout : (tv_sec tv_nsec : ℤ) → Request
  prep_cancel : (op : ℕ) → Request

-- A number of entries, or -1 times an error code.
pub data Answer : Type 0 where
  accepted : ℕ → Answer
  refused : ℕ → Answer

-- The result and the data of an entry of the completion queue, or an error code.
pub data Completion : Type 0 where
  got : (res : ℤ) (op : ℕ) → Completion
  not_got : ℕ → Completion

pub record Ring (R : Type 0) : Type 0 where
  -- a free entry, if there is one
  pub get_sqe : R → Option R
  -- into the entry that was handed out last
  pub set_data : ℕ → R → R
  pub prep : Request → R → R
  pub submit : R → Answer × R
  pub submit_and_wait : ℕ → R → Answer × R
  pub wait_cqe : R → Completion × R
  pub cqe_seen : R → R

pub data WorkKind : Type 0 where
  cancel_work accept_work connect_work receive_work send_work resume_at_work : WorkKind

-- `io_base` and `io_operation`: `extra` points at the result of an entry, `at` is the time point
-- of a timer in nanoseconds, `count` the third part of a receive or send operation, `socket` that
-- of an accept operation.
pub record Operation : Type 0 where
  pub id : ℕ
  pub work : Option WorkKind
  pub extra : Option ℤ
  pub flags : ℕ
  pub at : ℤ
  pub count : ℕ
  pub socket : Option ℕ

pub data Signal : Type 0 where
  completed : ℕ → Signal
  failed_with : ℕ → ℤ → Signal
  cancelled : ℕ → Signal
  -- `complete` of a task
  ran : ℕ → Signal

pub record Context (R : Type 0) : Type 0 where
  pub ring : R
  pub sockets : Container ℕ
  pub tasks : List ℕ
  pub submitting : ℕ
  pub outstanding : ℕ
  pub operations : ℕ → Operation
  pub signals : List Signal

module _ {R : Type 0} where
  abbrev pub signal : Signal → Context R → Context R
  signal s c = record c { signals = s ∷ c.signals }

  abbrev pub update : (Operation → Operation) → ℕ → Context R → Context R
  update f op c = record c {
    operations = λ o. if o == op then f (c.operations o) else c.operations o;
  }

  unfoldable pub make_socket : ℕ → Context R → Call (Context R) ℕ
  make_socket fd c = elim (Container.insert fd c.sockets) [
    | none ↦ undefined
    | some (id, sockets) ↦ returns id (record c { sockets = sockets })
  ]

  unfoldable pub native_handle : ℕ → Context R → Call (Context R) ℕ
  native_handle id c = elim (Container.lookup id c.sockets) [
    | none ↦ undefined
    | some fd ↦ returns fd c
  ]

  unfoldable pub process_task : Context R → ℕ × Context R
  process_task c = elim c.tasks [
    | [] ↦ (0, c)
    | t ∷ rest ↦ (1, signal (ran t) (record c { tasks = rest }))
  ]

  unfoldable pub schedule : ℕ → Context R → Context R
  schedule t c = record c { tasks = t ∷ c.tasks }

module _ {R : Type 0} (ring : Ring R) where
  -- What `submit` does with the answer of `io_uring_submit`, and `run_one` with that of
  -- `io_uring_submit_and_wait`.
  abbrev pub flushed : Answer → R → Context R → Call (Context R) (Unit {0})
  flushed (refused e) r c = throws e
  flushed (accepted n) r c =
      if leb n c.submitting
      then returns tt (record c { ring = r; submitting = c.submitting - n })
      else undefined

  unfoldable pub submit : Context R → Call (Context R) (Unit {0})
  submit c = flushed (ring.submit c.ring).0 (ring.submit c.ring).1 c

  -- The end of `get_sqe`, with the ring that handed out an entry.
  abbrev pub claimed : ℕ → R → Context R → Context R
  claimed op r c = record c {
    ring = ring.set_data op r;
    submitting = c.submitting + 1;
    outstanding = c.outstanding + 1;
  }

  -- `get_sqe`. Each round of its loop takes one piece of fuel.
  unfoldable pub get_sqe : ℕ → ℕ → Context R → Call (Context R) (Unit {0})
  unfolding submit
  get_sqe zero op c = unfinished
  get_sqe (suc fuel) op c = elim (ring.get_sqe c.ring) [
    | some r ↦ returns tt (claimed op r c)
    | none ↦ and_then (submit c) λ _ d. get_sqe fuel op d
  ]

  abbrev pub waited : Completion → R → Context R → Call (Context R) (ℤ × ℕ)
  waited (not_got e) r c = throws e
  waited (got res op) r c =
      if ltb 0 c.outstanding
      then returns (res, op) (record c { ring = ring.cqe_seen r; outstanding = c.outstanding - 1 })
      else undefined

  unfoldable pub wait : Context R → Call (Context R) (ℤ × ℕ)
  wait c = waited (ring.wait_cqe c.ring).0 (ring.wait_cqe c.ring).1 c
