-- ===== src/Uring/Work.antt =====
-- The operations of uring_context.hpp: the functions that `work` points at, which a completion
-- calls with its result in `extra`, and the calls that put a request into the ring.
use net.Prelude.{ℕ, zero, suc, ◌/◌, ◌%◌, Bool, false, Option, none, some, ◌==◌, ◌||◌, if◌then◌else◌}
use net.Prelude.Int.{ℤ, pos, negsuc}
use net.Event.{SubmitResult}
use net.Uring.{
  Call, returns, undefined, and_then, Request, prep_accept, prep_connect, prep_recvmsg,
  prep_sendmsg, prep_timeout, prep_cancel, Ring, WorkKind, cancel_work, accept_work, connect_work,
  receive_work, send_work, resume_at_work, Operation, completed, failed_with, cancelled, Context,
  signal, update, make_socket, native_handle, submit, get_sqe,
}

-- The error codes that the source tells apart.
abbrev pub enoent : ℕ
enoent = 2

abbrev pub etime : ℕ
etime = 62

abbrev pub ealready : ℕ
ealready = 114

abbrev pub ecanceled : ℕ
ecanceled = 125

-- `res == -e`, for an error code `e`, which is not 0.
abbrev pub is_minus : ℕ → ℤ → Bool
is_minus e (pos n) = false
is_minus e (negsuc n) = suc n == e

-- `-n`.
abbrev pub minus : ℤ → ℤ
minus (pos zero) = pos zero
minus (pos (suc n)) = negsuc n
minus (negsuc n) = pos (suc n)

abbrev pub set_socket : ℕ → Operation → Operation
set_socket id o = record o { socket = some id }

-- A `size_t` from an `int`.
abbrev pub set_count : ℕ → Operation → Operation
set_count n o = record o { count = n }

abbrev pub set_work : WorkKind → Operation → Operation
set_work kind o = record o { work = some kind }

abbrev pub set_extra : ℤ → Operation → Operation
set_extra res o = record o { extra = some res }

-- The results by which a request says that it was cancelled, or that there was nothing to cancel.
unfoldable pub is_cancelled : WorkKind → ℤ → Bool
is_cancelled cancel_work res = is_minus enoent res || is_minus ealready res
is_cancelled _ res = is_minus ecanceled res

module _ {R : Type 0} where
  -- `complete()`, `error(-res)` and `cancel()`, with the result that the caller then returns.
  abbrev pub finish : ℕ → Context R → Call (Context R) SubmitResult
  finish op c = returns SubmitResult.ready (signal (completed op) c)

  abbrev pub fail : ℤ → ℕ → Context R → Call (Context R) SubmitResult
  fail res op c = returns SubmitResult.error (signal (failed_with op (minus res)) c)

  abbrev pub give_up : ℕ → Context R → Call (Context R) SubmitResult
  give_up op c = returns SubmitResult.ready (signal (cancelled op) c)

  -- The end of the `work` function of each kind, for a result that is not negative.
  unfoldable pub succeed : WorkKind → ℕ → ℕ → Context R → Call (Context R) SubmitResult
  unfolding make_socket
  succeed cancel_work n op c = finish op c
  succeed accept_work n op c =
      and_then (make_socket n c) λ id d. finish op (update (set_socket id) op d)
  succeed connect_work n op c = finish op c
  succeed receive_work n op c = finish op (update (set_count n) op c)
  succeed send_work n op c = finish op (update (set_count n) op c)
  succeed resume_at_work n op c = fail (pos n) op c

  -- And the end for one that is negative and no cancellation.
  unfoldable pub fall : WorkKind → ℕ → ℕ → Context R → Call (Context R) SubmitResult
  fall resume_at_work n op c = if suc n == etime then finish op c else fail (negsuc n) op c
  fall _ n op c = fail (negsuc n) op c

  unfoldable pub run_work : WorkKind → ℤ → ℕ → Context R → Call (Context R) SubmitResult
  unfolding succeed is_cancelled fall
  run_work kind (pos n) op c = succeed kind n op c
  run_work kind (negsuc n) op c =
      if is_cancelled kind (negsuc n) then give_up op c else fall kind n op c

  -- The functions read their result through `extra`.
  abbrev pub with_extra : WorkKind → Option ℤ → ℕ → Context R → Call (Context R) SubmitResult
  with_extra kind none op c = undefined
  with_extra kind (some res) op c = run_work kind res op c

  abbrev pub with_work : Option WorkKind → ℕ → Context R → Call (Context R) SubmitResult
  with_work none op c = undefined
  with_work (some kind) op c = with_extra kind (c.operations op).extra op c

  -- `op->work(*this, op)`.
  unfoldable pub work : ℕ → Context R → Call (Context R) SubmitResult
  unfolding run_work
  work op c = with_work (c.operations op).work op c

-- `make_timespec` of a time in nanoseconds: the seconds, cut towards 0, and what is left.
unfoldable pub make_timespec : ℤ → ℤ × ℤ
make_timespec (pos n) = (pos (n / 1000000000), pos (n % 1000000000))
make_timespec (negsuc n) = (minus (pos (suc n / 1000000000)), minus (pos (suc n % 1000000000)))

abbrev pub timeout_of : ℤ × ℤ → Request
timeout_of t = prep_timeout t.0 t.1

module _ {R : Type 0} (ring : Ring R) where
  -- `io_uring_prep_...` of the entry that `get_sqe` returned.
  abbrev pub prepared : Request → Context R → Context R
  prepared q c = record c { ring = ring.prep q c.ring }

  -- What the calls on a socket share: the request is made of its handle and the operation.
  unfoldable pub begin :
      WorkKind → (ℕ → Operation → Request) → ℕ → ℕ → Context R → Call (Context R) SubmitResult
  begin kind request fuel op c =
      and_then (get_sqe ring fuel op (update (set_work kind) op c)) λ _ d.
        and_then (native_handle (d.operations op).id d)
          λ fd e. returns SubmitResult.submit (prepared (request fd (e.operations op)) e)

  unfoldable pub accept : ℕ → ℕ → Context R → Call (Context R) SubmitResult
  unfolding begin
  accept = begin accept_work (λ fd o. prep_accept fd)

  unfoldable pub connect : ℕ → ℕ → Context R → Call (Context R) SubmitResult
  unfolding begin
  connect = begin connect_work (λ fd o. prep_connect fd)

  unfoldable pub receive : ℕ → ℕ → Context R → Call (Context R) SubmitResult
  unfolding begin
  receive = begin receive_work (λ fd o. prep_recvmsg fd o.flags)

  unfoldable pub send : ℕ → ℕ → Context R → Call (Context R) SubmitResult
  unfolding begin
  send = begin send_work (λ fd o. prep_sendmsg fd o.flags)

  unfoldable pub resume_at : ℕ → ℕ → Context R → Call (Context R) SubmitResult
  resume_at fuel op c =
      and_then (get_sqe ring fuel op (update (set_work resume_at_work) op c)) λ _ d.
        and_then (submit ring (prepared (timeout_of (make_timespec (d.operations op).at)) d))
          λ _ e. returns SubmitResult.submit e

  unfoldable pub cancel : ℕ → (cancel_op op : ℕ) → Context R → Call (Context R) (Unit {0})
  cancel fuel cancel_op op c =
      and_then (get_sqe ring fuel cancel_op (update (set_work cancel_work) cancel_op c))
        λ _ d. returns tt (prepared (prep_cancel op) d)
