-- ===== src/Poll.antt =====
-- include/beman/net/detail/poll_context.hpp: the context that waits by `poll(2)`. `Context` is
-- the object, with the operations that it points at (`operations`, by number) and a log of the
-- virtual calls `complete`, `error` and `cancel` that it makes, newest first. In every handler
-- such a call is the last thing done to the context, so what the callee does to the context in
-- turn is a further step of its history. The timers are the sequence that `net.SortedList` proves
-- its pointer code to implement; the list of tasks is a stack. Answers of the operating system are
-- arguments. The children are the operations on sockets and their `work` functions (`Work`), the
-- event loop (`Run`), and what is proved of them.
pub mod Work
pub mod Run
pub mod Ledger
pub mod Told
pub mod Conservation
pub mod RunOne
pub mod Calls
pub mod Start
pub mod HangUp
pub mod Lost
pub mod Timing
pub mod Idle
pub mod Progress
pub mod Removal
mod Examples
use net.Prelude.{
  ℕ, zero, suc, ◌+◌, ◌-◌, ◌≡◌, Bool, true, false, Option, none, some, List, [], ◌∷◌, ◌++◌, ltb, leb,
  ◌==◌, if◌then◌else◌, length, get_elem?, set, not,
}
use net.Prelude.Outcome.{Outcome, returns, waits, undefined, terminated, and_then}
use net.Container
use net.Container.{Container}
use net.Event.{EventType, PollBits, SubmitResult}
use net.SortedList.View.{insert_sorted, remove, contains}

-- The `errno` values that the source tells apart; EWOULDBLOCK is EAGAIN.
pub data Errno : Type 0 where
  eintr eagain econnreset epipe einprogress : Errno
  code : ℕ → Errno

-- What a system call returns: a number that is not negative, or -1 and `errno`.
pub data Rc : Type 0 where
  ok : ℕ → Rc
  failed : Errno → Rc

-- The function that `work` points at.
pub data WorkKind : Type 0 where
  poll_work accept_work connect_work receive_work send_work : WorkKind

-- `io_base` and `io_operation`: `deadline` is the time point of a timer, `count` the third part of
-- a receive or send operation, `accepted` that of an accept operation.
pub record Operation : Type 0 where
  pub id : ℕ
  pub event : EventType
  pub work : Option WorkKind
  pub deadline : ℕ
  pub count : ℕ
  pub accepted : Option ℕ

pub record PollRecord : Type 0 where
  pub handle : ℕ
  pub blocking : Bool

pub record PollFd : Type 0 where
  pub fd : ℕ
  pub events : PollBits
  pub revents : PollBits

pub data Signal : Type 0 where
  completed : ℕ → Signal
  failed_with : ℕ → Errno → Signal
  cancelled : ℕ → Signal
  -- `complete` of a task
  ran : ℕ → Signal

pub record Context : Type 0 where
  pub d_sockets : Container PollRecord
  pub d_poll : List PollFd
  pub d_outstanding : List ℕ
  pub d_timeouts : List ℕ
  pub d_tasks : List ℕ
  pub operations : ℕ → Operation
  pub signals : List Signal

abbrev pub M : Type 0 → Type 0
M A = Context → Outcome Context A

abbrev pub signal : Signal → Context → Context
signal s c = record c { signals = s ∷ c.signals }

abbrev pub update : (Operation → Operation) → ℕ → Context → Context
update f op c = record c {
  operations = λ o. if o == op then f (c.operations o) else c.operations o;
}

-- `get_time`.
abbrev pub deadline_of : Context → ℕ → ℕ
deadline_of c op = (c.operations op).deadline

-- `make_socket` of a handle.
unfoldable pub make_socket : ℕ → M ℕ
make_socket fd c = elim (Container.insert (record { handle = fd; blocking = true }) c.d_sockets) [
  | none ↦ undefined
  | some (id, sockets) ↦ returns id (record c { d_sockets = sockets })
]

-- `make_socket` by `socket(2)`, with its answer: the id, and the error if there is one.
unfoldable pub open_socket : Rc → M (ℕ × Option Errno)
unfolding make_socket
open_socket (failed e) c = returns (Container.invalid, some e) c
open_socket (ok fd) c = and_then (make_socket fd c) (λ id. returns (id, none))

-- `native_handle`.
unfoldable pub native_handle : ℕ → M ℕ
native_handle id c = elim (Container.lookup id c.d_sockets) [
  | none ↦ undefined
  | some r ↦ returns r.handle c
]

-- `if (call < 0) error = errno;`
abbrev pub error_of : Rc → Option Errno
error_of (ok _) = none
error_of (failed e) = some e

-- `release`, with the answer of `close(2)`.
unfoldable pub release : ℕ → Rc → M (Option Errno)
release id closed c = elim (Container.lookup id c.d_sockets) [
  | none ↦ undefined
  | some r ↦ elim (Container.erase id c.d_sockets) [
    | none ↦ undefined
    | some sockets ↦ returns (error_of closed) (record c { d_sockets = sockets })
  ]
]

-- Each takes the system call that it makes as an argument.
unfoldable pub set_option :
    {V : Type 0} → (ℕ → ℕ → ℕ → V → Rc) → (id level name : ℕ) → V → M (Option Errno)
unfolding native_handle
set_option setsockopt id level name value c =
    and_then (native_handle id c) λ handle. returns (error_of (setsockopt handle level name value))

unfoldable pub bind : (ℕ → List ℕ → Rc) → (id : ℕ) → List ℕ → M (Option Errno)
unfolding native_handle
bind bind_call id endpoint c =
    and_then (native_handle id c) λ handle. returns (error_of (bind_call handle endpoint))

unfoldable pub listen : (ℕ → ℕ → Rc) → (id backlog : ℕ) → M (Option Errno)
unfolding native_handle
listen listen_call id backlog c =
    and_then (native_handle id c) λ handle. returns (error_of (listen_call handle backlog))

unfoldable pub process_task : Context → ℕ × Context
process_task c = elim c.d_tasks [
  | [] ↦ (0, c)
  | task ∷ rest ↦ (1, signal (ran task) (record c { d_tasks = rest }))
]

unfoldable pub process_timeout : ℕ → Context → ℕ × Context
process_timeout now c = elim c.d_timeouts [
  | [] ↦ (0, c)
  | op ∷ rest ↦
      if leb (deadline_of c op) now
      then (1, signal (completed op) (record c { d_timeouts = rest }))
      else (0, c)
]

module _ {A : Type 0} where
  -- `xs[i] = xs.back()` and `xs.pop_back()`.
  unfoldable pub put_back : List A → ℕ → List A
  put_back xs i = elim (get_elem? xs (length xs - 1)) [ none ↦ xs | some b ↦ set xs i b ]

  abbrev pub pop_back : List A → List A
  pop_back [] = []
  pop_back (x ∷ []) = []
  pop_back (x ∷ y ∷ xs) = x ∷ pop_back (y ∷ xs)

-- Its callers pass an index below both sizes.
unfoldable pub remove_outstanding : ℕ → Context → Context
unfolding put_back
remove_outstanding i c =
    let moved =
      if i + 1 == length c.d_poll
      then c
      else record c { d_poll = put_back c.d_poll i; d_outstanding = put_back c.d_outstanding i } in
    record moved { d_poll = pop_back moved.d_poll; d_outstanding = pop_back moved.d_outstanding }

-- `std::find` as an index.
abbrev pub index_of : ℕ → List ℕ → Option ℕ
index_of op [] = none
index_of op (x ∷ xs) =
    if x == op then some 0 else (elim (index_of op xs) [ none ↦ none | some i ↦ some (suc i) ])

unfoldable pub cancel : (cancel_op op : ℕ) → M (Unit {0})
unfolding remove_outstanding
cancel cancel_op op c =
    let both =
      λ (d : Context). returns tt (signal (cancelled cancel_op) (signal (cancelled op) d)) in
    elim (index_of op c.d_outstanding) [
      | some i ↦ both (remove_outstanding i c)
      | none ↦
          if contains op c.d_timeouts
          then both (record c { d_timeouts = remove op c.d_timeouts })
          else terminated
    ]

unfoldable pub schedule : ℕ → Context → Context
schedule task c = record c { d_tasks = task ∷ c.d_tasks }

-- `resume_at`, with the time that the clock shows.
unfoldable pub resume_at : (now op : ℕ) → Context → SubmitResult × Context
resume_at now op c =
    if ltb now (deadline_of c op)
    then (
      SubmitResult.submit,
      record c { d_timeouts = insert_sorted ltb (deadline_of c) op c.d_timeouts },
    )
    else (SubmitResult.ready, signal (completed op) c)
