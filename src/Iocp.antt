-- ===== src/Iocp.antt =====
-- include/beman/net/detail/iocp_context.hpp: the context on top of Windows completion ports.
-- `Context` is the object. The `iocp_socket_data` of a socket is a block of the heap, by number;
-- `blocks` says which are allocated, and a `Pointer` is the `OVERLAPPED` of one direction in one of
-- them. `operations` holds the operations that the context points at, `signals` logs the virtual
-- calls that it makes and `closed` the handles that it closes, newest first. The timers are the
-- sequence that `net.SortedList` proves its pointer code to implement. Answers of the operating
-- system are arguments. The children are the operations (`Work`), the loop (`Run`), and what is
-- proved of them.
pub mod Work
pub mod Run
pub mod Waits
pub mod Transfers
pub mod Arrivals
pub mod Trips
pub mod Timeouts
pub mod Stale
pub mod Freed
mod Examples
use net.Prelude.{
  ℕ, suc, ◌+◌, ◌-◌, ◌%◌, ◌^◌, Bool, true, false, Option, none, some, List, [], ◌∷◌, leb, ltb, ◌==◌,
  ◌&&◌, not, if◌then◌else◌,
}
use net.Prelude.Int.{ℤ, pos}
use net.Prelude.Outcome.{Outcome, returns, undefined, and_then}
use net.Container
use net.Container.{Container, invalid}
use net.Event.{SubmitResult}
use net.SortedList.View.{insert_sorted, remove, contains}

-- The four `OVERLAPPED` parts of a socket's data.
pub data Direction : Type 0 where
  accepting receiving sending connecting : Direction

abbrev pub index : Direction → ℕ
index accepting = 0
index receiving = 1
index sending = 2
index connecting = 3

pub record Pointer : Type 0 where
  pub block : ℕ
  pub direction : Direction

-- `iocp_overlapped` with what its derived types add: `accept_socket`, where `INVALID_SOCKET` is
-- `none`, and the address and the length of `wsabuf`. The buffer for addresses is left to the
-- operating system.
pub record Overlapped : Type 0 where
  pub completion : Option ℕ
  pub result : ℤ
  pub accept_socket : Option ℕ
  pub wsabuf : ℕ × ℕ

abbrev pub clear : Overlapped
clear = record { completion = none; result = pos 0; accept_socket = none; wsabuf = (0, 0) }

-- `iocp_socket_data`.
abbrev pub Block : Type 0
Block = Direction → Overlapped

-- `iocp_record`.
pub record SocketRecord : Type 0 where
  pub handle : ℕ
  pub address_family : ℕ
  pub io : Option ℕ

pub data WorkKind : Type 0 where
  accept_work connect_work receive_work send_work : WorkKind

-- `io_base` and `io_operation`: `extra` is the pointer to the `OVERLAPPED`, `iov` the addresses and
-- lengths of the buffers, `flags` and `count` the other parts of a receive or send operation,
-- `peer` and `socket` what an accept operation gets.
pub record Operation : Type 0 where
  pub id : ℕ
  pub work : Option WorkKind
  pub extra : Option Pointer
  pub deadline : ℕ
  pub iov : List (ℕ × ℕ)
  pub flags : ℕ
  pub count : ℕ
  pub peer : List ℕ
  pub socket : Option ℕ

pub data Signal : Type 0 where
  completed : ℕ → Signal
  failed_with : ℕ → ℕ → Signal
  cancelled : ℕ → Signal
  -- `complete` of a task
  ran : ℕ → Signal

pub record Context : Type 0 where
  pub sockets : Container SocketRecord
  pub tasks : List ℕ
  pub outstanding : ℕ
  -- the chain of `next_deferred`
  pub deferred : List ℕ
  pub timeouts : List ℕ
  pub blocks : ℕ → Option Block
  pub next_block : ℕ
  pub operations : ℕ → Operation
  pub signals : List Signal
  pub closed : List ℕ
  -- how many packets with no operation are in the queue of the completion port
  pub port_packets : ℕ

abbrev pub M : Type 0 → Type 0
M A = Context → Outcome Context A

abbrev pub signal : Signal → Context → Context
signal s c = record c { signals = s ∷ c.signals }

abbrev pub update : (Operation → Operation) → ℕ → Context → Context
update f op c = record c {
  operations = λ o. if o == op then f (c.operations o) else c.operations o;
}

abbrev pub deadline_of : Context → ℕ → ℕ
deadline_of c op = (c.operations op).deadline

-- `closesocket`.
abbrev pub close : Option ℕ → Context → Context
close none c = c
close (some s) c = record c { closed = s ∷ c.closed }

abbrev pub set_block : ℕ → Option Block → Context → Context
set_block b v c = record c { blocks = λ n. if n == b then v else c.blocks n }

-- What is at a pointer, and a write there; `none` if the block is not allocated.
abbrev pub load : Pointer → Context → Option Overlapped
load p c = elim (c.blocks p.block) [ none ↦ none | some b ↦ some (b p.direction) ]

abbrev pub store : Pointer → Overlapped → Context → Context
store p v c = elim (c.blocks p.block) [
  | none ↦ c
  | some b ↦ set_block p.block (some (λ d. if index d == index p.direction then v else b d)) c
]

-- The destructor of a socket's data closes a socket that an accept operation left there.
unfoldable pub free_block : ℕ → Context → Context
free_block b c = elim (c.blocks b) [
  | none ↦ c
  | some data_of ↦ set_block b none (close (data_of accepting).accept_socket c)
]

abbrev pub insert_record : ℕ → ℕ → M ℕ
insert_record handle family c =
    let r : SocketRecord = record {
      handle = handle;
      address_family = family;
      io = some c.next_block;
    } in
    elim (Container.insert r c.sockets) [
      | none ↦ undefined
      | some (id, sockets) ↦ returns id (
          set_block c.next_block (some (λ _. clear))
            (record c { sockets = sockets; next_block = c.next_block + 1 }))
    ]

-- `AF_INET6`.
abbrev pub af_inet6 : ℕ
af_inet6 = 23

-- `make_socket` of a handle.
unfoldable pub make_socket : ℕ → M ℕ
make_socket handle = insert_record handle af_inet6

-- An error code, or a handle.
pub data Made : Type 0 where
  made : ℕ → Made
  not_made : ℕ → Made

-- `make_socket` with the answers of `WSASocketW` and of `CreateIoCompletionPort`, an error of which
-- is thrown: the id, and the error if there is one.
unfoldable pub open_socket : ℕ → Made → Option ℕ → M (ℕ × Option ℕ)
open_socket family (not_made e) associated c = returns (invalid, some e) c
open_socket family (made s) (some e) c = undefined
open_socket family (made s) none c = and_then (insert_record s family c) (λ id. returns (id, none))

unfoldable pub native_handle : ℕ → M ℕ
native_handle id c = elim (Container.lookup id c.sockets) [
  | none ↦ undefined
  | some r ↦ returns r.handle c
]

-- The data of a socket that is released, while operations are outstanding.
abbrev pub defer : Option ℕ → Context → Option Context
defer none c = none
defer (some b) c = some (record c { deferred = b ∷ c.deferred })

-- And while none is: the data goes with the record.
abbrev pub drop : Option ℕ → Context → Context
drop none c = c
drop (some b) c = free_block b c

-- `release`, with the error of `closesocket` if it has one.
unfoldable pub release : ℕ → Option ℕ → M (Option ℕ)
release id error c = elim (Container.lookup id c.sockets) [
  | none ↦ undefined
  | some r ↦ elim (if ltb 0 c.outstanding then defer r.io c else some (drop r.io c)) [
    | none ↦ undefined
    | some d ↦ elim (Container.erase id c.sockets) [
      | none ↦ undefined
      | some sockets ↦ returns error (close (some r.handle) (record d { sockets = sockets }))
    ]
  ]
]

-- Each takes the system call that it makes, which has an error or none, as an argument.
unfoldable pub set_option :
    {V : Type 0} → (ℕ → ℕ → ℕ → V → Option ℕ) → (id level name : ℕ) → V → M (Option ℕ)
set_option setsockopt id level name value c =
    and_then (native_handle id c) λ h. returns (setsockopt h level name value)

unfoldable pub bind : (ℕ → List ℕ → Option ℕ) → (id : ℕ) → List ℕ → M (Option ℕ)
bind bind_call id endpoint c = and_then (native_handle id c) λ h. returns (bind_call h endpoint)

unfoldable pub listen : (ℕ → ℕ → Option ℕ) → (id backlog : ℕ) → M (Option ℕ)
listen listen_call id backlog c = and_then (native_handle id c) λ h. returns (listen_call h backlog)

unfoldable pub process_task : Context → ℕ × Context
process_task c = elim c.tasks [
  | [] ↦ (0, c)
  | t ∷ rest ↦ (1, signal (ran t) (record c { tasks = rest }))
]

unfoldable pub process_timeout : ℕ → Context → ℕ × Context
process_timeout now c = elim c.timeouts [
  | [] ↦ (0, c)
  | op ∷ rest ↦
      if leb (deadline_of c op) now
      then (1, signal (completed op) (record c { timeouts = rest }))
      else (0, c)
]

-- `schedule`, with the packet that `PostQueuedCompletionStatus` puts into the queue of the port.
unfoldable pub schedule : ℕ → Context → Context
schedule t c = record c { tasks = t ∷ c.tasks; port_packets = c.port_packets + 1 }

-- `cancel`. `CancelIoEx` changes nothing here: the operation ends by a completion.
unfoldable pub cancel : (cancel_op op : ℕ) → M (Unit {0})
cancel cancel_op op c =
    if contains op c.timeouts
    then returns tt (
        signal (cancelled cancel_op)
          (signal (cancelled op) (record c { timeouts = remove op c.timeouts })))
    else let given = not ((c.operations op).id == invalid) in
      elim (if given then (c.operations op).extra else none) [
        | none ↦ returns tt (signal (cancelled cancel_op) c)
        | some p ↦
            and_then (native_handle (c.operations op).id c)
              λ h d. returns tt (signal (cancelled cancel_op) d)
      ]

-- `resume_at`, with the time that the clock shows.
unfoldable pub resume_at : (now op : ℕ) → Context → SubmitResult × Context
resume_at now op c =
    if ltb now (deadline_of c op)
    then (
      SubmitResult.submit,
      record c { timeouts = insert_sorted ltb (deadline_of c) op c.timeouts },
    )
    else (SubmitResult.ready, signal (completed op) c)

-- `poll` does nothing yet, and says `submit_result{}`.
unfoldable pub poll : ℕ → Context → SubmitResult × Context
poll op c = (SubmitResult.ready, c)
