-- ===== src/Descriptors.antt =====
-- include/beman/net/detail/operations.hpp and timer.hpp: what the descriptor of an operation hands
-- to the context, and what it hands to the receiver. A pointer is an object and its kind.
use net.Prelude.{ℕ, ◌+◌, Option, none, some, List}
use net.Event.{EventType}

pub data Address : Type 0 where
  null : Address
  -- the array of `iovec` of a sequence of buffers
  iovecs_of : ℕ → Address
  sockaddr_of : ℕ → Address

-- The fields of `msghdr` that are set.
pub record Message : Type 0 where
  pub msg_name : Address
  pub msg_namelen : ℕ
  pub msg_iov : Address
  pub msg_iovlen : ℕ

-- `Buffers` and `Endpoint`: the object that `data()` points to, and `size()`.
pub record Object : Type 0 where
  pub data_of : ℕ
  pub size_of : ℕ

-- The tuples of the operations of context_base.hpp.
pub record Io : Type 0 where
  pub message : Message
  pub count : ℕ
  pub mask : EventType
  -- of accept and connect
  pub endpoint : List ℕ
  pub length : ℕ
  pub socket : Option ℕ
  pub deadline : ℕ

-- The descriptors with their data.
pub data Desc : Type 0 where
  poll : EventType → Desc
  accept : Desc
  connect : (endpoint : List ℕ) → Desc
  send receive : (buffers : Object) → Desc
  send_to receive_from : (buffers endpoint : Object) → Desc
  resume_after : (duration : ℕ) → Desc
  resume_at : (time : ℕ) → Desc

-- The function of the context that is called.
pub data Call : Type 0 where
  poll_call accept_call connect_call send_call receive_call resume_at_call : Call

-- What the receiver is given.
pub data Values : Type 0 where
  nothing : Values
  events : EventType → Values
  accepted : ℕ → List ℕ → Values
  bytes : ℕ → Values

-- `events()`.
unfoldable pub interest : Desc → EventType
interest (poll mask) = mask
interest accept = EventType.input
interest (connect endpoint) = EventType.in_out
interest (send buffers) = EventType.output
interest (send_to buffers endpoint) = EventType.output
interest (receive buffers) = EventType.input
interest (receive_from buffers endpoint) = EventType.input
interest (resume_after duration) = EventType.none_set
interest (resume_at time) = EventType.none_set

abbrev pub set_buffers : Object → Message → Message
set_buffers b m = record m { msg_iov = iovecs_of b.data_of; msg_iovlen = b.size_of }

abbrev pub set_name : Address → ℕ → Message → Message
set_name a n m = record m { msg_name = a; msg_namelen = n }

-- `sizeof(endpoint)`: a `sockaddr_storage` and a `socklen_t`, aligned to 8.
abbrev pub endpoint_size : ℕ
endpoint_size = 136

-- `submit`, with the time that the clock shows: the call, and the operation that it is given.
unfoldable pub submit : (now : ℕ) → Desc → Io → Call × Io
submit now (poll mask) o = (poll_call, record o { mask = mask })
submit now accept o = (accept_call, record o { length = endpoint_size })
submit now (connect endpoint) o = (connect_call, record o { endpoint = endpoint })
submit now (send b) o = (send_call, record o { message = set_buffers b o.message })
submit now (send_to b e) o = (
  send_call,
  record o { message = set_name (sockaddr_of e.data_of) e.size_of (set_buffers b o.message) },
)
submit now (receive b) o = (receive_call, record o { message = set_buffers b o.message })
submit now (receive_from b e) o = (
  receive_call,
  record o { message = set_name (iovecs_of b.data_of) b.size_of (set_buffers b o.message) },
)
submit now (resume_after duration) o = (resume_at_call, record o { deadline = now + duration })
submit now (resume_at time) o = (resume_at_call, record o { deadline = time })

-- `set_value`; `none` where an empty optional is read.
unfoldable pub set_value : Desc → Io → Option Values
set_value (poll mask) o = some (events EventType.none_set)
set_value accept o = elim o.socket [ none ↦ none | some s ↦ some (accepted s o.endpoint) ]
set_value (connect endpoint) o = some nothing
set_value (send b) o = some (bytes o.count)
set_value (send_to b e) o = some (bytes o.count)
set_value (receive b) o = some (bytes o.count)
set_value (receive_from b e) o = some (bytes o.count)
set_value (resume_after duration) o = some nothing
set_value (resume_at time) o = some nothing
