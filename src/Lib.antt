-- ===== src/Lib.antt =====
-- beman.net: the socket contexts and the senders on top of them (include/beman/net/detail).
--
-- A context keeps a table of sockets, the operations that wait for a socket, the timers and the
-- tasks. A sender hands an operation to a context; the context runs its loop and tells the
-- operation once that it has completed, failed or was cancelled.
--
-- * Container (container.hpp): the table that hands out socket ids. `insert`, `erase` and `lookup`
--   (`operator[]`) are total functions with `none` for what the source leaves undefined or ends by
--   an exception.
-- * SortedList (sorted_list.hpp): the intrusive list of timers, on an explicit store of `next`
--   fields. The loops run on fuel; one more than the number of nodes is enough, and the theorems
--   say that the result is then there.
-- * Event (event_type.hpp, io_base.hpp): event masks, the bits of `pollfd`, and submit results.
-- * Poll (poll_context.hpp, context_base.hpp; `run` of io_context.hpp): the context on top of
--   poll(2). `Poll` has the state and the simple calls, `Poll.Work` the operations on sockets with
--   the functions that a readiness indication calls, `Poll.Run` the event loop. The operating
--   system is a parameter: a record of the answers of each system call (`System`) and a list of the
--   answers of poll(2) and of the clock (`Round`). A loop around a system call runs over those
--   answers and says `waits` when they are used up. `undefined` is undefined behaviour of the
--   source, `terminated` is std::terminate. Virtual calls of an operation go to a log, `signals`.
-- * Sender (sender.hpp): the state of an operation that a receiver is connected to, with the
--   counter that makes it signal its receiver once, and the stop callback; `Sender.Steps` joins it
--   to the context of `Poll`.
-- * Uring (uring_context.hpp): the context on top of io_uring. liburing is a parameter: a record of
--   the calls that the source makes of it over a state of any type, with the laws that it documents
--   as a record of hypotheses (`Uring.Laws`), which `Uring.Examples` shows to be satisfiable.
--   `Uring` has the state, the counters and the calls of the ring, `Uring.Work` the operations,
--   `Uring.Run` the loop, `Uring.Sockets` the calls on sockets. The loop of `get_sqe` runs on fuel;
--   two rounds are enough where a submission makes room in a full queue.
-- * Iocp (iocp_context.hpp): the context on top of Windows completion ports. `Iocp` has the state,
--   where the data of a socket is a block of a heap that is allocated or not, and the simple calls;
--   `Iocp.Work` the calls that give an operation to the operating system and the functions that a
--   completion calls; `Iocp.Run` the loop. The answers of the operating system are a record
--   (`System`) and what the completion port gives (`Packet`). The packets that `schedule` posts are
--   counted in the state, and `run_one` takes such a packet only where there is one.
-- * Acceptor (basic_socket_acceptor.hpp, basic_socket.hpp): the owners of a socket id from the
--   constructor to the destructor. The calls of the context are a record of operations (`Calls`)
--   with laws (`Acceptor.Laws`); `Acceptor.PollContext` fills them with those of `Poll`.
-- * Descriptors (operations.hpp, timer.hpp): what the descriptor of an operation hands to the
--   context and to the receiver. A pointer is an object and its kind.
-- * Address (internet.hpp, endpoint.hpp): addresses, endpoints and what is printed of them, on the
--   bytes of a `sockaddr_storage`.
-- * Repeat (repeat_effect_until.hpp): the operation state of the loop over a body. The predicate
--   and what connecting leaves of a body are parameters; the completions of the child operations
--   are an explicit sequence. `Repeat.AsyncRun` is `async_run` of io_context.hpp on top of it.
-- * Scheduler (io_context_scheduler.hpp): the sender of `schedule` on the context of `Poll`.
-- * WhenAny (examples/demo_algorithm.hpp): when_any. A child is a thread of its own; a schedule says
--   which of them takes its next atomic step.
-- * Stream (examples/demo_stream.hpp): the buffered stream with its buffer as an array and its
--   iterators as indices. What arrives is a text and how many bytes of it are there at each receive.
--   `Stream.Context` is the context that drives memory streams.
-- * Http (examples/demo_http.hpp): request on top of Stream. A stream has the address of its object
--   and the address of the object whose buffer its iterators point into (`Located`): the move that
--   the constructor of http_client makes changes the first of them only. The loop over the headers
--   runs on fuel; one more than the number of bytes still to be read is enough.
-- * Task (examples/demo_task.hpp): the coroutine type, with the code of the coroutine as a parameter.
-- * IntoExpected (into_expected.hpp): the adaptor, with a task that awaits its senders through it.
-- * Scope (examples/demo_scope.hpp): the scope that counts its jobs; a job completes in two steps.
-- * Limit (examples/postgres.cpp): pg::limit, which lets one operation at a time use an object.
--
-- Timers are the sequence that `SortedList` shows the pointer code to implement. Time points and
-- durations are ticks of the clock, numbers without a bound; the conversion to the `int` of
-- milliseconds has its wrap-around written out. Indices of the socket table wrap at 2^64 and ids at
-- 2^32, as in the source.
--
-- Not modelled: threads (the source locks nothing in `poll_context`), the
-- buffers, the other sender adaptors and the programs under examples/ but for those named above.
mod Prelude
pub mod Container
pub mod SortedList
pub mod Descriptors
pub mod Event
pub mod Poll
pub mod Sender
pub mod Uring
pub mod Iocp
pub mod Acceptor
pub mod Address
pub mod Repeat
pub mod WhenAny
pub mod Stream
pub mod Http
pub mod Task
pub mod IntoExpected
pub mod Scheduler
pub mod Scope
pub mod Limit
