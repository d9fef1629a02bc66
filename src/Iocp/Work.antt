-- ===== src/Iocp/Work.antt =====
-- The operations of iocp_context.hpp: the functions that `work` points at, which a completion
-- calls, and the calls that give an operation to the operating system.
use net.Prelude.{ℕ, suc, ◌+◌, Bool, Option, none, some, List, [], ◌∷◌, ◌==◌, ◌||◌, if◌then◌else◌}
use net.Prelude.Int.{ℤ, pos, negsuc}
use net.Prelude.Outcome.{returns, undefined, and_then}
use net.Container
use net.Event.{SubmitResult}
use net.Iocp.{
  Direction, accepting, receiving, sending, connecting, Pointer, Overlapped, clear, WorkKind,
  accept_work, connect_work, receive_work, send_work, Operation, completed, failed_with, cancelled,
  M, signal, update, close, load, store, make_socket, native_handle, Made, made, not_made,
}

-- The error codes that the source tells apart; `WSA_IO_PENDING` is `ERROR_IO_PENDING`.
abbrev pub error_netname_deleted : ℕ
error_netname_deleted = 64

abbrev pub error_operation_aborted : ℕ
error_operation_aborted = 995

abbrev pub error_io_pending : ℕ
error_io_pending = 997

abbrev pub wsaeinval : ℕ
wsaeinval = 10022

abbrev pub wsaeconnreset : ℕ
wsaeconnreset = 10054

-- The answers of the operating system, each an error code or none: `WSASocketW` by family,
-- `AcceptEx` by the two sockets, the binding of a socket to any address, `ConnectEx`, `WSARecv` by
-- socket and buffer, `WSASend` by these and flags, `CreateIoCompletionPort`; and the remote
-- address that `GetAcceptExSockaddrs` finds.
pub record System : Type 0 where
  pub socket_call : ℕ → Made
  pub accept_ex : ℕ → ℕ → Option ℕ
  pub bind_any : ℕ → Option ℕ
  pub connect_ex : ℕ → Option ℕ
  pub wsa_recv : ℕ → ℕ × ℕ → Option ℕ
  pub wsa_send : ℕ → ℕ × ℕ → ℕ → Option ℕ
  pub associate : ℕ → Option ℕ
  pub sockaddrs : ℕ → List ℕ

-- `complete()`, `error(e)` and `cancel()`, with the result that the caller then returns.
abbrev pub finish : ℕ → M SubmitResult
finish op c = returns SubmitResult.ready (signal (completed op) c)

abbrev pub fail : ℕ → ℕ → M SubmitResult
fail e op c = returns SubmitResult.error (signal (failed_with op e) c)

abbrev pub give_up : ℕ → M SubmitResult
give_up op c = returns SubmitResult.ready (signal (cancelled op) c)

abbrev pub set_count : ℕ → Operation → Operation
set_count n o = record o { count = n }

abbrev pub set_accepted : List ℕ → ℕ → Operation → Operation
set_accepted peer id o = record o { peer = peer; socket = some id }

abbrev pub give : Pointer → WorkKind → Operation → Operation
give p kind o = record o { extra = some p; work = some kind }

-- The accept socket is closed, and the data forgets it.
abbrev pub close_accepted : Pointer → Overlapped → M (Unit {0})
close_accepted p v c =
    returns tt (store p (record v { accept_socket = none }) (close v.accept_socket c))

-- The `work` function of `accept` where its result is not negative, with the socket.
unfoldable pub accepted : System → Pointer → Overlapped → Option ℕ → ℕ → M SubmitResult
accepted sys p v none op c = undefined
accepted sys p v (some s) op c = and_then (native_handle (c.operations op).id c) λ _ d.
    elim (sys.associate s) [
      | some e ↦ and_then (close_accepted p v d) λ _. fail e op
      | none ↦ and_then (make_socket s d) λ id f. finish op (
          store p (record v { accept_socket = none })
            (update (set_accepted (sys.sockaddrs s) id) op f))
    ]

-- The `work` functions for a result that is not negative.
unfoldable pub succeed : WorkKind → System → Pointer → Overlapped → ℕ → ℕ → M SubmitResult
succeed accept_work sys p v n op c = accepted sys p v v.accept_socket op c
succeed connect_work sys p v n op c = and_then (native_handle (c.operations op).id c) λ _. finish op
succeed receive_work sys p v n op c = finish op (update (set_count n) op c)
succeed send_work sys p v n op c = finish op (update (set_count n) op c)

-- And for an error code.
abbrev pub is_reset : ℕ → Bool
is_reset e = (e == wsaeconnreset) || (e == error_netname_deleted)

abbrev pub transfer_fails : ℕ → ℕ → M SubmitResult
transfer_fails e op c =
    if e == error_operation_aborted
    then give_up op c
    else if is_reset e
    then finish op (update (set_count 0) op c)
    else fail e op c

unfoldable pub fall : WorkKind → Pointer → Overlapped → ℕ → ℕ → M SubmitResult
fall accept_work p v e op c =
    and_then (close_accepted p v c)
      λ _ d. if e == error_operation_aborted then give_up op d else fail e op d
fall connect_work p v e op c = if e == error_operation_aborted then give_up op c else fail e op c
fall receive_work p v e op c = transfer_fails e op c
fall send_work p v e op c = transfer_fails e op c

unfoldable pub run_work : WorkKind → System → Pointer → Overlapped → ℤ → ℕ → M SubmitResult
run_work kind sys p v (pos n) op = succeed kind sys p v n op
run_work kind sys p v (negsuc n) op = fall kind p v (suc n) op

-- The functions find their data through `extra`.
abbrev pub with_data : WorkKind → System → Pointer → Option Overlapped → ℕ → M SubmitResult
with_data kind sys p none op c = undefined
with_data kind sys p (some v) op c = run_work kind sys p v v.result op c

abbrev pub with_extra : WorkKind → System → Option Pointer → ℕ → M SubmitResult
with_extra kind sys none op c = undefined
with_extra kind sys (some p) op c = with_data kind sys p (load p c) op c

abbrev pub with_work : Option WorkKind → System → ℕ → M SubmitResult
with_work none sys op c = undefined
with_work (some kind) sys op c = with_extra kind sys (c.operations op).extra op c

-- `op->work(*this, op)`.
unfoldable pub work : System → ℕ → M SubmitResult
work sys op c = with_work (c.operations op).work sys op c

-- What a call does with the answer of the operating system: pending or done, a completion comes.
abbrev pub submitted : Option ℕ → ℕ → M SubmitResult
submitted none op c = returns SubmitResult.submit (record c { outstanding = c.outstanding + 1 })
submitted (some e) op c =
    if e == error_io_pending
    then returns SubmitResult.submit (record c { outstanding = c.outstanding + 1 })
    else fail e op c

-- `sockets[op->id].io`, which is not null.
abbrev pub data_of : ℕ → M ℕ
data_of op c = elim (Container.lookup (c.operations op).id c.sockets) [
  | none ↦ undefined
  | some r ↦ elim r.io [ none ↦ undefined | some b ↦ returns b c ]
]

abbrev pub point : ℕ → Direction → Pointer
point b direction = record { block = b; direction = direction }

-- `data` is filled and handed to the operation.
abbrev pub install : Direction → WorkKind → ℕ × ℕ → ℕ → ℕ → M (Unit {0})
install direction kind buffer b op c =
    let p = point b direction in
    let v = record clear { completion = some op; wsabuf = buffer } in
    returns tt (update (give p kind) op (store p v c))

abbrev pub first_buffer : List (ℕ × ℕ) → ℕ × ℕ
first_buffer [] = (0, 0)
first_buffer (b ∷ bs) = b

unfoldable pub receive : System → ℕ → M SubmitResult
receive sys op c = and_then (native_handle (c.operations op).id c) λ h d.
    and_then (data_of op d) λ b e.
      let buffer = first_buffer (e.operations op).iov in
      and_then (install receiving receive_work buffer b op e)
        λ _. submitted (sys.wsa_recv h buffer) op

unfoldable pub send : System → ℕ → M SubmitResult
send sys op c = and_then (native_handle (c.operations op).id c) λ h d.
    and_then (data_of op d) λ b e.
      let buffer = first_buffer (e.operations op).iov in
      and_then (install sending send_work buffer b op e)
        λ _. submitted (sys.wsa_send h buffer (e.operations op).flags) op

-- `connect` once the socket is bound.
abbrev pub connect_bound : System → ℕ → ℕ → M SubmitResult
connect_bound sys h op c = and_then (data_of op c) λ b d.
    and_then (install connecting connect_work (0, 0) b op d) λ _. submitted (sys.connect_ex h) op

unfoldable pub connect : System → ℕ → M SubmitResult
connect sys op c = and_then (native_handle (c.operations op).id c) λ h d. elim (sys.bind_any h) [
  | none ↦ connect_bound sys h op d
  | some e ↦ if e == wsaeinval then connect_bound sys h op d else fail e op d
]

-- `accept` once its socket was made, with the answer of `AcceptEx`.
abbrev pub accept_submitted : Option ℕ → Pointer → Overlapped → ℕ → M SubmitResult
accept_submitted none p v op c = submitted none op c
accept_submitted (some e) p v op c =
    if e == error_io_pending
    then submitted none op c
    else and_then (close_accepted p v c) λ _. fail e op

abbrev pub accept_with : System → Made → ℕ → ℕ → ℕ → M SubmitResult
accept_with sys (not_made e) h b op c =
    fail e op (store (point b accepting) (record clear { completion = some op }) c)
accept_with sys (made s) h b op c =
    let p = point b accepting in
    let v = record clear { completion = some op; accept_socket = some s } in
    accept_submitted (sys.accept_ex h s) p v op (update (give p accept_work) op (store p v c))

abbrev pub family_of : ℕ → M ℕ
family_of op c = elim (Container.lookup (c.operations op).id c.sockets) [
  | none ↦ undefined
  | some r ↦ returns r.address_family c
]

unfoldable pub accept : System → ℕ → M SubmitResult
accept sys op c = and_then (native_handle (c.operations op).id c) λ h d.
    and_then (family_of op d)
      λ family e. and_then (data_of op e) λ b. accept_with sys (sys.socket_call family) h b op
