-- ===== src/Iocp/Run.antt =====
-- The loop of iocp_context.hpp.
use net.Prelude.{
  ℕ, zero, suc, ◌+◌, ◌-◌, ◌/◌, ◌%◌, ◌^◌, Bool, true, false, Option, none, some, List, [], ◌∷◌, ltb,
  leb, ◌==◌, ◌&&◌, if◌then◌else◌,
}
use net.Prelude.Int.{ℤ, pos, negsuc}
use net.Prelude.Outcome.{returns, waits, undefined, and_then}
use net.Iocp.{
  Pointer, Overlapped, Context, M, deadline_of, load, store, free_block, process_task,
  process_timeout,
}
use net.Iocp.Work.{System, work}

-- What `GetQueuedCompletionStatus` gives: a packet of an operation with the bytes that it moved or
-- an error code, a packet with no operation, which `schedule` posted, the end of the time, or
-- another error.
pub data Packet : Type 0 where
  done : (bytes : ℕ) → Pointer → Packet
  failed : (error : ℕ) → Pointer → Packet
  posted timed_out wait_failed : Packet

-- `INFINITE`, a `DWORD`.
abbrev pub infinite : ℕ
infinite = 4294967295

-- `timeout_ms`, from ticks of the clock.
unfoldable pub timeout_ms : (ticks_per_ms now : ℕ) → Context → ℕ
timeout_ms ticks now c = elim c.timeouts [
  | [] ↦ infinite
  | op ∷ _ ↦
      if leb (deadline_of c op) now
      then 0
      else let ms = (deadline_of c op - now) / ticks in
        if ltb ms (infinite - 1) then ms % 2 ^ 32 else infinite - 1
]

-- The data of one socket that was released is freed.
unfoldable pub free_deferred : Context → Context
free_deferred c = elim c.deferred [
  | [] ↦ c
  | b ∷ rest ↦ free_block b (record c { deferred = rest })
]

abbrev pub set_result : ℤ → Overlapped → Overlapped
set_result res v = record v { result = res }

-- `comp->work(*this, comp)`, and what follows.
abbrev pub complete_with : System → Option ℕ → M ℕ
complete_with sys none c = undefined
complete_with sys (some op) c = and_then (work sys op c) λ _ d. returns 1 (free_deferred d)

-- `--outstanding` wraps at 0.
abbrev pub arrived : Pointer → Overlapped → ℤ → Context → Context
arrived p v res c =
    store p (set_result res v) (record c { outstanding = (c.outstanding + 2 ^ 64 - 1) % 2 ^ 64 })

-- A completion with its result.
unfoldable pub arrive : System → ℤ → Pointer → M ℕ
arrive sys res p c = elim (load p c) [
  | none ↦ undefined
  | some v ↦ complete_with sys v.completion (arrived p v res c)
]

-- `static_cast<int>` of a `DWORD`, and minus that.
abbrev pub minus : ℕ → ℤ
minus zero = pos 0
minus (suc n) = negsuc n

abbrev pub int_of : ℕ → ℤ
int_of n = if ltb n (2 ^ 31) then pos n else minus (2 ^ 32 - n)

-- The negation of the least `int` overflows, which is undefined behaviour.
abbrev pub minus_int_of : ℕ → Option ℤ
minus_int_of n =
    if ltb n (2 ^ 31) then some (minus n) else if n == 2 ^ 31 then none else some (pos (2 ^ 32 - n))

-- What `run_one` does with a packet. One with no operation is there only if the queue has one.
abbrev pub take : System → Packet → (later : ℕ) → M ℕ
take sys (done bytes p) later c = arrive sys (int_of bytes) p c
take sys (failed error p) later c = elim (minus_int_of error) [
  | none ↦ undefined
  | some res ↦ arrive sys res p c
]
take sys posted later c = elim c.port_packets [
  | zero ↦ waits
  | suc n ↦ let (m, d) = process_task (record c { port_packets = n }) in returns m d
]
take sys timed_out later c = returns (process_timeout later c).0 (process_timeout later c).1
take sys wait_failed later c = returns 0 c

abbrev pub is_nil : {A : Type 0} → List A → Bool
is_nil [] = true
is_nil (x ∷ xs) = false

-- `run_one`, with the time that the clock shows at first, the answer of
-- `GetQueuedCompletionStatus` and the time after it.
unfoldable pub run_one : System → (ticks_per_ms now : ℕ) → (status : ℕ → Packet) → (later : ℕ) → M ℕ
run_one sys ticks now status later c =
    let (n, d) = process_timeout now c in
    if ltb 0 n
    then returns 1 d
    else let (m, e) = process_task d in
      if ltb 0 m
      then returns 1 e
      else if (e.outstanding == 0) && is_nil e.timeouts
      then returns 0 e
      else take sys (status (timeout_ms ticks now e)) later e
