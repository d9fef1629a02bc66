-- ===== src/Poll/Run.antt =====
-- The event loop: `run_one` of poll_context.hpp and `run` of io_context.hpp.
use net.Prelude.{
  ℕ, zero, suc, ◌+◌, ◌-◌, ◌/◌, ◌%◌, ◌^◌, Bool, true, false, Option, none, some, List, [], ◌∷◌, ltb,
  leb, ◌==◌, ◌&&◌, if◌then◌else◌, length, get_elem?,
}
use net.Prelude.Int.{ℤ, pos, negsuc}
use net.Prelude.Outcome.{returns, waits, undefined, and_then}
use net.Event.{PollBits, is_ready}
use net.Poll.{
  Errno, eintr, eagain, PollFd, Context, M, deadline_of, process_task, process_timeout,
  remove_outstanding,
}
use net.Poll.Work.{System, work}

-- What `poll(2)` says: an error, or the `revents` of each entry in turn.
pub data PollAnswer : Type 0 where
  refused : Errno → PollAnswer
  polled : List PollBits → PollAnswer

-- One round of the loop: `poll(2)`, and the time that the clock shows after it.
pub record Round : Type 0 where
  pub poll_call : List PollFd → ℤ → PollAnswer
  pub later : ℕ

-- The conversion to a 32-bit `int`.
unfoldable pub to_int : ℕ → ℤ
to_int n = let m = n % 2 ^ 32 in if ltb m (2 ^ 31) then pos m else negsuc (2 ^ 32 - m - 1)

-- `next_time - now`, a signed number of ticks of the clock, in milliseconds: the quotient is cut
-- towards 0, and the result converted to `int`.
unfoldable pub to_milliseconds : (ticks_per_ms next_time now : ℕ) → ℤ
unfolding to_int
to_milliseconds ticks next_time now =
    if leb now next_time
    then to_int ((next_time - now) / ticks)
    else to_int (2 ^ 32 - (now - next_time) / ticks % 2 ^ 32)

-- `value_or`.
abbrev pub next_time : Context → ℕ → ℕ
next_time c now = elim c.d_timeouts [ [] ↦ now | op ∷ _ ↦ deadline_of c op ]

-- The last argument of `poll(2)`.
unfoldable pub timeout : (ticks_per_ms now : ℕ) → Context → ℤ
unfolding to_milliseconds
timeout ticks now c =
    let next = next_time c now in if now == next then negsuc 0 else to_milliseconds ticks next now

-- What `poll(2)` writes.
abbrev pub set_revents : List PollFd → List PollBits → List PollFd
set_revents [] bits = []
set_revents (p ∷ ps) [] = p ∷ ps
set_revents (p ∷ ps) (b ∷ bits) = record p { revents = b } ∷ set_revents ps bits

-- `for (i = n; 0 < i--;)`: the first index from the end whose entry is ready.
unfoldable pub scan : ℕ → List PollFd → Option ℕ
scan zero ps = none
scan (suc i) ps = elim (get_elem? ps i) [
  | none ↦ scan i ps
  | some p ↦ if is_ready p.events p.revents then some i else scan i ps
]

-- The body of that loop for a ready entry.
unfoldable pub dispatch : System → ℕ → M ℕ
unfolding work remove_outstanding
dispatch sys i c = elim (get_elem? c.d_outstanding i) [
  | none ↦ undefined
  | some op ↦ and_then (work sys op (remove_outstanding i c)) λ _. returns 1
]

-- A round that is not the last: `poll(2)` failed with EINTR or EAGAIN.
abbrev pub is_retried : Errno → Bool
is_retried eintr = true
is_retried eagain = true
is_retried _ = false

-- The `while (true)` of `run_one`, over the rounds that the system answers.
unfoldable pub wait_loop : System → (ticks_per_ms now : ℕ) → List Round → M ℕ
unfolding timeout scan dispatch process_timeout
wait_loop sys ticks now [] c = waits
wait_loop sys ticks now (r ∷ rounds) c = elim (r.poll_call c.d_poll (timeout ticks now c)) [
  | refused e ↦ elim (is_retried e) [
    | true ↦ wait_loop sys ticks now rounds c
    | false ↦ returns 0 c
  ]
  | polled bits ↦
      let d = record c { d_poll = set_revents c.d_poll bits } in
      elim (scan (length d.d_poll) d.d_poll) [
        | some i ↦ dispatch sys i d
        | none ↦ elim (process_timeout r.later d).0 [
          | suc _ ↦ returns 1 (process_timeout r.later d).1
          | zero ↦ wait_loop sys ticks now rounds (process_timeout r.later d).1
        ]
      ]
]

abbrev pub is_nil : {A : Type 0} → List A → Bool
is_nil [] = true
is_nil (x ∷ xs) = false

-- `run_one`, with the time that the clock shows when it starts.
unfoldable pub run_one : System → (ticks_per_ms now : ℕ) → List Round → M ℕ
unfolding process_timeout process_task wait_loop
run_one sys ticks now rounds c =
    let (n, d) = process_timeout now c in
    if ltb 0 n
    then returns 1 d
    else let (m, e) = process_task d in
      if ltb 0 m
      then returns 1 e
      else if is_nil e.d_poll && is_nil e.d_timeouts
      then returns 0 e
      else wait_loop sys ticks now rounds e

-- What the system says during one call of `run_one`.
pub record Turn : Type 0 where
  pub sys : System
  pub now : ℕ
  pub rounds : List Round

-- `while (c = run_one()) count += c;`
unfoldable pub run : (ticks_per_ms : ℕ) → List Turn → ℕ → M ℕ
unfolding run_one
run ticks [] count c = waits
run ticks (t ∷ turns) count c =
    and_then (run_one t.sys ticks t.now t.rounds c)
      λ n d. elim n [ zero ↦ returns count d | suc k ↦ run ticks turns (count + suc k) d ]
