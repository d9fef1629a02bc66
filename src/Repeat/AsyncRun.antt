-- ===== src/Repeat/AsyncRun.antt =====
-- `async_run` of io_context.hpp: `repeat_effect_until` with `run_one` as its body, and the
-- predicate that asks whether the last count is 0. The body runs where its scheduler lets it, one
-- turn after the other; the last count is the state of the predicate, and its lambdas are not
-- changed by a move.
use net.Prelude.{false, ℕ, zero, suc, ◌+◌, ◌≡◌, refl, ap, ◌∙◌, List, [], ◌∷◌, ◌==◌, arith}
use net.Prelude.Outcome.{Outcome, returns, waits, undefined, terminated, and_then}
use net.Poll.{Context, M}
use net.Poll.Run.{Turn, run, run_one}
use net.Repeat.{
  Completion, value, Asked, says, nothing, upstream, body_state, State, init, start, receive,
  run_next, start_body,
}

abbrev pub is_done : ℕ → Asked ℕ
is_done last_count = says (last_count == 0) last_count

abbrev pub same_body : Unit {0} → Unit {0}
same_body b = b

abbrev pub Loop : Type 0
Loop = State ℕ (Unit {0})

-- What follows a completion of a child, which does not touch the context.
abbrev pub continued : Outcome Loop (Unit {0}) → (Loop → M (List Completion)) → M (List Completion)
continued (returns _ s) next c = next s c
continued waits next c = waits
continued undefined next c = undefined
continued terminated next c = terminated

-- The children run until none is left. A body takes a turn for its `run_one`, and stores the count.
unfoldable pub drive : (ticks_per_ms : ℕ) → List Turn → Loop → M (List Completion)
drive ticks [] s c = elim s.running [
  | nothing ↦ returns s.told c
  | upstream ↦ waits
  | body_state ↦ waits
]
drive ticks (t ∷ turns) s c = elim s.running [
  | nothing ↦ returns s.told c
  | upstream ↦ waits
  | body_state ↦ and_then (run_one t.sys ticks t.now t.rounds c) λ n.
      continued (receive is_done same_body value (record s { predicate = n })) (drive ticks turns)
]

-- What the receiver is told. `just()` completes at once.
unfoldable pub async_run : (ticks_per_ms : ℕ) → List Turn → M (List Completion)
async_run ticks turns =
    continued (receive is_done same_body value (start is_done same_body (init tt 1)))
      (drive ticks turns)

drive-nothing :
    (ticks : ℕ) (turns : List Turn) (s : Loop) (c : Context)
    → s.running ≡ nothing
    → drive ticks turns s c ≡ returns s.told c
unfolding drive
drive-nothing ticks [] s c e = rw e refl
drive-nothing ticks (t ∷ turns) s c e = rw (e, drive) refl

receive-suc :
    (k : ℕ) (s : Loop)
    → receive is_done same_body value (record s { predicate = suc k })
      ≡ returns tt (start_body is_done same_body (record s { predicate = suc k }))
unfolding receive run_next
receive-suc k s =
    let more : (suc k == 0) ≡ false = ground arith in rw (more, receive, run_next) refl

-- One turn, whatever its `run_one` says, if the rest is as `run`.
turn-run :
    (ticks : ℕ) (turns : List Turn) (count : ℕ) (s : Loop) (o : Outcome Context ℕ)
    → s.told ≡ []
    → ((more : ℕ) (s' : Loop) (d : Context)
        → s'.running ≡ body_state
        → s'.told ≡ []
        → drive ticks turns s' d ≡ and_then (run ticks turns more d) (λ _. returns (value ∷ [])))
    → and_then o (λ n.
      continued (receive is_done same_body value (record s { predicate = n })) (drive ticks turns))
      ≡ and_then
          (and_then o
            (λ n d. elim n [ zero ↦ returns count d | suc k ↦ run ticks turns (count + suc k) d ]))
          (λ _. returns (value ∷ []))
unfolding receive run_next
turn-run ticks turns count s (returns zero d) silent rest =
    drive-nothing ticks turns _ d refl ∙ ap (λ l. returns (value ∷ l) d) silent
turn-run ticks turns count s (returns (suc k) d) silent rest =
    ap (λ r. continued r (drive ticks turns) d) (receive-suc k s)
    ∙ rest (count + suc k) (start_body is_done same_body (record s { predicate = suc k })) d refl
        silent
turn-run ticks turns count s waits silent rest = refl
turn-run ticks turns count s undefined silent rest = refl
turn-run ticks turns count s terminated silent rest = refl

drive-run :
    (ticks : ℕ) (turns : List Turn) (count : ℕ) (s : Loop) (c : Context)
    → s.running ≡ body_state
    → s.told ≡ []
    → drive ticks turns s c ≡ and_then (run ticks turns count c) (λ _. returns (value ∷ []))
unfolding drive run receive run_next
drive-run ticks [] count s c busy silent = rw busy refl
drive-run ticks (t ∷ turns) count s c busy silent =
    rw (busy, drive)
      (turn-run ticks turns count s (run_one t.sys ticks t.now t.rounds c) silent
        (λ more s' d. drive-run ticks turns more s' d))

-- With the same turns, async_run does what run does, up to the count that run returns: it ends, or
-- waits for more turns, where run does, it leaves the context as run does, and tells its receiver a
-- value, once.
pub async_run-run :
    (ticks : ℕ) (turns : List Turn) (c : Context)
    → async_run ticks turns c ≡ and_then (run ticks turns 0 c) (λ _. returns (value ∷ []))
unfolding async_run receive run_next start
async_run-run ticks turns c = drive-run ticks turns 0 _ c refl refl
