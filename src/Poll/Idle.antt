-- ===== src/Poll/Idle.antt =====
-- `run_one` and `run` of `net.Poll.Run` stop only when nothing is left to do, and a timer ends the
-- wait.
use net.Prelude.{
  ℕ, zero, suc, ◌+◌, ◌≡◌, refl, ◌⊎◌, inl, inr, List, [], ◌∷◌, true, false, arith, ltb, Bool-cases,
  Option-cases, ℕ-cases, length, get_elem?, ◌&&◌, if◌then◌else◌,
}
use net.Prelude.Int.{ℤ}
use net.Prelude.Outcome.{returns}
use net.Poll.{Errno, Context, PollFd, process_task, process_timeout, remove_outstanding}
use net.Poll.Work.{System, work}
use net.Poll.Run.{
  Round, Turn, refused, timeout, set_revents, scan, dispatch, is_retried, wait_loop, is_nil,
  run_one, run,
}
use net.Poll.Told.{Ensures, Ensures-and_then, Ensures-any, Ensures-mono}
use net.Poll.RunOne.{PollAnswer-cases}

-- `poll(2)` fails with EINTR or EAGAIN at most.
abbrev pub NeverRefused : List Round → Type 0
NeverRefused [] = Unit {0}
NeverRefused (r ∷ rounds) =
    ((ps : List PollFd) (t : ℤ) (e : Errno) → r.poll_call ps t ≡ refused e → is_retried e ≡ true)
    × NeverRefused rounds

abbrev pub TurnsNeverRefused : List Turn → Type 0
TurnsNeverRefused [] = Unit {0}
TurnsNeverRefused (t ∷ turns) = NeverRefused t.rounds × TurnsNeverRefused turns

-- Nothing waits, for a socket, for its time or for its turn.
pub record IsIdle (c : Context) : Type 0 where
  pub no_poll : c.d_poll ≡ []
  pub no_timeouts : c.d_timeouts ≡ []
  pub no_tasks : c.d_tasks ≡ []

abbrev IsOne : ℕ → Context → Type 0
IsOne n d = n ≡ 1

module _ (sys : System) where
  dispatch-IsOne : (i : ℕ) (c : Context) → Ensures IsOne (dispatch sys i c)
  unfolding dispatch
  dispatch-IsOne i c = elim (Option-cases (get_elem? c.d_outstanding i)) [
    | inl e ↦ rw (e, dispatch) tt
    | inr (op, e) ↦
        rw (e, dispatch)
          (Ensures-and_then (λ _ _. Unit {0}) IsOne (work sys op (remove_outstanding i c))
            (λ _. returns 1) (Ensures-any (work sys op (remove_outstanding i c))) (λ _ d _. refl))
  ]

  wait_loop-IsOne :
      (ticks now : ℕ) (rounds : List Round) (c : Context)
      → NeverRefused rounds
      → Ensures IsOne (wait_loop sys ticks now rounds c)
  unfolding wait_loop
  wait_loop-IsOne ticks now [] c h = tt
  wait_loop-IsOne ticks now (r ∷ rounds) c (h, hs) =
      elim (PollAnswer-cases (r.poll_call c.d_poll (timeout ticks now c))) [
        | inl (e, said) ↦
            rw (said, wait_loop, h c.d_poll (timeout ticks now c) e said)
              (wait_loop-IsOne ticks now rounds c hs)
        | inr (bits, said) ↦
            let d = record c { d_poll = set_revents c.d_poll bits } in
            rw (said, wait_loop)
              (elim (Option-cases (scan (length d.d_poll) d.d_poll)) [
                | inr (i, found) ↦ rw (found, wait_loop) (dispatch-IsOne i d)
                | inl silent ↦
                    rw (silent, wait_loop)
                      (elim (ℕ-cases (process_timeout r.later d).0) [
                        | inr (k, due) ↦ rw (due, wait_loop) refl
                        | inl early ↦
                            rw (early, wait_loop)
                              (wait_loop-IsOne ticks now rounds (process_timeout r.later d).1 hs)
                      ])
              ])
      ]

-- The result is 1, or it is 0 and nothing waits.
abbrev pub WorksOrIdle : ℕ → Context → Type 0
WorksOrIdle n d = (n ≡ 1) ⊎ ((n ≡ 0) × IsIdle d)

process_task_none :
    (c : Context) → ltb 0 (process_task c).0 ≡ false → ((process_task c).1 ≡ c) × (c.d_tasks ≡ [])
unfolding process_task
process_task_none c h = (ground arith, ground arith)

is_nil_lem :
    (c : Context)
    → is_nil c.d_poll && is_nil c.d_timeouts ≡ true
    → (c.d_poll ≡ []) × (c.d_timeouts ≡ [])
is_nil_lem c h = ground arith

process_timeout_none :
    (now : ℕ) (c : Context)
    → ltb 0 (process_timeout now c).0 ≡ false
    → (process_timeout now c).1 ≡ c
unfolding process_timeout
process_timeout_none now c h = ground arith

module _ (sys : System) (ticks now : ℕ) (rounds : List Round) where
  rest-WorksOrIdle :
      (c : Context)
      → NeverRefused rounds
      → c.d_tasks ≡ []
      → Ensures WorksOrIdle (
          if is_nil c.d_poll && is_nil c.d_timeouts
          then returns 0 c
          else wait_loop sys ticks now rounds c)
  rest-WorksOrIdle c h t = elim (Bool-cases (is_nil c.d_poll && is_nil c.d_timeouts)) [
    | inl empty ↦ rw empty (
        inr (
          refl,
          record {
            no_poll = (is_nil_lem c empty).0;
            no_timeouts = (is_nil_lem c empty).1;
            no_tasks = t;
          },
        ))
    | inr busy ↦ rw busy (
        Ensures-mono IsOne WorksOrIdle (wait_loop sys ticks now rounds c)
          (wait_loop-IsOne sys ticks now rounds c h) (λ _ _ e. inl e))
  ]

  task-WorksOrIdle :
      (c : Context)
      → NeverRefused rounds
      → Ensures WorksOrIdle (
          let (m, e) = process_task c in
          if ltb 0 m
          then returns 1 e
          else if is_nil e.d_poll && is_nil e.d_timeouts
          then returns 0 e
          else wait_loop sys ticks now rounds e)
  task-WorksOrIdle c h = elim (Bool-cases (ltb 0 (process_task c).0)) [
    | inl one ↦ rw one (inl refl)
    | inr nothing ↦
        rw (nothing, (process_task_none c nothing).0)
          (rest-WorksOrIdle c h (process_task_none c nothing).1)
  ]

  -- `run_one` returns 1, or it returns 0 and nothing waits.
  pub run_one_lem :
      (c : Context) → NeverRefused rounds → Ensures WorksOrIdle (run_one sys ticks now rounds c)
  unfolding run_one
  run_one_lem c h = elim (Bool-cases (ltb 0 (process_timeout now c).0)) [
    | inl one ↦ rw one (inl refl)
    | inr nothing ↦ rw (nothing, process_timeout_none now c nothing) (task-WorksOrIdle c h)
  ]

done-IsIdle : {n : ℕ} (d : Context) → n ≡ 0 → WorksOrIdle n d → IsIdle d
done-IsIdle d z (inl one) = absurd (omega arith)
done-IsIdle d z (inr (_, idle)) = idle

-- `run` returns only when nothing waits for a socket, for its time or for its turn, where poll(2)
-- fails with EINTR or EAGAIN at most.
pub run_lem :
    (ticks : ℕ) (turns : List Turn) (count : ℕ) (c : Context)
    → TurnsNeverRefused turns
    → Ensures (λ _ d. IsIdle d) (run ticks turns count c)
unfolding run
run_lem ticks [] count c h = tt
run_lem ticks (t ∷ turns) count c (h, hs) =
    Ensures-and_then WorksOrIdle (λ _ d. IsIdle d) (run_one t.sys ticks t.now t.rounds c)
      (λ n d. elim n [ zero ↦ returns count d | suc k ↦ run ticks turns (count + suc k) d ])
      (run_one_lem t.sys ticks t.now t.rounds c h)
      (λ n d e. elim (ℕ-cases n) [
        | inl z ↦ rw z (done-IsIdle d z e)
        | inr (k, more) ↦ rw more (run_lem ticks turns (count + suc k) d hs)
      ])
