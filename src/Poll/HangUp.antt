-- ===== src/Poll/HangUp.antt =====
-- Where `run_one` of `net.Poll` goes round its loop and makes no progress.
use net.Prelude.{ℕ, ◌≡◌, refl, List, [], ◌∷◌, length, false, ◌++◌}
use net.Event.{PollBits}
use net.Poll.{Context, PollFd, process_timeout, process_task, M}
use net.Poll.Work.{System}
use net.Poll.Run.{Round, polled, wait_loop, is_nil, run_one}
use net.Prelude.Int.{ℤ}

-- The entry was made by `add_outstanding`, and nothing but POLLHUP or POLLNVAL was reported of it.
pub record IsQuiet (p : PollFd) : Type 0 where
  pub no_hup : p.events.pollhup ≡ false
  pub no_nval : p.events.pollnval ≡ false
  pub no_in : p.revents.pollin ≡ false
  pub no_out : p.revents.pollout ≡ false
  pub no_err : p.revents.pollerr ≡ false

abbrev pub AllQuiet : List PollFd → Type 0
AllQuiet [] = Unit {0}
AllQuiet (p ∷ ps) = IsQuiet p × AllQuiet ps

-- No bit but POLLHUP and POLLNVAL.
abbrev pub OnlyHangUp : List PollBits → Type 0
OnlyHangUp [] = Unit {0}
OnlyHangUp (b ∷ bits) =
    ((b.pollin ≡ false) × (b.pollout ≡ false) × (b.pollerr ≡ false)) × OnlyHangUp bits

abbrev pub HangUps : List Round → Type 0
HangUps [] = Unit {0}
HangUps (r ∷ rounds) =
    ((ps : List PollFd) (t : ℤ)
      → (bits : List PollBits) × OnlyHangUp bits × (r.poll_call ps t ≡ polled bits))
    × HangUps rounds

-- The loop is where it was: nothing but the bits that were last reported is other than before.
abbrev pub Spins : System → (ticks now : ℕ) → (List Round → M ℕ) → List Round → Context → Type 0
Spins sys ticks now loop rounds c =
    (ps : List PollFd) × AllQuiet ps
    × (length ps ≡ length c.d_poll)
    × ((more : List Round)
        → loop (rounds ++ more) c ≡ wait_loop sys ticks now more (record c { d_poll = ps }))

module _ (sys : System) (ticks now : ℕ) (rounds : List Round) (c : Context) where
  -- No timer is due and no task is there, but a socket is waited for.
  pub run_one-waits :
      process_timeout now c ≡ (0, c)
      → c.d_tasks ≡ []
      → is_nil c.d_poll ≡ false
      → run_one sys ticks now rounds c ≡ wait_loop sys ticks now rounds c
  unfolding run_one process_task
  run_one-waits no_timer no_tasks busy = rw (no_timer, run_one) (rw (no_tasks, busy) refl)
