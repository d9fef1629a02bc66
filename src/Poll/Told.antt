-- ===== src/Poll/Told.antt =====
-- What the `work` functions of `net.Poll.Work` do to a context: each tells its operation of its
-- end once, or not at all and answers `submit`, and leaves the queues alone.
use net.Prelude.{
  ℕ, ◌+◌, ◌≡◌, refl, ◌≢◌, true, Option, none, some, List, [], ◌∷◌, arith, inl, inr, Option-cases,
}
use net.Prelude.Outcome.{Outcome, returns, waits, undefined, terminated, and_then}
use net.Container
use net.Event.{SubmitResult}
use net.Poll.{
  Errno, eintr, eagain, Rc, ok, failed, WorkKind, poll_work, accept_work, connect_work,
  receive_work, send_work, Context, M, make_socket, native_handle, update,
}
use net.Poll.Work.{System, accept_loop, transfer_loop, connected, run_work, finish, set_accepted}
use net.Poll.Ledger.{unit, told}

-- Wherever the call returns, its result and the state after it are in `P`.
abbrev pub Ensures : {A : Type 0} → (A → Context → Type 0) → Outcome Context A → Type 0
Ensures P (returns a c) = P a c
Ensures P waits = Unit {0}
Ensures P undefined = Unit {0}
Ensures P terminated = Unit {0}

-- `native_handle` changes nothing, so what follows it is read at the same state.
pub Ensures-native_handle :
    {B : Type 0} (Q : B → Context → Type 0) (id : ℕ) (c : Context) (k : ℕ → M B)
    → ((handle : ℕ) → Ensures Q (k handle c))
    → Ensures Q (and_then (native_handle id c) k)
unfolding native_handle
Ensures-native_handle Q id c k next = elim (Option-cases (Container.lookup id c.d_sockets)) [
  | inl e ↦ rw (e, native_handle) tt
  | inr (r, e) ↦ rw (e, native_handle) (next r.handle)
]

-- The rule for a sequence of calls.
pub Ensures-and_then :
    {A B : Type 0} (P : A → Context → Type 0) (Q : B → Context → Type 0) (o : Outcome Context A)
    (k : A → M B)
    → Ensures P o
    → ((a : A) (d : Context) → P a d → Ensures Q (k a d))
    → Ensures Q (and_then o k)
Ensures-and_then P Q (returns a d) k p next = next a d p
Ensures-and_then P Q waits k p next = tt
Ensures-and_then P Q undefined k p next = tt
Ensures-and_then P Q terminated k p next = tt

pub record SameQueues (c d : Context) : Type 0 where
  pub same_poll : d.d_poll ≡ c.d_poll
  pub same_outstanding : d.d_outstanding ≡ c.d_outstanding
  pub same_timeouts : d.d_timeouts ≡ c.d_timeouts
  pub same_tasks : d.d_tasks ≡ c.d_tasks

-- How often a `work` function with this result has told its operation of its end.
abbrev pub told_by : SubmitResult → ℕ → ℕ → ℕ
told_by SubmitResult.submit a op = 0
told_by _ a op = unit a op

pub record Tells (c : Context) (op : ℕ) (r : SubmitResult) (d : Context) : Type 0 where
  pub queues : SameQueues c d
  pub once : (a : ℕ) → told d a ≡ told_by r a op + told c a

module _ (sys : System) (op : ℕ) where
  accepted-Tells :
      (fd : ℕ) (c : Context)
      → Ensures (Tells c op) (
          and_then
            (make_socket fd c)
            λ id d. finish SubmitResult.ready op (update (set_accepted id) op d))
  unfolding make_socket
  accepted-Tells fd c =
      elim (Option-cases (Container.insert (record { handle = fd; blocking = true }) c.d_sockets)) [
        | inl e ↦ rw (e, make_socket) tt
        | inr ((id, sockets), e) ↦
            rw (e, make_socket) (record { queues = ground arith; once = λ a. omega arith })
      ]

  accept_loop-Tells : (rs : List Rc) (c : Context) → Ensures (Tells c op) (accept_loop rs op c)
  unfolding accept_loop
  accept_loop-Tells [] c = tt
  accept_loop-Tells (ok fd ∷ rs) c = accepted-Tells fd c
  accept_loop-Tells (failed eintr ∷ rs) c = accept_loop-Tells rs c
  accept_loop-Tells (failed eagain ∷ rs) c = record {
    queues = ground arith;
    once = λ a. omega arith;
  }
  accept_loop-Tells (failed e ∷ rs) c = record { queues = ground arith; once = λ a. omega arith }

  transfer_loop-Tells : (rs : List Rc) (c : Context) → Ensures (Tells c op) (transfer_loop rs op c)
  unfolding transfer_loop
  transfer_loop-Tells [] c = tt
  transfer_loop-Tells (ok n ∷ rs) c = record { queues = ground arith; once = λ a. omega arith }
  transfer_loop-Tells (failed eintr ∷ rs) c = transfer_loop-Tells rs c
  transfer_loop-Tells (failed e ∷ rs) c = record { queues = ground arith; once = λ a. omega arith }

  connected-Tells :
      (answer : Rc) (error : Option Errno) (c : Context)
      → Ensures (Tells c op) (connected answer error op c)
  connected-Tells (failed e) error c = record { queues = ground arith; once = λ a. omega arith }
  connected-Tells (ok _) none c = record { queues = ground arith; once = λ a. omega arith }
  connected-Tells (ok _) (some e) c = record { queues = ground arith; once = λ a. omega arith }

  -- The functions of `accept`, `connect`, `receive` and `send` tell the operation once, unless
  -- they answer `submit`.
  pub run_work-Tells :
      (kind : WorkKind) (c : Context)
      → kind ≢ poll_work
      → Ensures (Tells c op) (run_work kind sys op c)
  unfolding run_work
  run_work-Tells poll_work c other = absurd (other refl)
  run_work-Tells accept_work c _ =
      Ensures-native_handle (Tells c op) _ c _
        λ handle. accept_loop-Tells (sys.accept_call handle) c
  run_work-Tells connect_work c _ =
      Ensures-native_handle (Tells c op) _ c _
        λ handle. connected-Tells (sys.getsockopt handle) (sys.so_error handle) c
  run_work-Tells receive_work c _ =
      Ensures-native_handle (Tells c op) _ c _ λ handle. transfer_loop-Tells (sys.recvmsg handle) c
  run_work-Tells send_work c _ =
      Ensures-native_handle (Tells c op) _ c _ λ handle. transfer_loop-Tells (sys.sendmsg handle) c

pub Ensures-both :
    {A : Type 0} (P Q R : A → Context → Type 0) (o : Outcome Context A)
    → Ensures P o
    → Ensures Q o
    → ((a : A) (c : Context) → P a c → Q a c → R a c)
    → Ensures R o
Ensures-both P Q R (returns a c) p q next = next a c p q
Ensures-both P Q R waits p q next = tt
Ensures-both P Q R undefined p q next = tt
Ensures-both P Q R terminated p q next = tt

-- Among these answers there is no EAGAIN.
abbrev pub NoEagain : List Rc → Type 0
NoEagain [] = Unit {0}
NoEagain (failed eagain ∷ rs) = ⊥
NoEagain (r ∷ rs) = NoEagain rs

-- Where the system says that a socket is ready, the next call on it does not say EAGAIN.
pub record Prompt (sys : System) : Type 0 where
  pub accepts : (handle : ℕ) → NoEagain (sys.accept_call handle)
  pub receives : (handle : ℕ) → NoEagain (sys.recvmsg handle)
  pub sends : (handle : ℕ) → NoEagain (sys.sendmsg handle)

abbrev pub Settled : SubmitResult → Context → Type 0
Settled r d = r ≢ SubmitResult.submit

module _ (sys : System) (op : ℕ) where
  accept_loop-Settled :
      (rs : List Rc) (c : Context) → NoEagain rs → Ensures Settled (accept_loop rs op c)
  unfolding accept_loop make_socket
  accept_loop-Settled [] c h = tt
  accept_loop-Settled (ok fd ∷ rs) c h =
      elim (Option-cases (Container.insert (record { handle = fd; blocking = true }) c.d_sockets)) [
        | inl e ↦ rw (e, make_socket) tt
        | inr ((id, sockets), e) ↦ rw (e, make_socket) (λ same. cc)
      ]
  accept_loop-Settled (failed eintr ∷ rs) c h = accept_loop-Settled rs c h
  accept_loop-Settled (failed eagain ∷ rs) c h = elim h [ ]
  accept_loop-Settled (failed e ∷ rs) c h = λ same. cc

  transfer_loop-Settled :
      (rs : List Rc) (c : Context) → NoEagain rs → Ensures Settled (transfer_loop rs op c)
  unfolding transfer_loop
  transfer_loop-Settled [] c h = tt
  transfer_loop-Settled (ok n ∷ rs) c h = λ same. cc
  transfer_loop-Settled (failed eintr ∷ rs) c h = transfer_loop-Settled rs c h
  transfer_loop-Settled (failed eagain ∷ rs) c h = elim h [ ]
  transfer_loop-Settled (failed e ∷ rs) c h = λ same. cc

  connected-Settled :
      (answer : Rc) (error : Option Errno) (c : Context)
      → Ensures Settled (connected answer error op c)
  connected-Settled (failed e) error c = λ same. cc
  connected-Settled (ok _) none c = λ same. cc
  connected-Settled (ok _) (some e) c = λ same. cc

  pub run_work-Settled :
      (kind : WorkKind) (c : Context)
      → Prompt sys
      → kind ≢ poll_work
      → Ensures Settled (run_work kind sys op c)
  unfolding run_work
  run_work-Settled poll_work c p other = absurd (other refl)
  run_work-Settled accept_work c p _ =
      Ensures-native_handle Settled _ c _
        λ handle. accept_loop-Settled (sys.accept_call handle) c (p.accepts handle)
  run_work-Settled connect_work c p _ =
      Ensures-native_handle Settled _ c _
        λ handle. connected-Settled (sys.getsockopt handle) (sys.so_error handle) c
  run_work-Settled receive_work c p _ =
      Ensures-native_handle Settled _ c _
        λ handle. transfer_loop-Settled (sys.recvmsg handle) c (p.receives handle)
  run_work-Settled send_work c p _ =
      Ensures-native_handle Settled _ c _
        λ handle. transfer_loop-Settled (sys.sendmsg handle) c (p.sends handle)

-- The operation was told of its end once, no other was, and the queues are as before.
pub record TellsOnce (c : Context) (op : ℕ) (d : Context) : Type 0 where
  pub kept : SameQueues c d
  pub told_once : (a : ℕ) → told d a ≡ unit a op + told c a

told_by-Settled :
    (c : Context) (op : ℕ) (r : SubmitResult) (d : Context)
    → Tells c op r d
    → Settled r d
    → TellsOnce c op d
told_by-Settled c op SubmitResult.ready d t s = record { kept = t.queues; told_once = t.once }
told_by-Settled c op SubmitResult.submit d t s = absurd (s refl)
told_by-Settled c op SubmitResult.error d t s = record { kept = t.queues; told_once = t.once }

-- Without EAGAIN a readiness indication ends its operation, whatever kind it is of.
pub run_work-TellsOnce :
    (sys : System) (op : ℕ) (kind : WorkKind) (c : Context)
    → Prompt sys
    → Ensures (λ _ d. TellsOnce c op d) (run_work kind sys op c)
run_work-TellsOnce sys op kind c p = go kind
  where
    other : (k : WorkKind) → k ≢ poll_work → Ensures (λ _ d. TellsOnce c op d) (run_work k sys op c)
    other k ne =
        Ensures-both (Tells c op) Settled (λ _ d. TellsOnce c op d) (run_work k sys op c)
          (run_work-Tells sys op k c ne) (run_work-Settled sys op k c p ne) (told_by-Settled c op)

    go : (k : WorkKind) → Ensures (λ _ d. TellsOnce c op d) (run_work k sys op c)
    go poll_work = unfold run_work in record { kept = ground arith; told_once = λ a. omega arith }
    go accept_work = other accept_work (λ e. cc)
    go connect_work = other connect_work (λ e. cc)
    go receive_work = other receive_work (λ e. cc)
    go send_work = other send_work (λ e. cc)

pub Ensures-mono :
    {A : Type 0} (P Q : A → Context → Type 0) (o : Outcome Context A)
    → Ensures P o
    → ((a : A) (d : Context) → P a d → Q a d)
    → Ensures Q o
Ensures-mono P Q (returns a d) p next = next a d p
Ensures-mono P Q waits p next = tt
Ensures-mono P Q undefined p next = tt
Ensures-mono P Q terminated p next = tt

pub Ensures-any : {A : Type 0} (o : Outcome Context A) → Ensures (λ _ _. Unit {0}) o
Ensures-any (returns a d) = tt
Ensures-any waits = tt
Ensures-any undefined = tt
Ensures-any terminated = tt
