-- ===== src/Sender/Steps.antt =====
-- The operation of `net.Sender` and a context of `net.Poll` together: the context's log of virtual
-- calls, which each call of the context starts afresh, is handed to the operation. `start` of
-- sender.hpp, the call operator of `cancel_callback`, and what else happens to the two: the loop
-- runs, somebody requests a stop, other operations use the context.
use net.Prelude.{ℕ, ◌≡◌, Bool, true, List, [], ◌∷◌, ◌==◌, if◌then◌else◌}
use net.Prelude.Int.{is_above_one}
use net.Prelude.Outcome.{Outcome, returns, waits, undefined, terminated, and_then}
use net.Event.{SubmitResult}
use net.Poll
use net.Poll.{Context, M, Signal, completed, failed_with, cancelled, ran}
use net.Poll.Work.{System}
use net.Poll.Run.{Round, run_one}
use net.Poll.Ledger.{pending}
use net.Poll.Conservation.{IsAligned}
use net.Sender.{State, add_one, reset, complete, error, cancel, callback_complete}

-- `stop_requested` is the state of the stop token; a callback is run at most once, when it changes.
pub record Client : Type 0 where
  pub context : Context
  pub state : State
  pub stop_requested : Bool

abbrev pub with_state : State → Client → Client
with_state s k = record k { state = s }

-- `d_callback.emplace`.
abbrev pub engage : State → State
engage s = record s { d_callback = true }

-- The number of the operation, and that of its `cancel_callback`.
module _ (op cb : ℕ) where
  -- `ended` is what the operation does if it is the one that is called.
  abbrev pub route : ℕ → (State → State) → State → State
  route a ended s = if a == op then ended s else if a == cb then callback_complete s else s

  abbrev pub deliver : Signal → State → State
  deliver (completed a) s = route a complete s
  deliver (failed_with a e) s = route a (error e) s
  deliver (cancelled a) s = route a cancel s
  deliver (ran task) s = s

  -- Oldest first.
  abbrev pub deliver_all : List Signal → State → State
  deliver_all [] s = s
  deliver_all (x ∷ xs) s = deliver x (deliver_all xs s)

  abbrev pub hand_over : {A : Type 0} → Client → Outcome Context A → Outcome Client A
  hand_over k (returns a d) =
      returns a (record k { context = d; state = deliver_all d.signals k.state })
  hand_over k waits = waits
  hand_over k undefined = undefined
  hand_over k terminated = terminated

  abbrev pub log_empty : Client → Context
  log_empty k = record k.context { signals = [] }

  abbrev pub call : {A : Type 0} → M A → Client → Outcome Client A
  call m k = hand_over k (m (log_empty k))

  -- `cancel_callback::operator()`.
  unfoldable pub invoke : Client → Outcome Client (Unit {0})
  invoke k =
      let counted = with_state (add_one k.state) k in
      if is_above_one counted.state.d_outstanding
      then call (Poll.cancel cb op) counted
      else returns tt counted

  abbrev pub after_submit : SubmitResult → Client → Outcome Client (Unit {0})
  after_submit SubmitResult.ready k = returns tt (with_state (complete k.state) k)
  after_submit SubmitResult.submit k = returns tt k
  after_submit SubmitResult.error k = returns tt k

  -- `sender_state::start`; `submit` is the call of the context that the descriptor's data makes.
  unfoldable pub start : M SubmitResult → Client → Outcome Client (Unit {0})
  unfolding invoke
  start submit k =
      let counted = with_state (add_one k.state) k in
      and_then (if k.stop_requested then invoke counted else returns tt counted) λ _ emplaced.
        let engaged = with_state (engage emplaced.state) emplaced in
        if engaged.stop_requested
        then returns tt (with_state (cancel (reset engaged.state)) engaged)
        else and_then (call submit engaged) after_submit

  -- `request_stop` of the stop source: the callback runs if there is one, the first time.
  unfoldable pub request_stop : Client → Outcome Client (Unit {0})
  unfolding invoke
  request_stop k =
      let requested = record k { stop_requested = true } in
      if k.stop_requested
      then returns tt k
      else if k.state.d_callback
      then invoke requested
      else returns tt requested

-- What may happen next, where the operating system answers as `Answers` allows.
module _ (op cb : ℕ) (Answers : System → Type 0) where
  pub data Step : Client → Client → Type 0 where
    runs :
        (sys : System) (ticks now : ℕ) (rounds : List Round) (n : ℕ) (k l : Client)
        → Answers sys
        → call op cb (run_one sys ticks now rounds) k ≡ returns n l
        → Step k l
    stops : (k l : Client) → request_stop op cb k ≡ returns tt l → Step k l
    -- a call for other operations, which leaves the vectors of one size and neither moves these
    -- two nor tells them anything
    others :
        (d : Context) (k : Client)
        → IsAligned d
        → pending d op ≡ pending k.context op
        → pending d cb ≡ pending k.context cb
        → Step k (record k { context = d })

  pub data History : Client → Client → Type 0 where
    none_yet : (k : Client) → History k k
    then_step : (k l m : Client) → History k l → Step l m → History k m
