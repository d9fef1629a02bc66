-- ===== src/Sender.antt =====
-- include/beman/net/detail/sender.hpp: `State` is `sender_state`, the operation that a receiver is
-- connected to. `d_outstanding` counts the parties that may still use it: the operation itself and
-- a stop callback that runs. What the receiver is told is a log, newest first. The functions of
-- the namespace `Callback` are those of `cancel_callback`. `Steps` joins the state to a context of
-- `net.Poll`; the other children prove that the receiver is told once.
pub mod Steps
pub mod Deliver
pub mod Phase
pub mod Stop
pub mod Once
pub mod Start
mod Examples
use net.Prelude.{ℕ, Bool, true, false, List, [], ◌∷◌, if◌then◌else◌}
use net.Prelude.Int.{ℤ, increment, decrement, is_zero, is_above_one}
use net.Prelude.Outcome.{Outcome, returns}
use net.Poll.{Errno}

-- `set_value` of the descriptor's data, `set_error` and `set_stopped`.
pub data Completion : Type 0 where
  value stopped : Completion
  error_code : Errno → Completion

pub record State : Type 0 where
  pub d_outstanding : ℤ
  -- whether the optional `d_callback` holds a callback
  pub d_callback : Bool
  pub received : List Completion

abbrev pub tell : Completion → State → State
tell x s = record s { received = x ∷ s.received }

-- `--d_outstanding`, and `++d_outstanding`.
abbrev pub drop_one : State → State
drop_one s = record s { d_outstanding = decrement s.d_outstanding }

abbrev pub add_one : State → State
add_one s = record s { d_outstanding = increment s.d_outstanding }

abbrev pub reset : State → State
reset s = record s { d_callback = false }

unfoldable pub complete : State → State
complete s =
    if is_zero (drop_one s).d_outstanding then tell value (reset (drop_one s)) else drop_one s

unfoldable pub error : Errno → State → State
error err s =
    if is_zero (drop_one s).d_outstanding
    then tell (error_code err) (reset (drop_one s))
    else drop_one s

-- `cancel` leaves the callback engaged. `cancel_callback` has the same body in its `complete`,
-- which its `error` and `cancel` call.
unfoldable pub cancel : State → State
cancel s = if is_zero (drop_one s).d_outstanding then tell stopped (drop_one s) else drop_one s

unfoldable pub callback_complete : State → State
callback_complete s =
    if is_zero (drop_one s).d_outstanding then tell stopped (drop_one s) else drop_one s
