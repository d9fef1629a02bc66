-- ===== src/Event.antt =====
-- include/beman/net/detail/event_type.hpp, the results of io_base.hpp, and the flags of pollfd:
-- the event masks of operations and what becomes of them in `poll_context`.
use Prim.Native.Nat.{bit_and}
use net.Prelude.{ℕ, zero, suc, Bool, true, false, ◌==◌, ◌&&◌, ◌||◌, not, ◌≡◌, refl, ◌%◌, ◌^◌}

-- `in` is a reserved word here. An `enum class` may hold other values than the named ones.
pub data EventType : Type 0 where
  none_set input output in_out : EventType
  unnamed : ℕ → EventType

-- The number that stands for the value.
pub underlying : EventType → ℕ
underlying none_set = 0
underlying input = 1
underlying output = 2
underlying in_out = 3
underlying (unnamed n) = n

-- `std::uint8_t(e)`.
pub to_uint8 : EventType → ℕ
unfolding underlying
to_uint8 e = underlying e % 2 ^ 8

-- `event_type(n)`.
pub from_uint8 : ℕ → EventType
from_uint8 zero = none_set
from_uint8 (suc zero) = input
from_uint8 (suc (suc zero)) = output
from_uint8 (suc (suc (suc zero))) = in_out
from_uint8 n = unnamed n

pub event_and : EventType → EventType → EventType
unfolding to_uint8 from_uint8
event_and e0 e1 = from_uint8 (bit_and (to_uint8 e0) (to_uint8 e1))

-- `bool(e)`.
pub to_bool : EventType → Bool
unfolding underlying
to_bool e = not (underlying e == 0)

-- The bits of `events` and `revents` that the source or the system sets.
pub record PollBits : Type 0 where
  pub pollin : Bool
  pub pollout : Bool
  pub pollerr : Bool
  pub pollhup : Bool
  pub pollnval : Bool

abbrev pub no_bits : PollBits
no_bits = record {
  pollin = false;
  pollout = false;
  pollerr = false;
  pollhup = false;
  pollnval = false;
}

-- The mask that `add_outstanding` builds.
unfoldable pub poll_events : EventType → PollBits
unfolding event_and to_bool
poll_events e = record no_bits {
  pollin = to_bool (event_and e input);
  pollout = to_bool (event_and e output);
}

-- `revents & (events | POLLERR)`.
unfoldable pub is_ready : PollBits → PollBits → Bool
is_ready events revents =
    (revents.pollin && events.pollin)
    || ((revents.pollout && events.pollout)
        || (revents.pollerr
            || ((revents.pollhup && events.pollhup) || (revents.pollnval && events.pollnval))))

pub data SubmitResult : Type 0 where
  ready submit error : SubmitResult

pub poll_events_named :
    (poll_events none_set ≡ no_bits)
    × (poll_events input ≡ record no_bits { pollin = true })
    × (poll_events output ≡ record no_bits { pollout = true })
    × (poll_events in_out ≡ record no_bits { pollin = true; pollout = true })
unfolding poll_events
poll_events_named = (refl, refl, refl, refl)
