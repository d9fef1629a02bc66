-- ===== src/IntoExpected.antt =====
-- include/beman/net/detail/into_expected.hpp: the sender adaptor `into_expected`, which completes
-- with an `expected` where the sender that it adapts completes with a value or an error.
pub mod Awaited
mod Examples
use net.Task.{Completion, value, error, stopped_early}

-- `expected`, a variant of the value and the error; `unexpected` is how the second is made.
pub data Expected (V E : Type 0) : Type 0 where
  index_0 : V → Expected V E
  index_1 : E → Expected V E

module _ {V E : Type 0} where
  -- What the receiver of the adaptor passes on; of errors, it passes on none.
  unfoldable pub adapt : Completion V E → Completion (Expected V E) E
  adapt (value v) = value (index_0 v)
  adapt (error e) = value (index_1 e)
  adapt stopped_early = stopped_early
