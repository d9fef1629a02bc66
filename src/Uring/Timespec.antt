-- ===== src/Uring/Timespec.antt =====
-- `make_timespec` of uring_context.hpp.
use net.Prelude.{ℕ, suc, ◌+◌, ◌*◌, ◌/◌, ◌%◌, ◌≡◌, refl, ◌<◌, arith}
use net.Prelude.Int.{ℤ, pos, negsuc}
use net.Uring.Work.{make_timespec, minus}

-- The size of a number.
abbrev pub abs : ℤ → ℕ
abs (pos n) = n
abs (negsuc n) = suc n

-- The number of this size and of the sign of the other.
abbrev pub signed : ℤ → ℕ → ℤ
signed (pos _) k = pos k
signed (negsuc _) k = minus (pos k)

-- The seconds and the nanoseconds of a time have its sign, their sizes add up to its size, and there
-- are fewer than 10^9 nanoseconds.
pub make_timespec_lem :
    (t : ℤ)
    → (s ns : ℕ) × (make_timespec t ≡ (signed t s, signed t ns))
      × (s * 1000000000 + ns ≡ abs t)
      × (ns < 1000000000)
unfolding make_timespec
make_timespec_lem (pos n) = (n / 1000000000, n % 1000000000, refl, omega arith, omega arith)
make_timespec_lem (negsuc n) =
    (suc n / 1000000000, suc n % 1000000000, refl, omega arith, omega arith)
