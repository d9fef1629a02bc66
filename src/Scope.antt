-- ===== src/Scope.antt =====
-- examples/demo_scope.hpp: the scope that counts the jobs that were spawned on it. A job completes
-- on a thread of its own, in two atomic steps: it is deleted, and then counted off.
pub mod Live
mod Examples
use net.Prelude.{
  ℕ, ◌+◌, ◌-◌, ◌%◌, ◌^◌, Bool, true, false, Option, none, some, List, [], ◌∷◌, ◌++◌, ltb, get_elem?,
  set,
}

-- Where a job is: there; deleted and still counted; counted off.
pub data Job : Type 0 where
  there deleted gone : Job

pub record Scope : Type 0 where
  pub count : ℕ
  pub stop_requested : Bool
  pub jobs : List Job

abbrev pub fresh : Scope
fresh = record { count = 0; stop_requested = false; jobs = [] }

-- `spawn` up to the point where the job is started.
unfoldable pub spawn : Scope → Scope
spawn s = record s { count = (s.count + 1) % 2 ^ 64; jobs = s.jobs ++ there ∷ [] }

unfoldable pub stop : Scope → Scope
stop s = record s { stop_requested = true }

-- The next step of `receiver::complete`, and what it leaves of the count. The `complete` of the
-- scope that follows the last one does nothing.
unfoldable pub complete : Job → ℕ → Job × ℕ
complete there n = (deleted, n)
complete deleted n = (gone, (n + (2 ^ 64 - 1)) % 2 ^ 64)
complete gone n = (gone, n)

-- Whether `~scope` complains.
unfoldable pub complains : Scope → Bool
complains s = ltb 0 s.count

pub data Event : Type 0 where
  spawns stops : Event
  completes : ℕ → Event

unfoldable pub step : Event → Scope → Scope
unfolding spawn stop complete
step spawns s = spawn s
step stops s = stop s
step (completes i) s = elim (get_elem? s.jobs i) [
  | none ↦ s
  | some j ↦ let (j', n) = complete j s.count in record s { count = n; jobs = set s.jobs i j' }
]

unfoldable pub run : List Event → Scope → Scope
unfolding step
run [] s = s
run (e ∷ es) s = run es (step e s)
