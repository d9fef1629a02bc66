-- ===== src/Poll/Timing.antt =====
-- When the timers of a `net.Poll` context fire, how long `poll(2)` is asked to wait for them, and
-- when `run_one` and `run` say that nothing is left to do.
use net.Prelude.{
  ℕ, ◌-◌, ◌/◌, ◌≤◌, ◌<◌, ◌≡◌, refl, sym, ◌∙◌, subst, List, [], ◌∷◌, arith, ltb, ne→==, le→leb,
  ==_refl, ◌^◌,
}
use net.Prelude.Int.{ℤ, pos, negsuc}
use native.Mathlib.Decide.{dec_le}
use net.Poll.{Context, completed, signal, deadline_of, process_timeout}
use net.Poll.Run.{timeout, to_int, next_time}
use net.Poll.Calls.{IsTimely}
use net.SortedList.Order.{NoneLess, IsSorted}

-- Every timer is set for a time after `now`.
abbrev pub AllLater : ℕ → (ℕ → ℕ) → List ℕ → Type 0
AllLater now deadline [] = Unit {0}
AllLater now deadline (op ∷ ops) = (now < deadline op) × AllLater now deadline ops

AllLater-NoneLess :
    (now v : ℕ) (deadline : ℕ → ℕ) (ops : List ℕ)
    → now < v
    → NoneLess ltb deadline v ops
    → AllLater now deadline ops
AllLater-NoneLess now v deadline [] h n = tt
AllLater-NoneLess now v deadline (op ∷ ops) h (n, ns) =
    (ground arith, AllLater-NoneLess now v deadline ops h ns)

-- The two ends of `process_timeout`.
pub data Fires (now : ℕ) (c : Context) : ℕ × Context → Type 0 where
  fires_none : AllLater now (deadline_of c) c.d_timeouts → Fires now c (0, c)
  fires_first :
      (op : ℕ) (rest : List ℕ) (d : Context)
      → c.d_timeouts ≡ op ∷ rest
      → deadline_of c op ≤ now
      → NoneLess ltb (deadline_of c) (deadline_of c op) rest
      → d ≡ signal (completed op) (record c { d_timeouts = rest })
      → Fires now c (1, d)

module _ (now : ℕ) (c : Context) where
  pub process_timeout_none : c.d_timeouts ≡ [] → process_timeout now c ≡ (0, c)
  unfolding process_timeout
  process_timeout_none h = ground arith

  process_timeout_early :
      (op : ℕ) (rest : List ℕ)
      → c.d_timeouts ≡ op ∷ rest
      → now < deadline_of c op
      → process_timeout now c ≡ (0, c)
  unfolding process_timeout
  process_timeout_early op rest h early = ground arith

  process_timeout_due :
      (op : ℕ) (rest : List ℕ)
      → c.d_timeouts ≡ op ∷ rest
      → deadline_of c op ≤ now
      → process_timeout now c ≡ (1, signal (completed op) (record c { d_timeouts = rest }))
  unfolding process_timeout
  process_timeout_due op rest h due = ground arith

  process_timeout_by :
      (ops : List ℕ) → c.d_timeouts ≡ ops → IsTimely c → Fires now c (process_timeout now c)
  process_timeout_by [] e h =
      subst (Fires now c) (sym (process_timeout_none e))
        (fires_none (subst (AllLater now (deadline_of c)) (sym e) tt))
  process_timeout_by (op ∷ rest) e h =
      let (first, _) = subst (IsSorted ltb (deadline_of c)) e h in
      elim (dec_le (deadline_of c op) now) [
        | yes due ↦ subst (Fires now c) (sym (process_timeout_due op rest e due)) (
            fires_first op rest (signal (completed op) (record c { d_timeouts = rest })) e due first
              refl)
        | no late ↦
            let early : now < deadline_of c op = omega arith in
            subst (Fires now c) (sym (process_timeout_early op rest e early)) (
              fires_none (
                subst (AllLater now (deadline_of c)) (sym e) (
                  early,
                  AllLater-NoneLess now (deadline_of c op) (deadline_of c) rest early first,
                )))
      ]

  -- With the timers in order, `process_timeout` leaves the context alone if every timer is set for
  -- a later time; otherwise it takes out the first one, whose deadline has come and is not after
  -- that of any other, and tells it that it has completed.
  pub process_timeout_lem : IsTimely c → Fires now c (process_timeout now c)
  process_timeout_lem h = process_timeout_by c.d_timeouts refl h

module _ (ticks now : ℕ) (c : Context) where
  -- The rest of the wait for the first timer, in milliseconds.
  abbrev pub wait_of : ℕ → ℕ
  wait_of op = (deadline_of c op - now) / ticks

  to_int_small : (n : ℕ) → n < 2 ^ 31 → to_int n ≡ pos n
  unfolding to_int
  to_int_small n h = ground arith

  to_int_large : (n : ℕ) → 2 ^ 31 ≤ n → n < 2 ^ 32 → to_int n ≡ negsuc (2 ^ 32 - n - 1)
  unfolding to_int
  to_int_large n low high = ground arith

  timeout_first :
      (op : ℕ) (rest : List ℕ)
      → c.d_timeouts ≡ op ∷ rest
      → now < deadline_of c op
      → timeout ticks now c ≡ to_int (wait_of op)
  unfolding timeout
  timeout_first op rest e later =
      let next : next_time c now ≡ deadline_of c op = ground arith in
      rw (
        next,
        timeout,
        ne→== now (deadline_of c op) (omega arith),
        le→leb now (deadline_of c op) (omega arith),
      )

  timeout_none : c.d_timeouts ≡ [] → timeout ticks now c ≡ negsuc 0
  unfolding timeout
  timeout_none e =
      let next : next_time c now ≡ now = ground arith in rw (next, timeout, ==_refl now)

  -- What `poll(2)` is to be asked for: -1, which is no limit, or the milliseconds to the first
  -- deadline.
  abbrev pub asked : List ℕ → ℤ
  asked [] = negsuc 0
  asked (op ∷ rest) = pos (wait_of op)

  -- The first deadline is fewer than 2^31 milliseconds away.
  abbrev pub IsNear : List ℕ → Type 0
  IsNear [] = Unit {0}
  IsNear (op ∷ rest) = wait_of op < 2 ^ 31

  timeout_by :
      (ops : List ℕ)
      → c.d_timeouts ≡ ops
      → AllLater now (deadline_of c) ops
      → IsNear ops
      → timeout ticks now c ≡ asked ops
  timeout_by [] e h near = timeout_none e
  timeout_by (op ∷ rest) e (later, _) near =
      timeout_first op rest e later ∙ to_int_small (wait_of op) near

  -- Where no timer is due and the first deadline is fewer than 2^31 milliseconds away, `poll(2)`
  -- is asked to wait without limit if no timer is set, and for the whole milliseconds to the first
  -- deadline otherwise.
  pub timeout_lem :
      AllLater now (deadline_of c) c.d_timeouts
      → IsNear c.d_timeouts
      → timeout ticks now c ≡ asked c.d_timeouts
  timeout_lem h near = timeout_by c.d_timeouts refl h near

  -- If the first deadline is from 2^31 to 2^32 - 1 milliseconds away (25 to 50 days), then the
  -- number handed to `poll(2)` is negative, which asks it to wait without end.
  pub timeout_overflow :
      (op : ℕ) (rest : List ℕ)
      → c.d_timeouts ≡ op ∷ rest
      → now < deadline_of c op
      → 2 ^ 31 ≤ wait_of op
      → wait_of op < 2 ^ 32
      → (n : ℕ) × (timeout ticks now c ≡ negsuc n)
  timeout_overflow op rest e later low high =
      (2 ^ 32 - wait_of op - 1, timeout_first op rest e later ∙ to_int_large (wait_of op) low high)
