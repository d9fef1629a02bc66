-- ===== src/Iocp/Timeouts.antt =====
-- How long the loop of iocp_context.hpp waits.
use net.Prelude.{
  ℕ, ◌+◌, ◌-◌, ◌*◌, ◌/◌, ◌%◌, ◌^◌, ◌<◌, ◌≤◌, ◌≡◌, refl, ◌⊎◌, inl, inr, List, ◌∷◌, arith, leb, ltb,
  Bool-cases,
}
use native.Mathlib.Nat.{div-mul-le_self, div-lt_iff_lt-mul, mod-eq_of_lt, le-div_iff_mul-le}
use net.Iocp.{Context, deadline_of}
use net.Iocp.Run.{timeout_ms, infinite}

-- The wait in milliseconds fits the deadline of the first timer.
pub record Fits (ticks now deadline ms : ℕ) : Type 0 where
  pub ends : ms < infinite
  pub not_late : now < deadline → now + ms * ticks ≤ deadline
  pub as_long_as_possible : (ms ≡ infinite - 1) ⊎ (deadline < now + (ms + 1) * ticks)

-- Where there is a timer, `run_one` asks to wait for fewer milliseconds than `INFINITE`, not past
-- the deadline of the first timer if that lies ahead, and the most of those: `INFINITE - 1`, or one
-- more would pass the deadline.
pub timeout_ms-Fits :
    (ticks now : ℕ) (c : Context) {op : ℕ} {rest : List ℕ}
    → 0 < ticks
    → c.timeouts ≡ op ∷ rest
    → Fits ticks now (deadline_of c op) (timeout_ms ticks now c)
unfolding timeout_ms
timeout_ms-Fits ticks now c {op} some_ticks e = elim (Bool-cases (leb (deadline_of c op) now)) [
  | inl due ↦
      rw (e, due, timeout_ms)
        (record {
          ends = ground arith;
          not_late = λ l. ground arith;
          as_long_as_possible = inr (ground arith);
        })
  | inr later ↦
      let gap = deadline_of c op - now in
      let ms = gap / ticks in
      let below : ms * ticks ≤ gap = div-mul-le_self gap ticks in
      let above : gap < (ms + 1) * ticks = (div-lt_iff_lt-mul some_ticks).0 (omega arith) in
      elim (Bool-cases (ltb ms (infinite - 1))) [
        | inl short ↦
            let same : ms % 2 ^ 32 ≡ ms = mod-eq_of_lt (ground arith) in
            rw (e, later, short, timeout_ms)
              (rw same (record {
                ends = ground arith;
                not_late = λ l. omega arith;
                as_long_as_possible = inr (ground arith);
              }))
        | inr long ↦
            let enough : (infinite - 1) * ticks ≤ gap =
              (le-div_iff_mul-le some_ticks).0 (ground arith) in
            rw (e, later, long, timeout_ms)
              (record {
                ends = omega arith;
                not_late = λ l. omega arith;
                as_long_as_possible = inl refl;
              })
      ]
]
