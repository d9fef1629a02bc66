-- ===== src/Scope/Live.antt =====
-- The count of the scope of demo_scope.hpp, whatever order its jobs complete in.
use net.Prelude.{
  ℕ, zero, suc, ◌+◌, ◌^◌, ◌≤◌, ◌<◌, ◌≡◌, refl, ap, inl, inr, false, some, List, [], ◌∷◌, arith,
  Option-cases, length, length-append, length-set, get_elem?, set, total, total-append, total-set,
}
use net.Scope.{
  Job, there, deleted, gone, Scope, fresh, spawn, stop, complete, complains, Event, spawns, stops,
  completes, step, run,
}

-- A job that is still to be counted off.
abbrev pub counted : Job → ℕ
counted there = 1
counted deleted = 1
counted gone = 0

-- How many jobs a history spawns.
abbrev pub spawned : List Event → ℕ
spawned [] = 0
spawned (spawns ∷ es) = 1 + spawned es
spawned (_ ∷ es) = spawned es

spawned-cons : (e : Event) (es : List Event) → spawned (e ∷ es) ≡ spawned (e ∷ []) + spawned es
spawned-cons spawns es = omega arith
spawned-cons stops es = omega arith
spawned-cons (completes i) es = omega arith

abbrev Right : Scope → Type 0
Right s = s.count ≡ total counted s.jobs

counted-le : (js : List Job) → total counted js ≤ length js
counted-le [] = omega arith
counted-le (there ∷ js) = omega (arith, counted-le js)
counted-le (deleted ∷ js) = omega (arith, counted-le js)
counted-le (gone ∷ js) = omega (arith, counted-le js)

complete-count :
    (j : Job) (n : ℕ)
    → n < 2 ^ 64
    → counted j ≤ n
    → (complete j n).1 + counted j ≡ n + counted (complete j n).0
unfolding complete
complete-count there n few some_left = refl
complete-count deleted n few some_left = omega arith
complete-count gone n few some_left = refl

counted-total :
    (js : List Job) (i : ℕ) {j : Job} → get_elem? js i ≡ some j → counted j ≤ total counted js
counted-total [] i e = absurd cc
counted-total (k ∷ js) zero {j} e =
    let same : k ≡ j = ground arith in omega (arith, ap counted same)
counted-total (k ∷ js) (suc i) e = omega (arith, counted-total js i e)

-- One step, which leaves the counted jobs and those still to be spawned within bounds.
step-count :
    (e : Event) (s : Scope)
    → length s.jobs + spawned (e ∷ []) < 2 ^ 64
    → Right s
    → Right (step e s) × (length (step e s).jobs ≡ length s.jobs + spawned (e ∷ []))
unfolding step spawn stop
step-count spawns s few h =
    let l = length-append s.jobs (there ∷ []) in
    (omega (arith, total-append counted s.jobs (there ∷ []), counted-le s.jobs), omega arith)
step-count stops s few h = (h, omega arith)
step-count (completes i) s few h = elim (Option-cases (get_elem? s.jobs i)) [
  | inl absent ↦ rw (absent, step) (h, omega arith)
  | inr (j, present) ↦
      let (j', n) = complete j s.count in
      let t = total-set counted s.jobs i j' present in
      let below = counted-le s.jobs in
      let above = counted-le (set s.jobs i j') in
      let l = length-set s.jobs i j' in
      let c =
        complete-count j s.count (omega arith) (omega (arith, counted-total s.jobs i present)) in
      rw (present, step) (omega arith, omega arith)
]

run-count :
    (es : List Event) (s : Scope)
    → length s.jobs + spawned es < 2 ^ 64
    → Right s
    → Right (run es s) × (length (run es s).jobs ≡ length s.jobs + spawned es)
unfolding run
run-count [] s few h = (h, omega arith)
run-count (e ∷ es) s few h =
    let one : spawned (e ∷ es) ≡ spawned (e ∷ []) + spawned es = spawned-cons e es in
    let (h', l) = step-count e s (omega arith) h in
    let (h'', l') = run-count es (step e s) (omega arith) h' in (h'', omega arith)

none_left :
    (js : List Job) (i : ℕ) → total counted js ≡ 0 → i < length js → get_elem? js i ≡ some gone
none_left [] i z lt = absurd (omega arith)
none_left (gone ∷ js) zero z lt = refl
none_left (there ∷ js) i z lt = absurd (omega arith)
none_left (deleted ∷ js) i z lt = absurd (omega arith)
none_left (gone ∷ js) (suc i) z lt = none_left js i (omega arith) (omega arith)

-- On a scope on which fewer than 2^64 jobs were spawned, in whatever order they were spawned and
-- completed, the count is the number of jobs that are not counted off.
count-run :
    (es : List Event)
    → spawned es < 2 ^ 64
    → (run es fresh).count ≡ total counted (run es fresh).jobs
count-run es few = (run-count es fresh (omega arith) refl).0

-- A scope on which fewer than 2^64 jobs were spawned, and which is destroyed without complaint, has
-- no job left, in whatever order they were spawned and completed: each was deleted and counted off.
pub complains-run :
    (es : List Event) (i : ℕ)
    → spawned es < 2 ^ 64
    → complains (run es fresh) ≡ false
    → i < spawned es
    → get_elem? (run es fresh).jobs i ≡ some gone
unfolding complains
complains-run es i few quiet lt =
    none_left (run es fresh).jobs i (ground (arith, count-run es few))
      (omega (arith, (run-count es fresh (omega arith) refl).1))
