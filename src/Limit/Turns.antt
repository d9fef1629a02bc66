-- ===== src/Limit/Turns.antt =====
-- `pg::limit` of postgres.cpp runs one operation at a time, and each in the end.
use net.Prelude.{
  ℕ, zero, suc, ◌+◌, ◌≤◌, ◌≡◌, refl, ◌∙◌, Bool, true, false, List, [], ◌∷◌, ◌++◌, arith, length,
  total,
}
use net.Limit.{Limit, fresh, run, start, complete, receive, Event, starts, ends, step, run_all}

-- The object is in use by exactly one operation, or by none, and then none waits.
pub data Shape : Bool → List ℕ → List ℕ → Type 0 where
  free : Shape false [] []
  used : (op : ℕ) (waiting : List ℕ) → Shape true (op ∷ []) waiting

abbrev pub IsExclusive : Limit → Type 0
IsExclusive l = Shape l.in_use l.started l.head

-- The weight of the operations that are waiting, running or through.
abbrev pub weight : (ℕ → ℕ) → Limit → ℕ
weight f l = total f l.head + total f l.started + total f l.told

abbrev pub started_by : (ℕ → ℕ) → List Event → ℕ
started_by f [] = 0
started_by f (starts op ∷ es) = f op + started_by f es
started_by f (ends ∷ es) = started_by f es

record Steps (l m : Limit) (e : Event) : Type 0 where
  exclusive : IsExclusive m
  balanced : (f : ℕ → ℕ) → weight f m ≡ weight f l + started_by f (e ∷ [])

abbrev limit : Bool → List ℕ → List ℕ → List ℕ → Limit
limit in_use running waiting through = record {
  in_use = in_use;
  head = waiting;
  started = running;
  told = through;
}

Shape-Steps :
    {in_use : Bool} {running waiting : List ℕ} (through : List ℕ)
    → Shape in_use running waiting
    → (e : Event)
    → Steps (limit in_use running waiting through) (step e (limit in_use running waiting through)) e
unfolding step start receive complete run
Shape-Steps through free (starts op) = record {
  exclusive = used op [];
  balanced = λ f. omega arith;
}
Shape-Steps through free ends = record { exclusive = free; balanced = λ f. omega arith }
Shape-Steps through (used o waiting) (starts op) = record {
  exclusive = used o (op ∷ waiting);
  balanced = λ f. omega arith;
}
Shape-Steps through (used o []) ends = record { exclusive = free; balanced = λ f. omega arith }
Shape-Steps through (used o (op ∷ waiting)) ends = record {
  exclusive = used op waiting;
  balanced = λ f. omega arith;
}

started_by-cons :
    (f : ℕ → ℕ) (e : Event) (es : List Event)
    → started_by f (e ∷ es) ≡ started_by f (e ∷ []) + started_by f es
started_by-cons f (starts op) es = omega arith
started_by-cons f ends es = omega arith

run_all-Steps :
    (es : List Event) (l : Limit)
    → IsExclusive l
    → IsExclusive (run_all es l)
      × ((f : ℕ → ℕ) → weight f (run_all es l) ≡ weight f l + started_by f es)
unfolding run_all
run_all-Steps [] l h = (h, λ f. omega arith)
run_all-Steps (e ∷ es) l h =
    let one = Shape-Steps l.told h e in
    let (h', rest) = run_all-Steps es (step e l) one.exclusive in
    (h', λ f. omega (arith, rest f, one.balanced f, started_by-cons f e es))

-- Whatever the order in which operations are started and the one that runs completes, the object is
-- in use exactly where one operation runs, no other runs, and none waits where it is not in use; and
-- each operation is waiting, running or through as often, taken together, as it was started.
pub run_all-Exclusive :
    (es : List Event)
    → IsExclusive (run_all es fresh) × ((f : ℕ → ℕ) → weight f (run_all es fresh) ≡ started_by f es)
run_all-Exclusive es =
    let (h, balance) = run_all-Steps es fresh free in (h, λ f. omega (arith, balance f))

-- Completions, one after the other.
abbrev pub ends_only : ℕ → List Event
ends_only zero = []
ends_only (suc n) = ends ∷ ends_only n

-- Enough completions see all operations through.
ends_only-drained :
    {in_use : Bool} {running waiting : List ℕ} (through : List ℕ) (n : ℕ)
    → Shape in_use running waiting
    → length running + length waiting ≤ n
    → (m : Limit) × (run_all (ends_only n) (limit in_use running waiting through) ≡ m)
      × (m.in_use ≡ false)
      × (m.started ≡ [])
      × (m.head ≡ [])
      × ((f : ℕ → ℕ) → total f m.told ≡ total f waiting + total f running + total f through)
unfolding run_all step receive complete run
ends_only-drained through zero free enough =
    (limit false [] [] through, refl, refl, refl, refl, λ f. omega arith)
ends_only-drained through zero (used o waiting) enough = absurd (omega arith)
ends_only-drained through (suc n) free enough = ends_only-drained through n free (omega arith)
ends_only-drained through (suc n) (used o []) enough =
    let (m, e, idle, none_runs, none_waits, all) =
      ends_only-drained (o ∷ through) n free (omega arith) in
    (m, e, idle, none_runs, none_waits, λ f. omega (arith, all f))
ends_only-drained through (suc n) (used o (op ∷ waiting)) enough =
    let (m, e, idle, none_runs, none_waits, all) =
      ends_only-drained (o ∷ through) n (used op waiting) (omega arith) in
    (m, e, idle, none_runs, none_waits, λ f. omega (arith, all f))

run_all-append : (es fs : List Event) (l : Limit) → run_all (es ++ fs) l ≡ run_all fs (run_all es l)
unfolding run_all
run_all-append [] fs l = refl
run_all-append (e ∷ es) fs l = run_all-append es fs (step e l)

total-one : (xs : List ℕ) → total (λ _. 1) xs ≡ length xs
total-one [] = refl
total-one (x ∷ xs) = omega (arith, total-one xs)

-- After any history, as many completions as operations were started, each of the operation that
-- runs, are enough for every operation to be through: the object is not in use, none waits, and the
-- receiver of each was told as often as it was started.
pub run_all-drained :
    (es : List Event)
    → (m : Limit) × (run_all (es ++ ends_only (started_by (λ _. 1) es)) fresh ≡ m)
      × (m.in_use ≡ false)
      × (m.started ≡ [])
      × (m.head ≡ [])
      × ((f : ℕ → ℕ) → total f m.told ≡ started_by f es)
run_all-drained es =
    let n = started_by (λ _. 1) es in
    let l = run_all es fresh in
    let (h, balance) = run_all-Exclusive es in
    let (m, e, idle, none_runs, none_waits, all) =
      ends_only-drained l.told n h
        (omega (arith, balance (λ _. 1), total-one l.started, total-one l.head)) in
    (
      m,
      run_all-append es (ends_only n) fresh ∙ e,
      idle,
      none_runs,
      none_waits,
      λ f. omega (arith, all f, balance f),
    )
