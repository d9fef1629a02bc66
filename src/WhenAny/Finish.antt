-- ===== src/WhenAny/Finish.antt =====
-- What `when_any` of demo_algorithm.hpp tells its receiver, whichever order its children act in.
use net.Prelude.{
  sym, ltb→lt, ==→eq, ℕ, zero, suc, ◌+◌, ◌-◌, ◌^◌, ◌≤◌, ◌<◌, ◌≡◌, refl, ap, ◌∙◌, subst, inl, inr,
  true, false, Option, none, some, List, [], ◌∷◌, arith, ltb, ◌==◌, if◌then◌else◌, get_elem?, set,
  length, total, length-set, Option-cases, Bool-cases, get_elem?-some_lt, get_elem?-set_self,
  get_elem?-set_ne, total-set,
}
use net.WhenAny.{
  Completion, State, Phase, running, winning, storing, leaving, through, act, System, replicate,
  begin, step, run,
}
use net.WhenAny.Invariant.{Inv, act-Inv, AllOwn, begun, pending, finished, asking}

out_of_range : {A : Type 0} (xs : List A) (i : ℕ) → length xs ≤ i → get_elem? xs i ≡ none
out_of_range [] i h = refl
out_of_range (x ∷ xs) zero h = absurd (omega arith)
out_of_range (x ∷ xs) (suc i) h = out_of_range xs i (omega arith)

length-replicate : (V E : Type 0) (n : ℕ) → length (replicate {V = V} {E = E} n) ≡ n
length-replicate V E zero = refl
length-replicate V E (suc n) = ap suc (length-replicate V E n)

module _ {V E : Type 0} where
  step-Inv :
      {c : Completion V E} (t : ℕ × Completion V E) (sys : System V E)
      → Inv c sys
      → Inv c (step t sys)
  unfolding step
  step-Inv (i, d) sys h = elim (Option-cases (get_elem? sys.children i)) [
    | inl out ↦ rw (out, step) h
    | inr (p, e) ↦ rw (e, step) (act-Inv d h i p e)
  ]

  run-Inv :
      {c : Completion V E} (ts : List (ℕ × Completion V E)) (sys : System V E)
      → Inv c sys
      → Inv c (run ts sys)
  unfolding run
  run-Inv [] sys h = h
  run-Inv (t ∷ ts) sys h = run-Inv ts (step t sys) (step-Inv t sys h)

  total-replicate : (f : Phase V E → ℕ) (n : ℕ) → f running ≡ 0 → total f (replicate n) ≡ 0
  total-replicate f zero e = refl
  total-replicate f (suc n) e = omega (arith, total-replicate f n e)

  get_elem?-replicate : (n i : ℕ) → i < n → get_elem? (replicate {V = V} {E = E} n) i ≡ some running
  get_elem?-replicate zero i h = elim h [ ]
  get_elem?-replicate (suc n) zero h = refl
  get_elem?-replicate (suc n) (suc i) h = get_elem?-replicate n i (omega arith)

  replicate-AllOwn : (c : Completion V E) (n : ℕ) → AllOwn c (replicate n)
  replicate-AllOwn c zero = tt
  replicate-AllOwn c (suc n) = (tt, replicate-AllOwn c n)

  set-AllOwn : (c : Completion V E) (n i : ℕ) → AllOwn c (set (replicate n) i (winning c))
  set-AllOwn c zero i = tt
  set-AllOwn c (suc n) zero = (refl, replicate-AllOwn c n)
  set-AllOwn c (suc n) (suc i) = (tt, set-AllOwn c n i)

  first-Inv : (n i : ℕ) (c : Completion V E) → n < 2 ^ 64 → i < n → Inv c (step (i, c) (begin n))
  unfolding step act
  first-Inv n i c few lt =
      let here = get_elem?-replicate n i lt in
      let len = length-replicate V E n in
      let len' = length-set (replicate n) i (winning c) in
      rw (here, step)
        (record {
          few = omega arith;
          all = omega arith;
          some_done = omega arith;
          counts_done = omega (
            arith,
            total-set begun (replicate n) i (winning c) here,
            total-replicate begun n refl,
          );
          counts_ready = omega (
            arith,
            total-set finished (replicate n) i (winning c) here,
            total-replicate finished n refl,
          );
          own = set-AllOwn c n i;
          kept = inl (
            omega (
              arith,
              total-set pending (replicate n) i (winning c) here,
              total-replicate pending n refl,
            ),
            (refl, refl),
          );
          asks = inl (
              omega (
                arith,
                total-set asking (replicate n) i (winning c) here,
                total-replicate asking n refl,
              ));
          tells = inl (omega arith, refl);
        })

  -- What the first of n children to act completes with.
  abbrev pub first_result : ℕ → List (ℕ × Completion V E) → Option (Completion V E)
  first_result n [] = none
  first_result n ((i, c) ∷ ts) = if ltb i n then some c else first_result n ts

  -- How often child i acts.
  abbrev pub turns : ℕ → List (ℕ × Completion V E) → ℕ
  turns i [] = 0
  turns i ((j, c) ∷ ts) = (if j == i then 1 else 0) + turns i ts

  first_result-Inv :
      (n : ℕ) (ts : List (ℕ × Completion V E)) {c : Completion V E}
      → n < 2 ^ 64
      → first_result n ts ≡ some c
      → Inv c (run ts (begin n))
  unfolding run step
  first_result-Inv n [] few e = cc
  first_result-Inv n ((i, d) ∷ ts) {c} few e = elim (Bool-cases (ltb i n)) [
    | inl lt ↦
        let same : d ≡ c = ground arith in
        subst (λ k. Inv k (run ts (step (i, d) (begin n)))) same
          (run-Inv ts (step (i, d) (begin n)) (first-Inv n i d few (ltb→lt i n lt)))
    | inr ge ↦
        let absent =
          out_of_range (replicate {V = V} {E = E} n) i (ground (arith, length-replicate V E n)) in
        let idle : step (i, d) (begin n) ≡ begin n = rw (absent, step) refl in
        let rest : first_result n ts ≡ some c = ground arith in
        subst (λ k. Inv c (run ts k)) (sym idle) (first_result-Inv n ts few rest)
  ]

  -- The steps that a child still has to take.
  abbrev pub weight : Phase V E → ℕ
  weight running = 4
  weight (winning _) = 3
  weight (storing _) = 2
  weight leaving = 1
  weight through = 0

  act-weight :
      (c : Completion V E) (p : Phase V E) (s : State V E) → weight (act c p s).0 ≤ weight p - 1
  unfolding act
  act-weight c running s = ground arith
  act-weight c (winning d) s = omega arith
  act-weight c (storing d) s = omega arith
  act-weight c leaving s = omega arith
  act-weight c through s = omega arith

  other_stays :
      (i j : ℕ) (c : Completion V E) (sys : System V E) {p : Phase V E}
      → get_elem? sys.children i ≡ some p
      → (j == i) ≡ false
      → get_elem? (step (j, c) sys).children i ≡ some p
  unfolding step
  other_stays i j c sys here other = elim (Option-cases (get_elem? sys.children j)) [
    | inl out ↦ rw (out, step) here
    | inr (r, e) ↦
        rw (e, step)
          (get_elem?-set_ne sys.children j i (act c r sys.state).0 (λ same. ground arith) ∙ here)
  ]

  step-weight :
      (i j : ℕ) (c : Completion V E) (sys : System V E) {p : Phase V E}
      → get_elem? sys.children i ≡ some p
      → (q : Phase V E) × (get_elem? (step (j, c) sys).children i ≡ some q)
        × (weight q ≤ weight p - (if j == i then 1 else 0))
  unfolding step
  step-weight i j c sys {p} here = elim (Bool-cases (j == i)) [
    | inl own ↦
        let at_i = ==→eq j i own in
        let lt = get_elem?-some_lt sys.children i here in
        (
          (act c p sys.state).0,
          subst (λ k. get_elem? (step (k, c) sys).children i ≡ some (act c p sys.state).0)
              (sym at_i)
              (rw (here, step) (get_elem?-set_self sys.children i (act c p sys.state).0 lt)),
          rw own (act-weight c p sys.state),
        )
    | inr other ↦ (p, other_stays i j c sys here other, rw other (omega arith))
  ]

  run-weight :
      (i : ℕ) (ts : List (ℕ × Completion V E)) (sys : System V E) {p : Phase V E}
      → get_elem? sys.children i ≡ some p
      → (q : Phase V E) × (get_elem? (run ts sys).children i ≡ some q)
        × (weight q ≤ weight p - turns i ts)
  unfolding run
  run-weight i [] sys {p} here = (p, here, omega arith)
  run-weight i ((j, c) ∷ ts) sys here =
      let (q, there, less) = step-weight i j c sys here in
      let (r, last, fewer) = run-weight i ts (step (j, c) sys) there in (r, last, omega arith)

  weightless : (p : Phase V E) → weight p ≡ 0 → p ≡ through
  weightless running e = absurd (omega arith)
  weightless (winning d) e = absurd (omega arith)
  weightless (storing d) e = absurd (omega arith)
  weightless leaving e = absurd (omega arith)
  weightless through e = refl

  all_finished :
      (ps : List (Phase V E))
      → ((i : ℕ) → i < length ps → get_elem? ps i ≡ some through)
      → (total finished ps ≡ length ps) × (total asking ps ≡ 0)
  all_finished [] h = (refl, refl)
  all_finished (p ∷ ps) h =
      let first = h 0 (omega arith) in
      let is_through : p ≡ through = cc in
      let (rest, none_asks) = all_finished ps (λ i lt. h (suc i) (omega arith)) in
      rw is_through (omega arith, omega arith)

  step-length :
      (t : ℕ × Completion V E) (sys : System V E)
      → length (step t sys).children ≡ length sys.children
  unfolding step
  step-length (i, c) sys = elim (Option-cases (get_elem? sys.children i)) [
    | inl out ↦ rw (out, step) refl
    | inr (p, e) ↦ rw (e, step) (length-set sys.children i (act c p sys.state).0)
  ]

  run-length :
      (ts : List (ℕ × Completion V E)) (sys : System V E)
      → length (run ts sys).children ≡ length sys.children
  unfolding run
  run-length [] sys = refl
  run-length (t ∷ ts) sys = run-length ts (step t sys) ∙ step-length t sys

  -- Whatever the order in which n children act, the receiver is told nothing while one of them is
  -- not through, and when all are, exactly one thing: what the first of them to act completed with.
  pub told-first_result :
      (n : ℕ) (ts : List (ℕ × Completion V E)) {c : Completion V E}
      → n < 2 ^ 64
      → first_result n ts ≡ some c
      → (run ts (begin n)).state.told
        ≡ (if total finished (run ts (begin n)).children == n then c ∷ [] else [])
  told-first_result n ts few e =
      let h = first_result-Inv n ts few e in
      let len = run-length ts (begin n) in
      let len' = length-replicate V E n in ground (arith, h.tells, h.counts_ready)

  first_result-some :
      (n : ℕ) (ts : List (ℕ × Completion V E))
      → 0 < n
      → 0 < turns 0 ts
      → (c : Completion V E) × (first_result n ts ≡ some c)
  first_result-some n [] some_child acts = absurd (omega arith)
  first_result-some n ((i, c) ∷ ts) some_child acts = elim (Bool-cases (ltb i n)) [
    | inl lt ↦ (c, rw lt)
    | inr ge ↦ let (d, e) = first_result-some n ts some_child (ground arith) in (d, rw ge e)
  ]

  -- Where each of n children acts at least four times, in whatever order, all come to an end: the
  -- receiver is told what the first one to act completed with, once, and the stop was requested.
  pub run-told :
      (n : ℕ) (ts : List (ℕ × Completion V E))
      → 0 < n
      → n < 2 ^ 64
      → ((i : ℕ) → i < n → 4 ≤ turns i ts)
      → (c : Completion V E) × (first_result n ts ≡ some c)
        × ((run ts (begin n)).state.told ≡ c ∷ [])
        × ((run ts (begin n)).state.stop_requested ≡ true)
  run-told n ts some_child few often =
      let (c, e) = first_result-some n ts some_child (omega (arith, often 0 some_child)) in
      let h = first_result-Inv n ts few e in
      let len = run-length ts (begin n) in
      let len' = length-replicate V E n in
      let through_all = λ (i : ℕ) (lt : i < length (run ts (begin n)).children).
        let (q, there, light) = run-weight i ts (begin n) (get_elem?-replicate n i (omega arith)) in
        there ∙ ap some (weightless q (omega (arith, often i (omega arith)))) in
      let (all, none_asks) = all_finished (run ts (begin n)).children through_all in
      (c, e, ground (arith, h.tells, h.counts_ready), ground (arith, h.asks))
