-- ===== src/Repeat/Loop.antt =====
-- How a loop of repeat_effect_until.hpp ends.
use net.Prelude.{ℕ, zero, suc, ◌≡◌, refl, ap, ◌∙◌, true, false, List, [], ◌∷◌, ◌++◌}
use net.Prelude.Outcome.{returns, terminated, and_then}
use net.Repeat.{
  Completion, value, stopped, error, Asked, says, throws, nothing, State, init, start, start_body,
  tell, run_next, receive, complete_child, run,
}

abbrev pub values : ℕ → List Completion
values zero = []
values (suc n) = value ∷ values n

module _ {P B : Type 0} (ask : P → Asked P) (moved : B → B) where
  -- The predicate says false n times, and is then `q`.
  abbrev pub Falses : ℕ → P → P → Type 0
  Falses zero p q = p ≡ q
  Falses (suc n) p q = (r : P) × (ask p ≡ says false r) × Falses n r q

  -- The bodies that n rounds start after those in `bs`, the first of them `b`.
  abbrev pub started : ℕ → B → List B → List B
  started zero b bs = bs
  started (suc n) b bs = started n (moved b) (b ∷ bs)

  -- The child that runs is waited for, and the receiver was told nothing more than before.
  pub record Goes (n : ℕ) (q : P) (s d : State P B) : Type 0 where
    pub runs : (c : Completion) → complete_child ask moved d.running c d ≡ receive ask moved c d
    pub asks : d.predicate ≡ q
    pub silent : d.told ≡ s.told
    pub in_order : d.bodies ≡ started n s.body s.bodies

  IsRunning : State P B → Type 0
  IsRunning s = (c : Completion) → complete_child ask moved s.running c s ≡ receive ask moved c s

  run_next-false :
      (s : State P B) {r : P}
      → ask s.predicate ≡ says false r
      → run_next ask moved s ≡ returns tt (start_body ask moved (record s { predicate = r }))
  unfolding run_next
  run_next-false s e = rw (e, run_next) refl

  run_next-true :
      (s : State P B) {r : P}
      → ask s.predicate ≡ says true r
      → run_next ask moved s ≡ returns tt (tell ask moved value (record s { predicate = r }))
  unfolding run_next
  run_next-true s e = rw (e, run_next) refl

  run_next-throws : (s : State P B) → ask s.predicate ≡ throws → run_next ask moved s ≡ terminated
  unfolding run_next
  run_next-throws s e = rw (e, run_next) refl

  values-Goes :
      (n : ℕ) (p q : P) (s : State P B) (cs : List Completion)
      → s.predicate ≡ p
      → Falses n p q
      → IsRunning s
      → (d : State P B) × (run ask moved (values n ++ cs) s ≡ run ask moved cs d) × Goes n q s d
  unfolding run receive run_next IsRunning
  values-Goes zero p q s cs at_p same go =
      (s, refl, record { runs = go; asks = at_p ∙ same; silent = refl; in_order = refl })
  values-Goes (suc n) p q s cs at_p (r, not_yet, more) go =
      let next = start_body ask moved (record s { predicate = r }) in
      let (d, same, g) = values-Goes n r q next cs refl more (λ c. refl) in
      (
        d,
        ap (λ o. and_then o (λ _. run ask moved (values n ++ cs)))
              (go value ∙ run_next-false s (ap ask at_p ∙ not_yet))
            ∙ same,
        record { runs = g.runs; asks = g.asks; silent = g.silent; in_order = g.in_order },
      )

  -- No child runs, and the receiver was told this and nothing else; the bodies that were started
  -- are those of n rounds.
  pub record Over (c : Completion) (n : ℕ) (b : B) (e : State P B) : Type 0 where
    pub ended : e.running ≡ nothing
    pub told_once : e.told ≡ c ∷ []
    pub in_order : e.bodies ≡ started n b []

  init-IsRunning : (b : B) (p : P) → IsRunning (start ask moved (init b p))
  unfolding IsRunning start
  init-IsRunning b p c = refl

  -- From the start on, when upstream and n bodies have completed with a value.
  from_start :
      (n : ℕ) (b : B) (p q : P) (cs : List Completion)
      → Falses n p q
      → (d : State P B) × (run ask moved (values n ++ cs) (start ask moved (init b p))
          ≡ run ask moved cs d)
        × Goes n q (start ask moved (init b p)) d
  unfolding start
  from_start n b p q cs f =
      values-Goes n p q (start ask moved (init b p)) cs refl f (init-IsRunning b p)

  last_value :
      {n : ℕ} {q : P} {s : State P B} (d : State P B)
      → Goes n q s d
      → run ask moved (value ∷ []) d ≡ and_then (run_next ask moved d) (λ _. run ask moved [])
  unfolding run receive
  last_value d g = ap (λ o. and_then o (λ _. run ask moved [])) (g.runs value)

  -- Where the predicate says false n times and then true, upstream and n bodies run one after the
  -- other; when the last of them has completed with a value, the receiver is told a value, once,
  -- and no child runs. A body is what connecting the one before it left.
  pub run-Over :
      (n : ℕ) (b : B) (p q r : P)
      → Falses n p q
      → ask q ≡ says true r
      → (e : State P B) × (run ask moved (values n ++ value ∷ []) (start ask moved (init b p))
          ≡ returns tt e)
        × Over value n b e
  unfolding run start
  run-Over n b p q r f done =
      let (d, same, g) = from_start n b p q (value ∷ []) f in
      (
        tell ask moved value (record d { predicate = r }),
        same
            ∙ last_value d g
            ∙ ap (λ o. and_then o (λ _. run ask moved [])) (run_next-true d (ap ask g.asks ∙ done)),
        record { ended = refl; told_once = ap (λ l. value ∷ l) g.silent; in_order = g.in_order },
      )

  -- Where the predicate throws after it said false n times, and upstream and the n bodies that this
  -- starts complete with a value, the program is terminated.
  pub run_terminated :
      (n : ℕ) (b : B) (p q : P)
      → Falses n p q
      → ask q ≡ throws
      → run ask moved (values n ++ value ∷ []) (start ask moved (init b p)) ≡ terminated
  run_terminated n b p q f thrown =
      let (d, same, g) = from_start n b p q (value ∷ []) f in
      same
      ∙ last_value d g
      ∙ ap (λ o. and_then o (λ _. run ask moved [])) (run_next-throws d (ap ask g.asks ∙ thrown))

  abbrev pub IsEnd : Completion → Type 0
  IsEnd value = ⊥
  IsEnd stopped = Unit {0}
  IsEnd (error e) = Unit {0}

  -- Where the predicate says false n times, and upstream and all but the last of the n bodies that
  -- this starts complete with a value, but that last child with an error or as stopped, the
  -- receiver is told this, once, no child runs and the predicate is not asked again.
  pub run-Over_early :
      (n : ℕ) (b : B) (p q : P) (c : Completion)
      → Falses n p q
      → IsEnd c
      → (e : State P B) × (run ask moved (values n ++ c ∷ []) (start ask moved (init b p))
          ≡ returns tt e)
        × Over c n b e
        × (e.predicate ≡ q)
  unfolding run start receive
  run-Over_early n b p q value f h = absurd h
  run-Over_early n b p q stopped f h =
      let (d, same, g) = from_start n b p q (stopped ∷ []) f in
      (
        tell ask moved stopped d,
        same ∙ ap (λ o. and_then o (λ _. run ask moved [])) (g.runs stopped),
        record { ended = refl; told_once = ap (λ l. stopped ∷ l) g.silent; in_order = g.in_order },
        g.asks,
      )
  run-Over_early n b p q (error x) f h =
      let (d, same, g) = from_start n b p q (error x ∷ []) f in
      (
        tell ask moved (error x) d,
        same ∙ ap (λ o. and_then o (λ _. run ask moved [])) (g.runs (error x)),
        record { ended = refl; told_once = ap (λ l. error x ∷ l) g.silent; in_order = g.in_order },
        g.asks,
      )
