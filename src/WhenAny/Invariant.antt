-- ===== src/WhenAny/Invariant.antt =====
-- What the children and the counters of demo_algorithm.hpp have in common, whoever acts next.
use net.Prelude.{
  subst, sym, ℕ, zero, suc, ◌+◌, ◌^◌, ◌≤◌, ◌<◌, ◌≡◌, refl, ap, ◌∙◌, ◌⊎◌, inl, inr, true, false,
  Option, none, some, List, [], ◌∷◌, arith, ◌==◌, get_elem?, set, length, total, total-set,
  length-set, Bool-cases,
}
use net.WhenAny.{
  Completion, value, error, stopped, State, Phase, running, winning, storing, leaving, through,
  next_count, notify_done, ready, keep, act, System,
}

module _ {V E : Type 0} where
  -- 1 for a child that has completed, that is about to store, that is through.
  abbrev pub begun : Phase V E → ℕ
  begun running = 0
  begun _ = 1

  abbrev pub pending : Phase V E → ℕ
  pending (winning _) = 1
  pending (storing _) = 1
  pending _ = 0

  -- 1 for a child that is about to request the stop.
  abbrev pub asking : Phase V E → ℕ
  asking (winning _) = 1
  asking _ = 0

  abbrev pub finished : Phase V E → ℕ
  finished through = 1
  finished _ = 0

  -- What is about to be stored is c.
  abbrev pub IsOwn : Completion V E → Phase V E → Type 0
  IsOwn c (winning d) = d ≡ c
  IsOwn c (storing d) = d ≡ c
  IsOwn c _ = Unit {0}

  abbrev pub AllOwn : Completion V E → List (Phase V E) → Type 0
  AllOwn c [] = Unit {0}
  AllOwn c (p ∷ ps) = IsOwn c p × AllOwn c ps

  some_inj : {p q : Phase V E} → some p ≡ some q → p ≡ q
  some_inj e = cc

  AllOwn-get :
      (c : Completion V E) (ps : List (Phase V E)) (i : ℕ) {p : Phase V E}
      → AllOwn c ps
      → get_elem? ps i ≡ some p
      → IsOwn c p
  AllOwn-get c [] i own e = cc
  AllOwn-get c (q ∷ ps) zero own e = subst (IsOwn c) (some_inj e) own.0
  AllOwn-get c (q ∷ ps) (suc i) own e = AllOwn-get c ps i own.1 e

  AllOwn-set :
      (c : Completion V E) (ps : List (Phase V E)) (i : ℕ) (q : Phase V E)
      → AllOwn c ps
      → IsOwn c q
      → AllOwn c (set ps i q)
  AllOwn-set c [] i q own o = tt
  AllOwn-set c (p ∷ ps) zero q own o = (o, own.1)
  AllOwn-set c (p ∷ ps) (suc i) q own o = (own.0, AllOwn-set c ps i q own.1 o)

  -- A child that is through is not about to store.
  pending-finished-le : (ps : List (Phase V E)) → total pending ps + total finished ps ≤ length ps
  pending-finished-le [] = omega arith
  pending-finished-le (running ∷ ps) = omega (arith, pending-finished-le ps)
  pending-finished-le (winning _ ∷ ps) = omega (arith, pending-finished-le ps)
  pending-finished-le (storing _ ∷ ps) = omega (arith, pending-finished-le ps)
  pending-finished-le (leaving ∷ ps) = omega (arith, pending-finished-le ps)
  pending-finished-le (through ∷ ps) = omega (arith, pending-finished-le ps)

  begun-le : (ps : List (Phase V E)) → total begun ps ≤ length ps
  begun-le [] = omega arith
  begun-le (running ∷ ps) = omega (arith, begun-le ps)
  begun-le (winning _ ∷ ps) = omega (arith, begun-le ps)
  begun-le (storing _ ∷ ps) = omega (arith, begun-le ps)
  begun-le (leaving ∷ ps) = omega (arith, begun-le ps)
  begun-le (through ∷ ps) = omega (arith, begun-le ps)

  -- The state has c, and nothing else.
  abbrev pub value_of : Completion V E → Option V
  value_of (value v) = some v
  value_of _ = none

  abbrev pub error_of : Completion V E → Option E
  error_of (error e) = some e
  error_of _ = none

  abbrev pub Holds : Completion V E → State V E → Type 0
  Holds c s = (s.value_kept ≡ value_of c) × (s.error_kept ≡ error_of c)

  -- The first child to complete did so with c.
  pub record Inv (c : Completion V E) (sys : System V E) : Type 0 where
    pub few : length sys.children < 2 ^ 64
    pub all : sys.state.total_count ≡ length sys.children
    pub some_done : 0 < sys.state.done_count
    pub counts_done : sys.state.done_count ≡ total begun sys.children
    pub counts_ready : sys.state.ready_count ≡ total finished sys.children
    pub own : AllOwn c sys.children
    pub kept :
        ((total pending sys.children ≡ 1) × Holds stopped sys.state)
        ⊎ ((total pending sys.children ≡ 0) × Holds c sys.state)
    pub asks : (0 < total asking sys.children) ⊎ (sys.state.stop_requested ≡ true)
    pub tells :
        ((sys.state.ready_count < length sys.children) × (sys.state.told ≡ []))
        ⊎ ((sys.state.ready_count ≡ length sys.children) × (sys.state.told ≡ c ∷ []))

  module _ {c : Completion V E} {sys : System V E} (h : Inv c sys) (i : ℕ) {p : Phase V E}
      (here : get_elem? sys.children i ≡ some p) where
    -- What changes when child i goes from p to q.
    record Counts (q : Phase V E) : Type 0 where
      begun_of : total begun sys.children + begun q ≡ begun p + total begun (set sys.children i q)
      pending_of :
          total pending sys.children + pending q ≡ pending p + total pending (set sys.children i q)
      asking_of :
          total asking sys.children + asking q ≡ asking p + total asking (set sys.children i q)
      finished_of :
          total finished sys.children + finished q
          ≡ finished p + total finished (set sys.children i q)
      bounds : total pending sys.children + total finished sys.children ≤ length sys.children
      after :
          total pending (set sys.children i q) + total finished (set sys.children i q)
          ≤ length sys.children
      all_begun : total begun (set sys.children i q) ≤ length sys.children
      same_length : length (set sys.children i q) ≡ length sys.children
      owns : IsOwn c p

    counts : (q : Phase V E) → Counts q
    counts q = record {
      begun_of = total-set begun sys.children i q here;
      pending_of = total-set pending sys.children i q here;
      asking_of = total-set asking sys.children i q here;
      finished_of = total-set finished sys.children i q here;
      bounds = pending-finished-le sys.children;
      after =
          omega (arith, pending-finished-le (set sys.children i q), length-set sys.children i q);
      all_begun = omega (arith, begun-le (set sys.children i q), length-set sys.children i q);
      same_length = length-set sys.children i q;
      owns = AllOwn-get c sys.children i h.own here;
    }

  notify_done-told :
      (c : Completion V E) (s : State V E)
      → Holds c s
      → notify_done s ≡ record s { told = c ∷ s.told }
  unfolding notify_done
  notify_done-told (value v) s (kv, ke) = simp (ke, kv, notify_done)
  notify_done-told (error e) s (kv, ke) = simp (ke, kv, notify_done)
  notify_done-told stopped s (kv, ke) = simp (ke, kv, notify_done)

  -- Only what is kept changes.
  record Keeps (c : Completion V E) (s t : State V E) : Type 0 where
    same_total : t.total_count ≡ s.total_count
    same_done : t.done_count ≡ s.done_count
    same_ready : t.ready_count ≡ s.ready_count
    same_told : t.told ≡ s.told
    same_stop : t.stop_requested ≡ s.stop_requested
    holds : Holds c t

  keep-Keeps : (c : Completion V E) (s : State V E) → Holds stopped s → Keeps c s (keep c s)
  unfolding keep
  keep-Keeps (value v) s (kv, ke) = record {
    same_total = refl;
    same_done = refl;
    same_ready = refl;
    same_told = refl;
    same_stop = refl;
    holds = (refl, ke);
  }
  keep-Keeps (error e) s (kv, ke) = record {
    same_total = refl;
    same_done = refl;
    same_ready = refl;
    same_told = refl;
    same_stop = refl;
    holds = (kv, refl);
  }
  keep-Keeps stopped s (kv, ke) = record {
    same_total = refl;
    same_done = refl;
    same_ready = refl;
    same_told = refl;
    same_stop = refl;
    holds = (kv, ke);
  }

  storing-Inv :
      {c : Completion V E} {sys : System V E} (h : Inv c sys) (i : ℕ)
      → get_elem? sys.children i ≡ some (storing c)
      → Inv c (record { state = keep c sys.state; children = set sys.children i leaving })
  storing-Inv {c} {sys} h i here =
      let k = counts h i here leaving in
      let bare : Holds stopped sys.state = ground arith in
      let g = keep-Keeps c sys.state bare in
      record {
        few = omega arith;
        all = omega arith;
        some_done = omega arith;
        counts_done = omega arith;
        counts_ready = omega arith;
        own = AllOwn-set c sys.children i leaving h.own tt;
        kept = inr (ground arith, g.holds);
        asks = ground arith;
        tells = ground arith;
      }

  leaving-Inv :
      {c : Completion V E} {sys : System V E} (h : Inv c sys) (i : ℕ)
      → get_elem? sys.children i ≡ some leaving
      → Inv c (record { state = ready sys.state; children = set sys.children i through })
  unfolding ready
  leaving-Inv {c} {sys} h i here =
      let k = counts h i here through in
      let own' = AllOwn-set c sys.children i through h.own tt in
      elim (Bool-cases (next_count sys.state.ready_count == sys.state.total_count)) [
        | inl last ↦
            let held : Holds c sys.state = ground arith in
            rw (last, ready)
              (rw
                (notify_done-told c
                  (record sys.state { ready_count = next_count sys.state.ready_count }) held)
                (record {
                  few = omega arith;
                  all = omega arith;
                  some_done = omega arith;
                  counts_done = omega arith;
                  counts_ready = omega arith;
                  own = own';
                  kept = ground arith;
                  asks = ground arith;
                  tells = ground arith;
                }))
        | inr more ↦
            rw (more, ready)
              (record {
                few = omega arith;
                all = omega arith;
                some_done = omega arith;
                counts_done = omega arith;
                counts_ready = omega arith;
                own = own';
                kept = ground arith;
                asks = ground arith;
                tells = ground arith;
              })
      ]

  pub act-Inv :
      {c : Completion V E} (d : Completion V E) {sys : System V E} (h : Inv c sys) (i : ℕ)
      (p : Phase V E)
      → get_elem? sys.children i ≡ some p
      → Inv c (record {
        state = (act d p sys.state).1;
        children = set sys.children i (act d p sys.state).0;
      })
  unfolding act
  act-Inv {c} d {sys} h i running here =
      let k = counts h i here leaving in
      let later : (sys.state.done_count == 0) ≡ false = ground arith in
      rw later (record {
        few = omega arith;
        all = omega arith;
        some_done = omega arith;
        counts_done = omega arith;
        counts_ready = omega arith;
        own = AllOwn-set c sys.children i leaving h.own tt;
        kept = ground arith;
        asks = ground arith;
        tells = ground arith;
      })
  act-Inv {c} d {sys} h i (winning x) here =
      let k = counts h i here (storing x) in
      record {
        few = omega arith;
        all = omega arith;
        some_done = omega arith;
        counts_done = omega arith;
        counts_ready = omega arith;
        own = AllOwn-set c sys.children i (storing x) h.own k.owns;
        kept = ground arith;
        asks = ground arith;
        tells = ground arith;
      }
  act-Inv {c} d {sys} h i (storing x) here =
      let mine = AllOwn-get c sys.children i h.own here in
      subst
        (λ y. Inv c (record { state = keep y sys.state; children = set sys.children i leaving }))
        (sym mine) (storing-Inv h i (here ∙ ap (λ y. some (storing y)) mine))
  act-Inv {c} d {sys} h i leaving here = leaving-Inv h i here
  act-Inv {c} d {sys} h i through here =
      let k = counts h i here through in
      record {
        few = omega arith;
        all = omega arith;
        some_done = omega arith;
        counts_done = omega arith;
        counts_ready = omega arith;
        own = AllOwn-set c sys.children i through h.own tt;
        kept = ground arith;
        asks = ground arith;
        tells = ground arith;
      }
