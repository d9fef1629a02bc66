-- ===== src/Uring/Once.antt =====
-- A round of the loop of uring_context.hpp: it ends the operation of one completion, or runs one
-- task, or there is nothing left to do.
use net.Prelude.{
  ℕ, ◌+◌, ◌≡◌, ◌≢◌, ◌≤◌, ◌<◌, refl, sym, ap, ◌∙◌, subst, ◌⊎◌, inl, inr, Option, none, List, [], ◌∷◌,
  arith, ◌==◌, if◌then◌else◌, length, total, Bool-cases, Option-cases, ==_refl,
}
use net.Prelude.Int.{ℤ}
use net.Container
use net.Container.{Container}
use net.Uring.{
  Call, returns, throws, undefined, terminated, unfinished, and_then, no_except, Ring, WorkKind,
  Operation, ran, Context, signal, update, process_task, wait,
}
use net.Uring.Work.{work, set_extra}
use net.Uring.Run.{flush, dispatch, turn, run_one}
use net.Uring.Laws.{Stages, IsLawful}
use net.Uring.Counts.{
  Ensures, Ensures-and_then, IsCounted, Changes, weight, none_of, Changes-trans, flushed-Changes,
  wait-Changes, pair_path,
}
use net.Uring.Ends.{unit, unit_self, tells, told, TakesSocket, Ends, work-Ends}

list_cases : {A : Type 0} (xs : List A) → (xs ≡ []) ⊎ ((x : A) × (ys : List A) × (xs ≡ x ∷ ys))
list_cases [] = inl refl
list_cases (x ∷ xs) = inr (x, xs, refl)

module _ {R : Type 0} (view : Stages R) where
  open view use {queued, inflight}

  -- How often the operation stands in the submission queue or is with the kernel.
  abbrev pub pending : Context R → ℕ → ℕ
  pending c a = weight view (unit a) c

  -- Every operation that the ring knows has a function to call.
  abbrev pub IsInstalled : Context R → Type 0
  IsInstalled c = (a : ℕ) → 0 < pending c a → (c.operations a).work ≢ none

  pub record IsIdle (c : Context R) : Type 0 where
    pub no_task : c.tasks ≡ []
    pub none_queued : length (queued c.ring) ≡ 0
    pub none_inflight : length (inflight c.ring) ≡ 0

  -- What a call of `run_one` that returns `n` does.
  pub record Rounds (c : Context R) (n : ℕ) (d : Context R) : Type 0 where
    pub counted : IsCounted view d
    pub balanced : (a : ℕ) → pending d a + told d a ≡ pending c a + told c a
    pub said : length d.signals ≡ n + length c.signals
    pub at_most_one : n ≤ 1
    pub installed : IsInstalled d
    pub idle : n ≡ 0 → IsIdle d

  -- A completion of `op` was read on the way from `c` to `d`.
  abbrev Reads : Context R → ℕ → Context R → Type 0
  Reads c op d = Changes view none_of (λ f. f op) c d

  ended-Rounds :
      (c d g : Context R) (res : ℤ) (op : ℕ)
      → IsInstalled c
      → Reads c op d
      → Ends (update (set_extra res) op d) op g
      → Rounds c 1 g
  ended-Rounds c d g res op ready k ends = record {
    counted = record {
      submitting_counts =
          ends.same_submitting
          ∙ k.counted.submitting_counts
          ∙ ap (λ r. length (queued r)) (sym ends.same_ring);
      outstanding_counts =
          ends.same_outstanding
          ∙ k.counted.outstanding_counts
          ∙ ap (λ r. length (queued r) + length (inflight r)) (sym ends.same_ring);
    };
    balanced = λ a. omega (
      arith,
      ap (λ r. total (unit a) (queued r) + total (unit a) (inflight r)) ends.same_ring,
      ends.told_once a,
      k.balance (unit a),
      ap (λ xs. total (tells a) xs) k.rest.same_signals,
    );
    said = ends.one_signal ∙ (omega (arith, ap length k.rest.same_signals));
    at_most_one = omega arith;
    installed = λ a known.
        subst (λ (w : Option WorkKind). w ≢ none) (sym (kept_work a))
          (ready a (
            omega (
              arith,
              k.balance (unit a),
              ap (λ r. total (unit a) (queued r) + total (unit a) (inflight r)) ends.same_ring,
            )));
    idle = λ e. absurd (omega arith);
  }
    where
      kept_work : (a : ℕ) → (g.operations a).work ≡ (c.operations a).work
      kept_work a = elim (Bool-cases (a == op)) [
        | inl hit ↦
            ends.same_work a
            ∙ (rw hit (ap (λ (os : ℕ → Operation). (os a).work) k.rest.same_operations))
        | inr miss ↦
            ends.same_work a
            ∙ (rw miss (ap (λ (os : ℕ → Operation). (os a).work) k.rest.same_operations))
      ]

  dispatch-Rounds :
      (c d : Context R) (res : ℤ) (op : ℕ)
      → IsInstalled c
      → TakesSocket c
      → Reads c op d
      → Ensures (λ n e. Rounds c n e) (dispatch (res, op) d)
  unfolding dispatch
  dispatch-Rounds c d res op ready room k = elim (Option-cases (d.operations op).work) [
    | inl e ↦ absurd (
        ready op (omega (arith, k.balance (unit op), unit_self op))
          (ap (λ (os : ℕ → Operation). (os op).work) (sym k.rest.same_operations) ∙ e))
    | inr (kind, e) ↦
        let d' = update (set_extra res) op d in
        Ensures-and_then (λ _ g. Ends d' op g) (λ n g. Rounds c n g) (work op d') (λ _. returns 1)
          (work-Ends d' op res {kind = kind} (rw (==_refl op) e) (rw (==_refl op) refl) (λ fd.
            subst (λ (s : Container ℕ). Container.insert fd s ≢ none) (sym k.rest.same_sockets)
              (room fd)))
          λ _ g ends. ended-Rounds c d g res op ready k ends
  ]

  module _ (ring : Ring R) (laws : IsLawful ring view) where
    flush-Changes :
        (c : Context R)
        → IsCounted view c
        → Ensures (λ _ d. Changes view none_of none_of c d) (flush ring c)
    unfolding flush
    flush-Changes c h = elim (Bool-cases (c.submitting == 0)) [
      | inl empty ↦ rw empty (record {
        counted = h;
        balance = λ f. refl;
        rest = record {
          same_sockets = refl;
          same_tasks = refl;
          same_operations = refl;
          same_signals = refl;
        };
      })
      | inr some_there ↦ rw some_there (
          flushed-Changes view ring laws (ring.submit_and_wait 1 c.ring).0
            (ring.submit_and_wait 1 c.ring).1 c h
            (λ n e.
              laws.submit_and_wait_moves c.ring (ring.submit_and_wait 1 c.ring).1 1 n
                (pair_path e)))
    ]

    turn-Rounds :
        (c : Context R)
        → c.tasks ≡ []
        → IsCounted view c
        → IsInstalled c
        → TakesSocket c
        → Ensures (λ n e. Rounds c n e) (turn ring c)
    unfolding turn
    turn-Rounds c quiet h ready room =
        Ensures-and_then (λ _ d. Changes view none_of none_of c d) (λ n e. Rounds c n e)
          (flush ring c)
          (λ _ d. if d.outstanding == 0 then returns 0 d else and_then (wait ring d) dispatch)
          (flush-Changes c h)
          λ _ d k. elim (Bool-cases (d.outstanding == 0)) [
            | inl empty ↦ rw empty (record {
              counted = k.counted;
              balanced = λ a.
                  omega
                    (arith, k.balance (unit a), ap (λ xs. total (tells a) xs) k.rest.same_signals);
              said = omega (arith, ap length k.rest.same_signals);
              at_most_one = omega arith;
              installed = λ a known.
                  subst (λ (os : ℕ → Operation). (os a).work ≢ none) (sym k.rest.same_operations)
                    (ready a (omega (arith, k.balance (unit a))));
              idle = λ _. record {
                no_task = k.rest.same_tasks ∙ quiet;
                none_queued = ground (arith, k.counted.outstanding_counts);
                none_inflight = ground (arith, k.counted.outstanding_counts);
              };
            })
            | inr left ↦ rw left (
                Ensures-and_then (λ p e. Reads d p.1 e) (λ n e. Rounds c n e) (wait ring d) dispatch
                  (wait-Changes view ring laws d k.counted (ground arith))
                  λ p e reads.
                    dispatch-Rounds c e p.0 p.1 ready room
                      (Changes-trans view ring laws none_of (λ f. f p.1) k reads))
          ]

    Ensures-no_except :
        (P : ℕ → Context R → Type 0) (m : Call (Context R) ℕ)
        → Ensures P m
        → Ensures P (no_except m)
    Ensures-no_except P (returns a d) p = p
    Ensures-no_except P (throws e) p = tt
    Ensures-no_except P undefined p = p
    Ensures-no_except P terminated p = tt
    Ensures-no_except P unfinished p = tt

    no_task-run_one : (c : Context R) → c.tasks ≡ [] → run_one ring c ≡ no_except (turn ring c)
    unfolding run_one process_task
    no_task-run_one c e = simp (e, process_task, run_one)

    task-run_one :
        (c : Context R) (t : ℕ) (left : List ℕ)
        → c.tasks ≡ t ∷ left
        → run_one ring c ≡ returns 1 (signal (ran t) (record c { tasks = left }))
    unfolding run_one process_task
    task-run_one c t left e = simp (e, process_task, run_one)

    -- With the counters right, a function to call for every operation that the ring knows, and room
    -- for a socket in the table, run_one neither fails an assert nor has undefined behaviour. Where
    -- it returns n, that is 0 or 1 and the number of virtual calls that were made; the counters are
    -- right; for every operation the number of its places with the ring and of the calls that told
    -- it of its end is, taken together, what it was before; and if n is 0, then there is no task,
    -- nothing is queued and nothing is with the kernel.
    pub run_one-Rounds :
        (c : Context R)
        → IsCounted view c
        → IsInstalled c
        → TakesSocket c
        → Ensures (λ n e. Rounds c n e) (run_one ring c)
    run_one-Rounds c h ready room = elim (list_cases c.tasks) [
      | inr (t, left, e) ↦ rw (task-run_one c t left e) (record {
        counted = record {
          submitting_counts = h.submitting_counts;
          outstanding_counts = h.outstanding_counts;
        };
        balanced = λ a. omega arith;
        said = omega arith;
        at_most_one = omega arith;
        installed = ready;
        idle = λ wrong. absurd (omega arith);
      })
      | inl e ↦
          rw (no_task-run_one c e)
            (Ensures-no_except (λ n d. Rounds c n d) (turn ring c) (turn-Rounds c e h ready room))
    ]
