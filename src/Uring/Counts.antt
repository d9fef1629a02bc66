-- ===== src/Uring/Counts.antt =====
-- The two counters of uring_context.hpp: `submitting` is the length of the submission queue, and
-- `outstanding` is that and the number of requests that the kernel has, so neither `assert` fails;
-- and what becomes of every operation that is given to the context.
use net.Prelude.{
  ℕ, zero, suc, ◌+◌, ◌≡◌, ◌≤◌, ◌<◌, refl, sym, ap, ◌∙◌, inl, inr, some, List, [], ◌∷◌, arith,
  length, total, Option-cases, le→leb, lt→ltb,
}
use net.Uring.{
  Call, returns, throws, undefined, terminated, unfinished, and_then, Answer, accepted, refused,
  Completion, got, not_got, Ring, Context, flushed, submit, get_sqe, claimed, waited, wait,
}
use net.Uring.Laws.{Stages, Moves, IsLawful}

-- Wherever the call returns, its result and the state after it are in `P`; it does not run into
-- undefined behaviour.
abbrev pub Ensures : {S A : Type 0} → (A → S → Type 0) → Call S A → Type 0
Ensures P (returns a c) = P a c
Ensures P (throws e) = Unit {0}
Ensures P undefined = ⊥
Ensures P terminated = Unit {0}
Ensures P unfinished = Unit {0}

pub Ensures-and_then :
    {S A B : Type 0} (P : A → S → Type 0) (Q : B → S → Type 0) (m : Call S A) (k : A → S → Call S B)
    → Ensures P m
    → ((a : A) (d : S) → P a d → Ensures Q (k a d))
    → Ensures Q (and_then m k)
Ensures-and_then P Q (returns a d) k p next = next a d p
Ensures-and_then P Q (throws e) k p next = tt
Ensures-and_then P Q undefined k p next = p
Ensures-and_then P Q terminated k p next = tt
Ensures-and_then P Q unfinished k p next = tt

pub Ensures-mono :
    {S A : Type 0} (P Q : A → S → Type 0) (m : Call S A)
    → Ensures P m
    → ((a : A) (d : S) → P a d → Q a d)
    → Ensures Q m
Ensures-mono P Q (returns a d) p next = next a d p
Ensures-mono P Q (throws e) p next = tt
Ensures-mono P Q undefined p next = p
Ensures-mono P Q terminated p next = tt
Ensures-mono P Q unfinished p next = tt

-- The sum of a weight over no operation.
abbrev pub none_of : (ℕ → ℕ) → ℕ
none_of f = 0

pub total_ones : (xs : List ℕ) → total (λ _. 1) xs ≡ length xs
total_ones [] = refl
total_ones (x ∷ xs) = omega (arith, total_ones xs)

-- The rest of the state, which the calls of the ring leave alone.
pub record SameRest {R : Type 0} (c d : Context R) : Type 0 where
  pub same_sockets : d.sockets ≡ c.sockets
  pub same_tasks : d.tasks ≡ c.tasks
  pub same_operations : d.operations ≡ c.operations
  pub same_signals : d.signals ≡ c.signals

pub pair_path : {A B : Type 0} {p : A × B} {a : A} → p.0 ≡ a → p ≡ (a, p.1)
pair_path {p} e = λ i. (e i, p.1)

pub SameRest-trans : {R : Type 0} {b c d : Context R} → SameRest b c → SameRest c d → SameRest b d
SameRest-trans h k = record {
  same_sockets = k.same_sockets ∙ h.same_sockets;
  same_tasks = k.same_tasks ∙ h.same_tasks;
  same_operations = k.same_operations ∙ h.same_operations;
  same_signals = k.same_signals ∙ h.same_signals;
}

module _ {R : Type 0} (view : Stages R) where
  open view use {queued, inflight}

  -- The sum of a weight over the operations in both stages.
  abbrev pub weight : (ℕ → ℕ) → Context R → ℕ
  weight f c = total f (queued c.ring) + total f (inflight c.ring)

  pub record IsCounted (c : Context R) : Type 0 where
    pub submitting_counts : c.submitting ≡ length (queued c.ring)
    pub outstanding_counts : c.outstanding ≡ length (queued c.ring) + length (inflight c.ring)

  -- The counters stay right, and the operations in the two stages are those before, with some that
  -- came and some that left.
  pub record Changes (came left : (ℕ → ℕ) → ℕ) (c d : Context R) : Type 0 where
    pub counted : IsCounted d
    pub balance : (f : ℕ → ℕ) → left f + weight f d ≡ came f + weight f c
    pub rest : SameRest c d

  module _ (ring : Ring R) (laws : IsLawful ring view) where
    pub flushed-Changes :
        (a : Answer) (s : R) (c : Context R)
        → IsCounted c
        → ((n : ℕ) → a ≡ accepted n → Moves ring view n c.ring s)
        → Ensures (λ _ d. Changes none_of none_of c d) (flushed ring a s c)
    flushed-Changes (refused e) s c h m = tt
    flushed-Changes (accepted n) s c h m =
        let move = m n refl in
        let few : n ≤ c.submitting = omega (arith, move.moved, h.submitting_counts) in
        rw (le→leb n c.submitting few) (record {
          counted = record {
            submitting_counts = omega (arith, move.moved, h.submitting_counts);
            outstanding_counts = omega (
              arith,
              h.outstanding_counts,
              move.conserved (λ _. 1),
              total_ones (queued s),
              total_ones (inflight s),
              total_ones (queued c.ring),
              total_ones (inflight c.ring),
            );
          };
          balance = λ f. omega (arith, move.conserved f);
          rest = record {
            same_sockets = refl;
            same_tasks = refl;
            same_operations = refl;
            same_signals = refl;
          };
        })

    pub submit-Changes :
        (c : Context R) → IsCounted c → Ensures (λ _ d. Changes none_of none_of c d) (submit ring c)
    unfolding submit
    submit-Changes c h =
        flushed-Changes (ring.submit c.ring).0 (ring.submit c.ring).1 c h
          (λ n e. laws.submit_moves c.ring (ring.submit c.ring).1 n (pair_path e))

    claimed-Changes :
        (op : ℕ) (r : R) (c : Context R)
        → IsCounted c
        → ring.get_sqe c.ring ≡ some r
        → Changes (λ f. f op) none_of c (claimed ring op r c)
    claimed-Changes op r c h e = record {
      counted = record {
        submitting_counts = omega (
          arith,
          h.submitting_counts,
          laws.get_queued c.ring r op e (λ _. 1),
          total_ones (queued (ring.set_data op r)),
          total_ones (queued c.ring),
        );
        outstanding_counts = omega (
          arith,
          h.outstanding_counts,
          laws.get_queued c.ring r op e (λ _. 1),
          total_ones (queued (ring.set_data op r)),
          total_ones (queued c.ring),
          ap length (laws.get_inflight c.ring r op e),
        );
      };
      balance = λ f.
          omega (
            arith,
            laws.get_queued c.ring r op e f,
            ap (total f) (laws.get_inflight c.ring r op e),
          );
      rest = record {
        same_sockets = refl;
        same_tasks = refl;
        same_operations = refl;
        same_signals = refl;
      };
    }

    pub Changes-trans :
        (came left : (ℕ → ℕ) → ℕ) {b c d : Context R}
        → Changes none_of none_of b c
        → Changes came left c d
        → Changes came left b d
    Changes-trans came left h k = record {
      counted = k.counted;
      balance = λ f. omega (arith, h.balance f, k.balance f);
      rest = SameRest-trans h.rest k.rest;
    }

    pub get_sqe-Changes :
        (fuel op : ℕ) (c : Context R)
        → IsCounted c
        → Ensures (λ _ d. Changes (λ f. f op) none_of c d) (get_sqe ring fuel op c)
    unfolding get_sqe
    get_sqe-Changes zero op c h = tt
    get_sqe-Changes (suc fuel) op c h = elim (Option-cases (ring.get_sqe c.ring)) [
      | inr (r, e) ↦ rw (e, get_sqe) (claimed-Changes op r c h e)
      | inl e ↦
          rw (e, get_sqe)
            (Ensures-and_then (λ _ d. Changes none_of none_of c d)
              (λ _ d. Changes (λ f. f op) none_of c d) (submit ring c)
              (λ _ d. get_sqe ring fuel op d) (submit-Changes c h)
              λ _ d k.
                Ensures-mono (λ _ e. Changes (λ f. f op) none_of d e)
                  (λ _ e. Changes (λ f. f op) none_of c e) (get_sqe ring fuel op d)
                  (get_sqe-Changes fuel op d k.counted)
                  (λ _ e. Changes-trans (λ f. f op) none_of k))
    ]

    waited-Changes :
        (a : Completion) (s : R) (c : Context R)
        → IsCounted c
        → 0 < c.outstanding
        → ring.wait_cqe c.ring ≡ (a, s)
        → Ensures (λ p d. Changes none_of (λ f. f p.1) c d) (waited ring a s c)
    waited-Changes (not_got e) s c h some_left said = tt
    waited-Changes (got res op) s c h some_left said =
        rw (lt→ltb 0 c.outstanding some_left) (record {
          counted = record {
            submitting_counts =
                h.submitting_counts ∙ ap length (sym (laws.wait_queued c.ring s res op said));
            outstanding_counts = omega (
              arith,
              h.outstanding_counts,
              ap length (laws.wait_queued c.ring s res op said),
              laws.wait_inflight c.ring s res op said (λ _. 1),
              total_ones (inflight c.ring),
              total_ones (inflight (ring.cqe_seen s)),
            );
          };
          balance = λ f. omega (
            arith,
            laws.wait_inflight c.ring s res op said f,
            ap (total f) (laws.wait_queued c.ring s res op said),
          );
          rest = record {
            same_sockets = refl;
            same_tasks = refl;
            same_operations = refl;
            same_signals = refl;
          };
        })

    pub wait-Changes :
        (c : Context R)
        → IsCounted c
        → 0 < c.outstanding
        → Ensures (λ p d. Changes none_of (λ f. f p.1) c d) (wait ring c)
    unfolding wait
    wait-Changes c h some_left =
        waited-Changes (ring.wait_cqe c.ring).0 (ring.wait_cqe c.ring).1 c h some_left refl
