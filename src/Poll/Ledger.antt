-- ===== src/Poll/Ledger.antt =====
-- What becomes of every operation that is given to a `net.Poll` context: `ledger` counts where an
-- operation stands (waiting for its socket, waiting for its time) and the calls that told it of
-- its end, and every function of the context keeps that count in step with what it was given.
use net.Prelude.{
  ℕ, ◌+◌, ◌≡◌, refl, ap, List, [], ◌∷◌, arith, ◌==◌, if◌then◌else◌, ==→eq, total, true, ltb,
  Bool-cases, inl, inr,
}
use net.Poll.{Signal, completed, failed_with, cancelled, ran, Context}
use net.SortedList.View.{insert_sorted, remove, contains}

-- 1 for the number itself.
abbrev pub unit : ℕ → ℕ → ℕ
unit a x = if x == a then 1 else 0

abbrev pub tells : ℕ → Signal → ℕ
tells a (completed op) = unit a op
tells a (failed_with op e) = unit a op
tells a (cancelled op) = unit a op
tells a (ran task) = 0

-- How often the operation stands in the two queues, and how often it was told of its end.
abbrev pub pending : Context → ℕ → ℕ
pending c a = total (unit a) c.d_outstanding + total (unit a) c.d_timeouts

abbrev pub told : Context → ℕ → ℕ
told c a = total (tells a) c.signals

abbrev pub ledger : Context → ℕ → ℕ
ledger c a = pending c a + told c a

pub total-insert_sorted :
    (f : ℕ → ℕ) (value : ℕ → ℕ) (op : ℕ) (xs : List ℕ)
    → total f (insert_sorted ltb value op xs) ≡ f op + total f xs
total-insert_sorted f value op [] = refl
total-insert_sorted f value op (x ∷ xs) = elim (Bool-cases (ltb (value x) (value op))) [
  | inl less ↦ rw less (omega (arith, total-insert_sorted f value op xs))
  | inr stop ↦ rw stop
]

pub total-remove :
    (f : ℕ → ℕ) (op : ℕ) (xs : List ℕ)
    → contains op xs ≡ true
    → total f xs ≡ f op + total f (remove op xs)
total-remove f op [] h = cc
total-remove f op (x ∷ xs) h = elim (Bool-cases (x == op)) [
  | inl hit ↦ rw hit (ap (λ y. f y + total f xs) (==→eq x op hit))
  | inr miss ↦ rw miss (omega (arith, total-remove f op xs (rw miss at h)))
]
