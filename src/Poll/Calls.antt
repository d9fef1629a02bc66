-- ===== src/Poll/Calls.antt =====
-- How the calls that a sender makes of a `net.Poll` context move an operation: `resume_at` and
-- the functions of `net.Poll.Work` take it in, `cancel` takes it out.
use net.Prelude.{
  ℕ, suc, ◌+◌, ◌≡◌, refl, sym, ap, subst, ◌⊎◌, inl, inr, none, some, List, [], ◌∷◌, arith, ◌==◌,
  if◌then◌else◌, get_elem?, total, true, false, ltb, Bool-cases, Option-cases, ==→eq,
}
use net.Prelude.Outcome.{returns, terminated}
use net.Event.{SubmitResult}
use net.SortedList.View.{remove, contains}
use net.SortedList.Order.{IsSorted, insert_sorted_lem, ltb-IsStrictWeak}
use net.Poll.{
  Context, resume_at, cancel, deadline_of, index_of, remove_outstanding, cancelled, signal,
}
use net.Poll.Ledger.{unit, tells, pending, told, total-insert_sorted, total-remove}
use net.Poll.Conservation.{
  IsAligned, count-remove_outstanding, IsAligned-remove_outstanding, timeouts-remove_outstanding,
  signals-remove_outstanding,
}

-- The timers stand in the order of their deadlines.
abbrev pub IsTimely : Context → Type 0
IsTimely c = IsSorted ltb (deadline_of c) c.d_timeouts

-- A timer whose time has not come is queued, in the order of the deadlines, and `submit` is
-- returned; one whose time has come is told so at once, and `ready` is returned. Either way it is
-- accounted for once more than before, and no other operation is touched.
pub resume_at_lem :
    (now op : ℕ) (c : Context)
    → IsTimely c
    → IsTimely (resume_at now op c).1
      × ((a : ℕ)
          → pending (resume_at now op c).1 a
            ≡ (if ltb now (deadline_of c op) then unit a op else 0) + pending c a)
      × ((a : ℕ)
          → told (resume_at now op c).1 a
            ≡ (if ltb now (deadline_of c op) then 0 else unit a op) + told c a)
      × ((resume_at now op c).0
          ≡ (if ltb now (deadline_of c op) then SubmitResult.submit else SubmitResult.ready))
unfolding resume_at
resume_at_lem now op c h = elim (Bool-cases (ltb now (deadline_of c op))) [
  | inl early ↦ rw early (
    (insert_sorted_lem ltb (deadline_of c) op c.d_timeouts ltb-IsStrictWeak h).0,
    λ a. omega (arith, total-insert_sorted (unit a) (deadline_of c) op c.d_timeouts),
    λ a. omega arith,
    refl,
  )
  | inr due ↦ rw due (h, λ a. omega arith, λ a. omega arith, refl)
]

index_of-none : (op : ℕ) (xs : List ℕ) → index_of op xs ≡ none → total (unit op) xs ≡ 0
index_of-none op [] h = refl
index_of-none op (x ∷ xs) h = ground (arith, index_of-none op xs)

index_of-some : (op : ℕ) (xs : List ℕ) {i : ℕ} → index_of op xs ≡ some i → get_elem? xs i ≡ some op
index_of-some op [] h = cc
index_of-some op (x ∷ xs) {i} h = elim (Bool-cases (x == op)) [
  | inl hit ↦
      let first : i ≡ 0 = ground arith in
      subst (λ k. get_elem? (x ∷ xs) k ≡ some op) (sym first) (ap some (==→eq x op hit))
  | inr miss ↦ elim (Option-cases (index_of op xs)) [
    | inl e ↦ ground arith
    | inr (j, e) ↦
        let later : i ≡ suc j = ground arith in
        subst (λ k. get_elem? (x ∷ xs) k ≡ some op) (sym later) (index_of-some op xs e)
  ]
]

contains-false : (op : ℕ) (xs : List ℕ) → contains op xs ≡ false → total (unit op) xs ≡ 0
contains-false op [] h = refl
contains-false op (x ∷ xs) h = ground (arith, contains-false op xs)

-- How an operation that was pending leaves the context: it and the operation that cancels it are
-- told so, and no other is touched.
pub record Cancels (cancel_op op : ℕ) (c d : Context) : Type 0 where
  pub aligned : IsAligned d
  pub freed : (a : ℕ) → pending c a ≡ unit a op + pending d a
  pub notified : (a : ℕ) → told d a ≡ unit a cancel_op + unit a op + told c a

abbrev both_told : ℕ → ℕ → Context → Context
both_told cancel_op op d = signal (cancelled cancel_op) (signal (cancelled op) d)

module _ (cancel_op op : ℕ) (c : Context) (h : IsAligned c) where
  cancelled_socket :
      (i : ℕ)
      → index_of op c.d_outstanding ≡ some i
      → Cancels cancel_op op c (both_told cancel_op op (remove_outstanding i c))
  cancelled_socket i e =
      let at = index_of-some op c.d_outstanding e in
      record {
        aligned = IsAligned-remove_outstanding i c h at;
        freed = λ a. omega (
          arith,
          count-remove_outstanding i c a h at,
          ap (total (unit a)) (timeouts-remove_outstanding i c),
        );
        notified = λ a. omega (arith, ap (total (tells a)) (signals-remove_outstanding i c));
      }

  cancelled_timer :
      contains op c.d_timeouts ≡ true
      → Cancels cancel_op op c
          (both_told cancel_op op (record c { d_timeouts = remove op c.d_timeouts }))
  cancelled_timer e = record {
    aligned = h;
    freed = λ a. omega (arith, total-remove (unit a) op c.d_timeouts e);
    notified = λ a. omega arith;
  }

  -- With both vectors of one size, `cancel` either finds the operation among those that wait,
  -- takes it out once and tells it and the cancelling operation, or the operation is not pending
  -- and the program is terminated.
  pub cancel_lem :
      ((pending c op ≡ 0) × (cancel cancel_op op c ≡ terminated))
      ⊎ ((d : Context) × (cancel cancel_op op c ≡ returns tt d) × Cancels cancel_op op c d)
  unfolding cancel
  cancel_lem = elim (Option-cases (index_of op c.d_outstanding)) [
    | inr (i, e) ↦
        inr (both_told cancel_op op (remove_outstanding i c), rw (e, cancel), cancelled_socket i e)
    | inl out ↦ elim (Bool-cases (contains op c.d_timeouts)) [
      | inl timer ↦ inr (
        both_told cancel_op op (record c { d_timeouts = remove op c.d_timeouts }),
        rw (out, timer, cancel),
        cancelled_timer timer,
      )
      | inr absent ↦ inl (
        omega (arith, index_of-none op c.d_outstanding out, contains-false op c.d_timeouts absent),
        rw (out, absent, cancel),
      )
    ]
  ]
