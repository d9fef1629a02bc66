-- ===== src/Sender/Deliver.antt =====
-- What the log of a context does to the operation of `net.Sender`: one signal to it ends it.
use net.Prelude.{ℕ, ◌≡◌, refl, sym, ◌∙◌, subst, ◌⊎◌, inl, inr, List, [], ◌∷◌, arith, length, total}
use net.Prelude.Int.{pos}
use net.Poll.{Signal, completed, failed_with, cancelled, ran}
use net.Poll.Ledger.{unit, tells}
use net.Sender.{State, complete, error, cancel}
use net.Sender.Steps.{route, deliver, deliver_all}

module _ (op cb : ℕ) where
  route-quiet :
      (a : ℕ) (ended : State → State) (s : State)
      → unit op a ≡ 0
      → unit cb a ≡ 0
      → route op cb a ended s ≡ s
  route-quiet a ended s h k = ground arith

  deliver-quiet : (x : Signal) (s : State) → tells op x ≡ 0 → tells cb x ≡ 0 → deliver op cb x s ≡ s
  deliver-quiet (completed a) s h k = route-quiet a complete s h k
  deliver-quiet (failed_with a e) s h k = route-quiet a (error e) s h k
  deliver-quiet (cancelled a) s h k = route-quiet a cancel s h k
  deliver-quiet (ran t) s h k = refl

  -- Signals to others change nothing.
  pub deliver_all-quiet :
      (xs : List Signal) (s : State)
      → total (tells op) xs ≡ 0
      → total (tells cb) xs ≡ 0
      → deliver_all op cb xs s ≡ s
  deliver_all-quiet [] s h k = refl
  deliver_all-quiet (x ∷ xs) s h k =
      deliver-quiet x (deliver_all op cb xs s) (omega arith) (omega arith)
      ∙ deliver_all-quiet xs s (omega arith) (omega arith)

  -- The operation is started and no end of it was signalled.
  pub record IsRunning (s : State) : Type 0 where
    pub one_user : s.d_outstanding ≡ pos 1
    pub silent : s.received ≡ []

  pub record IsSignalled (s : State) : Type 0 where
    pub no_user : s.d_outstanding ≡ pos 0
    pub signalled : length s.received ≡ 1

  route-hit :
      (a : ℕ) (ended : State → State) (s : State) → unit op a ≡ 1 → route op cb a ended s ≡ ended s
  route-hit a ended s h = ground arith

  complete-IsSignalled : (s : State) → IsRunning s → IsSignalled (complete s)
  unfolding complete
  complete-IsSignalled s h = record {
    no_user = ground (arith, h.one_user);
    signalled = ground (arith, h.one_user, h.silent);
  }

  error-IsSignalled : (s : State) (e : _) → IsRunning s → IsSignalled (error e s)
  unfolding error
  error-IsSignalled s e h = record {
    no_user = ground (arith, h.one_user);
    signalled = ground (arith, h.one_user, h.silent);
  }

  cancel-IsSignalled : (s : State) → IsRunning s → IsSignalled (cancel s)
  unfolding cancel
  cancel-IsSignalled s h = record {
    no_user = ground (arith, h.one_user);
    signalled = ground (arith, h.one_user, h.silent);
  }

  deliver-hit :
      (x : Signal) (s : State) → tells op x ≡ 1 → IsRunning s → IsSignalled (deliver op cb x s)
  deliver-hit (completed a) s h r =
      subst IsSignalled (sym (route-hit a complete s h)) (complete-IsSignalled s r)
  deliver-hit (failed_with a e) s h r =
      subst IsSignalled (sym (route-hit a (error e) s h)) (error-IsSignalled s e r)
  deliver-hit (cancelled a) s h r =
      subst IsSignalled (sym (route-hit a cancel s h)) (cancel-IsSignalled s r)
  deliver-hit (ran t) s h r = absurd (omega arith)

  tells-cases : (x : Signal) → (tells op x ≡ 0) ⊎ (tells op x ≡ 1)
  tells-cases (completed a) = ground arith
  tells-cases (failed_with a e) = ground arith
  tells-cases (cancelled a) = ground arith
  tells-cases (ran t) = inl refl

  -- One signal to the operation ends it.
  pub deliver_all-once :
      (xs : List Signal) (s : State)
      → total (tells op) xs ≡ 1
      → total (tells cb) xs ≡ 0
      → IsRunning s
      → IsSignalled (deliver_all op cb xs s)
  deliver_all-once [] s h k r = absurd (omega arith)
  deliver_all-once (x ∷ xs) s h k r = elim (tells-cases x) [
    | inl other ↦
        subst IsSignalled (sym (deliver-quiet x (deliver_all op cb xs s) other (omega arith)))
          (deliver_all-once xs s (omega arith) (omega arith) r)
    | inr this ↦
        deliver-hit x (deliver_all op cb xs s) this
          (subst IsRunning (sym (deliver_all-quiet xs s (omega arith) (omega arith))) r)
  ]
