-- ===== src/Sender/Phase.antt =====
-- The phases of an operation of `net.Sender` that was given to a `net.Poll` context, and how a
-- round of the context's loop moves it on.
use net.Prelude.{
  ℕ, ◌+◌, ◌≡◌, sym, ◌∙◌, ap, subst, ◌⊎◌, inl, inr, true, false, List, arith, length, ℕ-cases,
}
use net.Prelude.Int.{increment, is_above_one}
use net.Prelude.Outcome.{Outcome, returns, waits, undefined, terminated}
use net.Poll.{Context}
use net.Poll.Work.{System}
use net.Poll.Run.{Round, run_one}
use net.Poll.Ledger.{pending, told}
use net.Poll.Told.{Ensures, Prompt}
use net.Poll.Conservation.{IsAligned, Keeps}
use net.Poll.RunOne.{run_one-Keeps}
use net.Sender.{State}
use net.Sender.Steps.{Client, deliver_all, hand_over, call, log_empty}
use net.Sender.Deliver.{deliver_all-quiet, deliver_all-once, IsRunning}

module _ (op cb : ℕ) where
  -- The operation stands in one queue of the context, and a stop would cancel it.
  pub record IsWaiting (k : Client) : Type 0 where
    pub aligned : IsAligned k.context
    pub running : IsRunning op cb k.state
    pub engaged : k.state.d_callback ≡ true
    pub unasked : k.stop_requested ≡ false
    pub queued : pending k.context op ≡ 1
    pub apart : pending k.context cb ≡ 0

  -- The receiver was signalled once, and the context knows the operation no more.
  pub record IsEnded (k : Client) : Type 0 where
    pub aligned : IsAligned k.context
    pub signalled : length k.state.received ≡ 1
    pub gone : pending k.context op ≡ 0
    pub apart : pending k.context cb ≡ 0
    -- the callback would not call the context
    pub harmless :
        (is_above_one (increment k.state.d_outstanding) ≡ false) ⊎ (k.stop_requested ≡ true)

  abbrev pub Settles : Client → Type 0
  Settles k = IsWaiting k ⊎ IsEnded k

  -- The client after a call of the context that ended in `d`.
  abbrev pub handed : Client → Context → Client
  handed k d = record k { context = d; state = deliver_all op cb d.signals k.state }

  abbrev pub client_of : {A : Type 0} → Client → Outcome Client A → Client
  client_of k (returns a l) = l
  client_of k waits = k
  client_of k undefined = k
  client_of k terminated = k

  pub hand_over-returns :
      {A : Type 0} (P : A → Context → Type 0) (k l : Client) (a : A) (o : Outcome Context A)
      → Ensures P o
      → hand_over op cb k o ≡ returns a l
      → (b : A) × (d : Context) × P b d × (handed k d ≡ l)
  hand_over-returns P k l a (returns b d) p e = (b, d, p, ap (client_of k) e)
  hand_over-returns P k l a waits p e = cc
  hand_over-returns P k l a undefined p e = cc
  hand_over-returns P k l a terminated p e = cc

  handed-Settles :
      (k : Client) (d : Context) → IsWaiting k → Keeps (log_empty op cb k) d → Settles (handed k d)
  handed-Settles k d w h =
      let here : pending d op + told d op ≡ 1 = omega (arith, h.balanced op, w.queued) in
      let other : pending d cb + told d cb ≡ 0 = omega (arith, h.balanced cb, w.apart) in
      elim (ℕ-cases (told d op)) [
        | inl silent ↦
            let same = deliver_all-quiet op cb d.signals k.state silent (omega arith) in
            inl (record {
              aligned = h.aligned;
              running = subst (IsRunning op cb) (sym same) w.running;
              engaged = ap (λ (s : State). s.d_callback) same ∙ w.engaged;
              unasked = w.unasked;
              queued = omega arith;
              apart = omega arith;
            })
        | inr (n, e) ↦
            let ended =
              deliver_all-once op cb d.signals k.state (omega arith) (omega arith) w.running in
            inr (record {
              aligned = h.aligned;
              signalled = ended.signalled;
              gone = omega arith;
              apart = omega arith;
              harmless = inl (ap (λ n. is_above_one (increment n)) ended.no_user);
            })
      ]

  handed-IsEnded :
      (k : Client) (d : Context) → IsEnded k → Keeps (log_empty op cb k) d → IsEnded (handed k d)
  handed-IsEnded k d w h =
      let here : pending d op + told d op ≡ 0 = omega (arith, h.balanced op, w.gone) in
      let other : pending d cb + told d cb ≡ 0 = omega (arith, h.balanced cb, w.apart) in
      let same = deliver_all-quiet op cb d.signals k.state (omega arith) (omega arith) in
      record {
        aligned = h.aligned;
        signalled = ap (λ (s : State). length s.received) same ∙ w.signalled;
        gone = omega arith;
        apart = omega arith;
        harmless =
            subst
              (λ (s : State).
                (is_above_one (increment s.d_outstanding) ≡ false) ⊎ (k.stop_requested ≡ true))
              (sym same) w.harmless;
      }

  -- A round of the loop leaves the operation waiting or ends it.
  pub run_one-Settles :
      (sys : System) (ticks now : ℕ) (rounds : List Round) (n : ℕ) (k l : Client)
      → Prompt sys
      → Settles k
      → call op cb (run_one sys ticks now rounds) k ≡ returns n l
      → Settles l
  run_one-Settles sys ticks now rounds n k l p (inl w) e =
      let (_, d, keeps, same) =
        hand_over-returns (λ _ d. Keeps (log_empty op cb k) d) k l n
          (run_one sys ticks now rounds (log_empty op cb k))
          (run_one-Keeps sys ticks now p rounds (log_empty op cb k) w.aligned) e in
      subst Settles same (handed-Settles k d w keeps)
  run_one-Settles sys ticks now rounds n k l p (inr w) e =
      let (_, d, keeps, same) =
        hand_over-returns (λ _ d. Keeps (log_empty op cb k) d) k l n
          (run_one sys ticks now rounds (log_empty op cb k))
          (run_one-Keeps sys ticks now p rounds (log_empty op cb k) w.aligned) e in
      subst Settles same (inr (handed-IsEnded k d w keeps))
