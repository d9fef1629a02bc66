-- ===== src/Poll/Conservation.antt =====
-- No operation that is given to a `net.Poll` context is lost or told of its end twice: each
-- function of the context keeps the count `ledger` in step with what it was given.
use net.Prelude.{
  ℕ, suc, ◌+◌, ◌≡◌, refl, sym, ◌∙◌, ap, some, List, [], ◌∷◌, arith, length, get_elem?, total, inl,
  inr, Option-cases, get_elem?-ne-none, get_elem?-some_lt,
}
use net.Prelude.Outcome.{Outcome, returns, waits, undefined, terminated}
use net.Event.{PollBits}
use net.Poll.{Context, PollFd, process_task, process_timeout, remove_outstanding}
use net.Poll.Work.{System, work, run_work}
use net.Poll.Run.{set_revents, dispatch}
use net.Poll.Removal.{total-swap_remove, d_outstanding-remove_outstanding, remove_outstanding_lem}
use net.Poll.Ledger.{unit, tells, ledger}
use net.Poll.Told.{Ensures, Ensures-and_then, Prompt, TellsOnce, run_work-TellsOnce}

-- The vectors `d_poll` and `d_outstanding` are of one size.
abbrev pub IsAligned : Context → Type 0
IsAligned c = length c.d_poll ≡ length c.d_outstanding

-- Nothing was lost or told twice on the way from `c` to `d`.
pub record Keeps (c d : Context) : Type 0 where
  pub aligned : IsAligned d
  pub balanced : (a : ℕ) → ledger d a ≡ ledger c a

pub process_timeout-Keeps :
    (now : ℕ) (c : Context) → IsAligned c → Keeps c (process_timeout now c).1
unfolding process_timeout
process_timeout-Keeps now c h = record { aligned = ground arith; balanced = λ a. ground arith }

pub process_task-Keeps : (c : Context) → IsAligned c → Keeps c (process_task c).1
unfolding process_task
process_task-Keeps c h = record { aligned = ground arith; balanced = λ a. ground arith }

pub Keeps-trans : {b c d : Context} → Keeps b c → Keeps c d → Keeps b d
Keeps-trans h k = record { aligned = k.aligned; balanced = λ a. k.balanced a ∙ h.balanced a }

pub length-set_revents :
    (ps : List PollFd) (bits : List PollBits) → length (set_revents ps bits) ≡ length ps
length-set_revents [] bits = refl
length-set_revents (p ∷ ps) [] = refl
length-set_revents (p ∷ ps) (b ∷ bits) = ap suc (length-set_revents ps bits)

module _ (i : ℕ) (c : Context) where
  pub timeouts-remove_outstanding : (remove_outstanding i c).d_timeouts ≡ c.d_timeouts
  unfolding remove_outstanding
  timeouts-remove_outstanding = ground arith

  pub signals-remove_outstanding : (remove_outstanding i c).signals ≡ c.signals
  unfolding remove_outstanding
  signals-remove_outstanding = ground arith

  -- What is in `d_outstanding` after the removal, counted.
  pub count-remove_outstanding :
      (a : ℕ) {op : ℕ}
      → IsAligned c
      → get_elem? c.d_outstanding i ≡ some op
      → total (unit a) c.d_outstanding
        ≡ unit a op + total (unit a) (remove_outstanding i c).d_outstanding
  count-remove_outstanding a h g =
      rw (d_outstanding-remove_outstanding i c h) (total-swap_remove (unit a) c.d_outstanding i g)

  pub IsAligned-remove_outstanding :
      {op : ℕ}
      → IsAligned c
      → get_elem? c.d_outstanding i ≡ some op
      → IsAligned (remove_outstanding i c)
  IsAligned-remove_outstanding h g = elim (Option-cases (get_elem? c.d_poll i)) [
    | inl e ↦
        absurd
          (get_elem?-ne-none c.d_poll i (omega (arith, h, get_elem?-some_lt c.d_outstanding i g)) e)
    | inr (p, e) ↦ (remove_outstanding_lem i c h e g).1
  ]

-- Taking the operation out of `d_outstanding` and telling it of its end balance each other.
removed-Keeps :
    (i : ℕ) (c d : Context) (op : ℕ)
    → IsAligned c
    → get_elem? c.d_outstanding i ≡ some op
    → TellsOnce (remove_outstanding i c) op d
    → Keeps c d
removed-Keeps i c d op h g t = record {
  aligned =
      ap length t.kept.same_poll
      ∙ IsAligned-remove_outstanding i c h g
      ∙ ap length (sym t.kept.same_outstanding);
  balanced = λ a. omega (
    arith,
    t.told_once a,
    count-remove_outstanding i c a h g,
    ap (total (unit a)) t.kept.same_outstanding,
    ap (total (unit a)) (t.kept.same_timeouts ∙ timeouts-remove_outstanding i c),
    ap (total (tells a)) (signals-remove_outstanding i c),
  );
}

pub dispatch-Keeps :
    (sys : System) (i : ℕ) (c : Context)
    → Prompt sys
    → IsAligned c
    → Ensures (λ _ d. Keeps c d) (dispatch sys i c)
unfolding dispatch work
dispatch-Keeps sys i c p h = elim (Option-cases (get_elem? c.d_outstanding i)) [
  | inl e ↦ rw (e, dispatch) tt
  | inr (op, e) ↦
      rw (e, dispatch)
        (elim (Option-cases ((remove_outstanding i c).operations op).work) [
          | inl w ↦ rw (w, work) tt
          | inr (kind, w) ↦
              rw (w, work)
                (Ensures-and_then (λ _ d. TellsOnce (remove_outstanding i c) op d)
                  (λ _ d. Keeps c d) (run_work kind sys op (remove_outstanding i c))
                  (λ _. returns 1) (run_work-TellsOnce sys op kind (remove_outstanding i c) p)
                  λ _ d t. removed-Keeps i c d op h e t)
        ])
]

pub set_revents-Keeps :
    (c : Context) (bits : List PollBits)
    → IsAligned c
    → Keeps c (record c { d_poll = set_revents c.d_poll bits })
set_revents-Keeps c bits h = record {
  aligned = length-set_revents c.d_poll bits ∙ h;
  balanced = λ a. refl;
}

pub Ensures-Keeps :
    {b c : Context} (o : Outcome Context ℕ)
    → Keeps b c
    → Ensures (λ _ d. Keeps c d) o
    → Ensures (λ _ d. Keeps b d) o
Ensures-Keeps (returns n d) h k = Keeps-trans h k
Ensures-Keeps waits h k = tt
Ensures-Keeps undefined h k = tt
Ensures-Keeps terminated h k = tt

pub Keeps-refl : (c : Context) → IsAligned c → Keeps c c
Keeps-refl c h = record { aligned = h; balanced = λ a. refl }
