-- ===== src/Uring/Ends.antt =====
-- The functions that `work` points at in uring_context.hpp: each tells its operation of its end
-- once, and asks nothing of the ring.
use net.Prelude.{
  ℕ, suc, ◌+◌, ◌≡◌, ◌≢◌, refl, ap, inl, inr, none, some, ◌==◌, if◌then◌else◌, length, total,
  Bool-cases, Option-cases, ==_refl,
}
use net.Prelude.Int.{ℤ, pos, negsuc}
use net.Container
use net.Container.{Container}
use net.Uring.{
  WorkKind, cancel_work, accept_work, connect_work, receive_work, send_work, resume_at_work,
  Operation, Signal, completed, failed_with, cancelled, ran, Context, signal, update, make_socket,
}
use net.Uring.Work.{
  succeed, fall, is_cancelled, run_work, work, set_socket, set_count, minus, etime,
}
use net.Uring.Counts.{Ensures}

abbrev pub unit : ℕ → ℕ → ℕ
unit a x = if x == a then 1 else 0

pub unit_self : (a : ℕ) → unit a a ≡ 1
unit_self a = rw (==_refl a)

abbrev pub tells : ℕ → Signal → ℕ
tells a (completed op) = unit a op
tells a (failed_with op e) = unit a op
tells a (cancelled op) = unit a op
tells a (ran t) = 0

-- How often the operation was told of its end.
abbrev pub told : {R : Type 0} → Context R → ℕ → ℕ
told c a = total (tells a) c.signals

-- The table of sockets takes another one.
abbrev pub TakesSocket : {R : Type 0} → Context R → Type 0
TakesSocket c = (fd : ℕ) → Container.insert fd c.sockets ≢ none

-- The operation was told of its end once, no other was, and nothing is asked of the ring.
pub record Ends {R : Type 0} (c : Context R) (op : ℕ) (d : Context R) : Type 0 where
  pub same_ring : d.ring ≡ c.ring
  pub same_submitting : d.submitting ≡ c.submitting
  pub same_outstanding : d.outstanding ≡ c.outstanding
  pub same_work : (o : ℕ) → (d.operations o).work ≡ (c.operations o).work
  pub told_once : (a : ℕ) → told d a ≡ unit a op + told c a
  pub one_signal : length d.signals ≡ suc (length c.signals)

module _ {R : Type 0} (op : ℕ) where
  signal-Ends :
      (s : Signal) (c : Context R) → ((a : ℕ) → tells a s ≡ unit a op) → Ends c op (signal s c)
  signal-Ends s c h = record {
    same_ring = refl;
    same_submitting = refl;
    same_outstanding = refl;
    same_work = λ o. refl;
    told_once = λ a. ap (λ n. n + told c a) (h a);
    one_signal = refl;
  }

  update-Ends :
      (g : Operation → Operation) (s : Signal) (c : Context R)
      → ((o : Operation) → (g o).work ≡ o.work)
      → ((a : ℕ) → tells a s ≡ unit a op)
      → Ends c op (signal s (update g op c))
  update-Ends g s c keeps h = record {
    same_ring = refl;
    same_submitting = refl;
    same_outstanding = refl;
    same_work = λ o. elim (Bool-cases (o == op)) [
      | inl hit ↦ rw hit (keeps (c.operations o))
      | inr miss ↦ rw miss
    ];
    told_once = λ a. ap (λ n. n + told c a) (h a);
    one_signal = refl;
  }

  succeed-Ends :
      (kind : WorkKind) (n : ℕ) (c : Context R)
      → TakesSocket c
      → Ensures (λ _ d. Ends c op d) (succeed kind n op c)
  unfolding succeed make_socket
  succeed-Ends cancel_work n c t = signal-Ends (completed op) c (λ a. refl)
  succeed-Ends accept_work n c t = elim (Option-cases (Container.insert n c.sockets)) [
    | inl e ↦ absurd (t n e)
    | inr ((id, sockets), e) ↦
        let h = update-Ends (set_socket id) (completed op) c (λ o. refl) (λ a. refl) in
        rw (e, make_socket)
          (record {
            same_ring = h.same_ring;
            same_submitting = h.same_submitting;
            same_outstanding = h.same_outstanding;
            same_work = h.same_work;
            told_once = h.told_once;
            one_signal = h.one_signal;
          })
  ]
  succeed-Ends connect_work n c t = signal-Ends (completed op) c (λ a. refl)
  succeed-Ends receive_work n c t =
      update-Ends (set_count n) (completed op) c (λ o. refl) (λ a. refl)
  succeed-Ends send_work n c t = update-Ends (set_count n) (completed op) c (λ o. refl) (λ a. refl)
  succeed-Ends resume_at_work n c t = signal-Ends (failed_with op (minus (pos n))) c (λ a. refl)

  fall-Ends :
      (kind : WorkKind) (n : ℕ) (c : Context R) → Ensures (λ _ d. Ends c op d) (fall kind n op c)
  unfolding fall
  fall-Ends resume_at_work n c = elim (Bool-cases (suc n == etime)) [
    | inl late ↦ rw late (signal-Ends (completed op) c (λ a. refl))
    | inr other ↦ rw other (signal-Ends (failed_with op (minus (negsuc n))) c (λ a. refl))
  ]
  fall-Ends _ n c = signal-Ends (failed_with op (minus (negsuc n))) c (λ a. refl)

  run_work-Ends :
      (kind : WorkKind) (res : ℤ) (c : Context R)
      → TakesSocket c
      → Ensures (λ _ d. Ends c op d) (run_work kind res op c)
  unfolding run_work
  run_work-Ends kind (pos n) c t = succeed-Ends kind n c t
  run_work-Ends kind (negsuc n) c t = elim (Bool-cases (is_cancelled kind (negsuc n))) [
    | inl over ↦ rw over (signal-Ends (cancelled op) c (λ a. refl))
    | inr other ↦ rw other (fall-Ends kind n c)
  ]

module _ {R : Type 0} where
  pub work-Ends :
      (c : Context R) (op : ℕ) (res : ℤ) {kind : WorkKind}
      → (c.operations op).work ≡ some kind
      → (c.operations op).extra ≡ some res
      → TakesSocket c
      → Ensures (λ _ d. Ends c op d) (work op c)
  unfolding work
  work-Ends c op res {kind} has_work has_extra room =
      rw (has_work, has_extra) (run_work-Ends op kind res c room)
