-- ===== src/Iocp/Arrivals.antt =====
-- What the packet of a receive, send or connect operation does, in iocp_context.hpp.
use net.Prelude.{
  ℕ, ◌+◌, ◌-◌, ◌%◌, ◌^◌, ◌≡◌, refl, ap, ◌∙◌, true, some, ◌∷◌, ◌==◌, if◌then◌else◌, ==_refl,
}
use net.Prelude.Int.{ℤ}
use net.Prelude.Outcome.{returns}
use net.Iocp.{
  index, Pointer, Overlapped, Block, WorkKind, accept_work, connect_work, receive_work, send_work,
  Operation, Context, load, store, set_block,
}
use net.Iocp.Work.{System, run_work, work}
use net.Iocp.Run.{arrive, arrived, complete_with, free_deferred, set_result}
use net.Iocp.Transfers.{
  verdict, is_transfer, bytes_of, free_deferred-SameRest, IsOpenFor, run_work-Told,
}

-- The operation was given to the operating system with this pointer.
pub record IsGiven (kind : WorkKind) (p : Pointer) (op : ℕ) (c : Context) : Type 0 where
  pub data_at : Block
  pub allocated : c.blocks p.block ≡ some data_at
  pub completes : (data_at p.direction).completion ≡ some op
  pub has_work : (c.operations op).work ≡ some kind
  pub has_extra : (c.operations op).extra ≡ some p
  pub open_for : IsOpenFor kind op c

-- One fewer.
abbrev pub less_one : ℕ → ℕ
less_one n = (n + 2 ^ 64 - 1) % 2 ^ 64

-- What the packet of an operation does.
pub record Arrives (kind : WorkKind) (res : ℤ) (op : ℕ) (c e : Context) : Type 0 where
  pub said : e.signals ≡ verdict kind res op ∷ c.signals
  pub counted :
      is_transfer kind ≡ true → (e.operations op).count ≡ bytes_of res (c.operations op).count
  pub counted_off : e.outstanding ≡ less_one c.outstanding
  pub same_timeouts : e.timeouts ≡ c.timeouts
  pub same_tasks : e.tasks ≡ c.tasks
  pub frees : (d : Context) × (e ≡ free_deferred d) × (d.deferred ≡ c.deferred)

arrive-load :
    (sys : System) (res : ℤ) (p : Pointer) (c : Context) {v : Overlapped}
    → load p c ≡ some v
    → arrive sys res p c ≡ complete_with sys v.completion (arrived p v res c)
unfolding arrive
arrive-load sys res p c e = rw (e, arrive) refl

module _ (sys : System) (kind : WorkKind) (res : ℤ) (p : Pointer) (op : ℕ) (c : Context)
    (g : IsGiven kind p op c) where
  -- The context in which the function of the operation is called.
  abbrev noted : Context
  noted =
      set_block p.block
        (some (λ d.
          if index d == index p.direction
          then set_result res (g.data_at p.direction)
          else g.data_at d))
        (record c { outstanding = less_one c.outstanding })

  load-noted : load p noted ≡ some (set_result res (g.data_at p.direction))
  load-noted = rw (==_refl p.block, load) (rw (==_refl (index p.direction)))

  arrive-noted : arrive sys res p c ≡ complete_with sys (some op) noted
  arrive-noted =
      arrive-load sys res p c {v = g.data_at p.direction} (rw (g.allocated, load))
      ∙ ap (complete_with sys (g.data_at p.direction).completion) (rw (g.allocated, store) refl)
      ∙ ap (λ o. complete_with sys o noted) g.completes

  open_noted : (k : WorkKind) → IsOpenFor k op c → IsOpenFor k op noted
  open_noted accept_work o = o
  open_noted connect_work o = o
  open_noted receive_work o = o
  open_noted send_work o = o

  work-noted :
      work sys op noted ≡ run_work kind sys p (set_result res (g.data_at p.direction)) res op noted
  unfolding work
  work-noted = rw (g.has_work, g.has_extra, load-noted) refl

  pub arrive-Arrives : (e : Context) × (arrive sys res p c ≡ returns 1 e) × Arrives kind res op c e
  arrive-Arrives =
      let (r, d, ran, told) =
        run_work-Told kind sys p (set_result res (g.data_at p.direction)) res op noted
          (open_noted kind g.open_for) in
      let rest = free_deferred-SameRest d in
      (
        free_deferred d,
        arrive-noted ∙ (rw (work-noted ∙ ran) refl),
        record {
          said = rest.same_signals ∙ told.said;
          counted =
              λ t. ap (λ (os : ℕ → Operation). (os op).count) rest.same_operations ∙ told.counted t;
          counted_off = rest.same_outstanding ∙ told.kept_outstanding;
          same_timeouts = rest.same_timeouts ∙ told.kept_timeouts;
          same_tasks = rest.same_tasks ∙ told.kept_tasks;
          frees = (d, refl, told.kept_deferred);
        },
      )
