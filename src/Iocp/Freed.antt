-- ===== src/Iocp/Freed.antt =====
-- When the loop of iocp_context.hpp frees the data of a socket that was released.
use net.Prelude.{
  ℕ, ◌^◌, ◌<◌, [], arith, ◌≡◌, refl, ap, ◌∙◌, inl, inr, none, List, ◌∷◌, Option-cases, ==_refl,
}
use net.Prelude.Int.{ℤ}
use net.Prelude.Outcome.{returns, undefined}
use net.Iocp.{Pointer, WorkKind, Context, free_block, load}
use net.Iocp.Work.{System}
use net.Iocp.Run.{Packet, run_one, arrive, free_deferred}
use net.Iocp.Waits.{IsFor, run_one-arrive}
use net.Iocp.Arrivals.{IsGiven, arrive-Arrives}

free_block-frees : (b : ℕ) (c : Context) → (free_block b c).blocks b ≡ none
unfolding free_block
free_block-frees b c = elim (Option-cases (c.blocks b)) [
  | inl e ↦ rw (e, free_block) e
  | inr (at_b, e) ↦ rw (e, free_block) (rw (==_refl b) refl)
]

free_deferred-frees :
    (c : Context) {b : ℕ} {rest : List ℕ}
    → c.deferred ≡ b ∷ rest
    → (free_deferred c).blocks b ≡ none
unfolding free_deferred
free_deferred-frees c {b} {rest} e =
    rw (e, free_deferred) (free_block-frees b (record c { deferred = rest }))

arrive-unallocated :
    (sys : System) (res : ℤ) (p : Pointer) (c : Context)
    → c.blocks p.block ≡ none
    → arrive sys res p c ≡ undefined
unfolding arrive
arrive-unallocated sys res p c e = rw (e, load, arrive) refl

-- While a socket's data is the next that is to be freed, and several operations are outstanding but
-- no timer is set and no task is there, the packet of any receive, send or connect operation that
-- was given to the operating system makes `run_one` return 1 and frees that data, whichever socket
-- the operation is for. A packet for an operation that still has its `OVERLAPPED` in that data then
-- has the next `run_one` use memory that is freed.
pub run_one-undefined :
    {kind : WorkKind} {q : Pointer} {op : ℕ} {c : Context} (sys : System) (ticks now later : ℕ)
    (packet next : Packet) (res res' : ℤ) (p : Pointer) {rest : List ℕ}
    → IsGiven kind q op c
    → c.deferred ≡ p.block ∷ rest
    → c.timeouts ≡ []
    → c.tasks ≡ []
    → 1 < c.outstanding
    → c.outstanding < 2 ^ 64
    → IsFor packet res q
    → IsFor next res' p
    → (e : Context) × (run_one sys ticks now (λ _. packet) later c ≡ returns 1 e)
      × (e.blocks p.block ≡ none)
      × (run_one sys ticks later (λ _. next) later e ≡ undefined)
run_one-undefined {kind} {q} {op} {c} sys ticks now later packet next res res' p g there no_timers
      no_tasks several bound at_q at_p =
    let (e, ran, a) = arrive-Arrives sys kind res q op c g in
    let (d, freed, kept) = a.frees in
    let gone =
      ap (λ (f : Context). f.blocks p.block) freed ∙ free_deferred-frees d (kept ∙ there) in
    let left : 0 < e.outstanding = omega (arith, a.counted_off) in
    (
      e,
      run_one-arrive sys ticks now later c packet res q no_timers no_tasks (omega arith) at_q ∙ ran,
      gone,
      run_one-arrive sys ticks later later e next res' p (a.same_timeouts ∙ no_timers)
            (a.same_tasks ∙ no_tasks) left at_p
          ∙ arrive-unallocated sys res' p e gone,
    )
