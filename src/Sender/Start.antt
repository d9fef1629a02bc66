-- ===== src/Sender/Start.antt =====
-- `start` of sender.hpp for a socket operation that nobody has asked to stop.
use net.Prelude.{ℕ, ◌≡◌, ◌≢◌, sym, ◌∙◌, ap, subst, false, arith}
use net.Prelude.Int.{increment}
use net.Prelude.Outcome.{returns}
use net.Poll
use net.Poll.{WorkKind, connect_work}
use net.Poll.Work.{System}
use net.Poll.Start.{IsOpen, Takes, start_lem}
use net.Sender.{State, add_one}
use net.Sender.Steps.{Client, start, deliver_all, log_empty, engage}
use net.Sender.Deliver.{deliver_all-quiet, IsRunning}
use net.Sender.Phase.{IsWaiting}
use net.Sender.Stop.{IsFresh}

-- Starting a poll, accept, receive or send operation that is not pending, on an open socket, with
-- no stop requested, returns: the operation then waits in the context, its stop callback is
-- engaged and its receiver was told nothing. This supposes that the operation and its stop
-- callback are two objects.
pub start-IsWaiting :
    (op cb handle : ℕ) (kind : WorkKind) (sys : System) (k : Client)
    → op ≢ cb
    → kind ≢ connect_work
    → IsFresh op cb k
    → k.stop_requested ≡ false
    → IsOpen k.context op handle
    → (l : Client) × (start op cb (Poll.Start.start kind sys op) k ≡ returns tt l)
      × IsWaiting op cb l
unfolding start
start-IsWaiting op cb handle kind sys k apart socket f unasked there =
    let (d, e, t, _) =
      start_lem kind sys op handle (log_empty op cb k) socket f.aligned
        (record { record_there = there.record_there }) in
    let s = engage (add_one k.state) in
    let same = deliver_all-quiet op cb d.signals s (t.untold op) (t.untold cb) in
    (
      record k { context = d; state = deliver_all op cb d.signals s },
      simp (unasked, e),
      record {
        aligned = t.aligned;
        running =
            subst (IsRunning op cb) (sym same)
              (record { one_user = ap increment f.unused; silent = f.silent });
        engaged = ap (λ (x : State). x.d_callback) same;
        unasked = unasked;
        queued = t.taken op ∙ ground (arith, f.absent);
        apart = t.taken cb ∙ ground (arith, f.apart, apart);
      },
    )
