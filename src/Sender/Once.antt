-- ===== src/Sender/Once.antt =====
-- An operation of `net.Sender` in a `net.Poll` context through any history of rounds of the loop,
-- stop requests and other use of the context.
use net.Prelude.{ℕ, ◌≡◌, ◌≢◌, refl, sym, ◌∙◌, ap, subst, inl, inr, true, Bool-cases}
use net.Prelude.Outcome.{returns}
use net.Poll.{Context}
use net.Poll.Conservation.{IsAligned}
use net.Poll.Work.{System}
use net.Poll.Ledger.{pending}
use net.Poll.Told.{Prompt}
use net.Sender.Steps.{Client, request_stop, Step, runs, stops, others, History, none_yet, then_step}
use net.Sender.Phase.{IsWaiting, IsEnded, Settles, client_of, run_one-Settles}
use net.Sender.Stop.{request_stop_lem}

module _ (op cb : ℕ) where
  asked-IsEnded :
      (k : Client) → IsEnded op cb k → IsEnded op cb (record k { stop_requested = true })
  asked-IsEnded k h = record {
    aligned = h.aligned;
    signalled = h.signalled;
    gone = h.gone;
    apart = h.apart;
    harmless = inr refl;
  }

  -- A stop request after the end goes nowhere.
  request_stop-IsEnded :
      (k l : Client) → IsEnded op cb k → request_stop op cb k ≡ returns tt l → IsEnded op cb l
  unfolding request_stop
  request_stop-IsEnded k l h e = elim (Bool-cases k.stop_requested) [
    | inl asked ↦ subst (IsEnded op cb) (ap (client_of op cb k) (simp asked at e)) h
    | inr unasked ↦ elim (Bool-cases k.state.d_callback) [
      | inr empty ↦
          subst (IsEnded op cb) (ap (client_of op cb k) (simp (unasked, empty) at e))
            (asked-IsEnded k h)
      | inl engaged ↦ elim h.harmless [
        | inr asked ↦ absurd (cc)
        | inl few ↦
            subst (IsEnded op cb) (ap (client_of op cb k) (simp (unasked, engaged, few) at e))
              (record {
                aligned = h.aligned;
                signalled = h.signalled;
                gone = h.gone;
                apart = h.apart;
                harmless = inr refl;
              })
      ]
    ]
  ]

  request_stop-Settles :
      (k l : Client)
      → op ≢ cb
      → Settles op cb k
      → request_stop op cb k ≡ returns tt l
      → Settles op cb l
  request_stop-Settles k l apart (inl w) e =
      let (m, same, _, ended) = request_stop_lem op cb k apart w in
      inr (subst (IsEnded op cb) (ap (client_of op cb k) (sym same ∙ e)) ended)
  request_stop-Settles k l apart (inr h) e = inr (request_stop-IsEnded k l h e)

  others-Settles :
      (d : Context) (k : Client)
      → IsAligned d
      → pending d op ≡ pending k.context op
      → pending d cb ≡ pending k.context cb
      → Settles op cb k
      → Settles op cb (record k { context = d })
  others-Settles d k a same same_cb (inl w) = inl (record {
    aligned = a;
    running = w.running;
    engaged = w.engaged;
    unasked = w.unasked;
    queued = same ∙ w.queued;
    apart = same_cb ∙ w.apart;
  })
  others-Settles d k a same same_cb (inr h) = inr (record {
    aligned = a;
    signalled = h.signalled;
    gone = same ∙ h.gone;
    apart = same_cb ∙ h.apart;
    harmless = h.harmless;
  })

  module _ (Answers : System → Type 0) where
    Step-Settles :
        (k l : Client)
        → op ≢ cb
        → ((sys : System) → Answers sys → Prompt sys)
        → Settles op cb k
        → Step op cb Answers k l
        → Settles op cb l
    Step-Settles k l apart prompt s (runs sys ticks now rounds n _ _ a e) =
        run_one-Settles op cb sys ticks now rounds n k l (prompt sys a) s e
    Step-Settles k l apart prompt s (stops _ _ e) = request_stop-Settles k l apart s e
    Step-Settles k l apart prompt s (others d _ a same same_cb) =
        others-Settles d k a same same_cb s

    -- However often the loop runs and a stop is requested, an operation that waits in the context
    -- at first either waits there once, with its receiver told nothing, or has left it, with its
    -- receiver told exactly one thing. This supposes that the operation and its stop callback are
    -- two objects, and that a call on a socket does not say EAGAIN after poll(2) said that the
    -- socket is ready.
    pub History-Settles :
        (k l : Client)
        → op ≢ cb
        → ((sys : System) → Answers sys → Prompt sys)
        → IsWaiting op cb k
        → History op cb Answers k l
        → Settles op cb l
    History-Settles k l apart prompt w (none_yet _) = inl w
    History-Settles k l apart prompt w (then_step _ m _ h s) =
        Step-Settles m l apart prompt (History-Settles k m apart prompt w h) s
