-- ===== src/Iocp/Transfers.antt =====
-- A receive, send or connect operation of iocp_context.hpp from its start to its completion.
use net.Prelude.{
  ℕ, suc, ◌≡◌, refl, inl, inr, Bool, true, false, Option, none, some, List, [], ◌∷◌, ◌==◌, ◌&&◌,
  if◌then◌else◌, Bool-cases, Option-cases, ==_refl,
}
use net.Prelude.Int.{ℤ, pos, negsuc}
use net.Prelude.Outcome.{returns}
use net.Container
use net.Event.{SubmitResult}
use net.Iocp.{
  accepting, index, Pointer, Overlapped, Block, SocketRecord, WorkKind, accept_work, connect_work,
  receive_work, send_work, Signal, completed, failed_with, cancelled, Context, signal, update, load,
  store, set_block, free_block, close, native_handle,
}
use net.Iocp.Work.{
  System, set_count, is_reset, succeed, fall, run_work, error_operation_aborted, transfer_fails,
}
use net.Iocp.Run.{free_deferred}

-- What the operation is told for a result: the error code is minus the result.
abbrev pub is_transfer : WorkKind → Bool
is_transfer receive_work = true
is_transfer send_work = true
is_transfer _ = false

abbrev pub verdict : WorkKind → ℤ → ℕ → Signal
verdict kind (pos n) op = completed op
verdict kind (negsuc n) op =
    if suc n == error_operation_aborted
    then cancelled op
    else if is_transfer kind && is_reset (suc n)
    then completed op
    else failed_with op (suc n)

-- The number of bytes that a receive or send operation has moved.
abbrev pub bytes_of : ℤ → ℕ → ℕ
bytes_of (pos n) old = n
bytes_of (negsuc n) old =
    if suc n == error_operation_aborted then old else if is_reset (suc n) then 0 else old

pub load-store :
    (p : Pointer) (w : Overlapped) (c : Context) {b : Block}
    → c.blocks p.block ≡ some b
    → load p (store p w c) ≡ some w
load-store p w c e = rw (e, store) (rw (==_refl p.block, load) (rw (==_refl (index p.direction))))

-- What freeing the data of a socket leaves alone.
pub record SameRest (c d : Context) : Type 0 where
  pub same_signals : d.signals ≡ c.signals
  pub same_operations : d.operations ≡ c.operations
  pub same_outstanding : d.outstanding ≡ c.outstanding
  pub same_sockets : d.sockets ≡ c.sockets
  pub same_timeouts : d.timeouts ≡ c.timeouts
  pub same_tasks : d.tasks ≡ c.tasks

close-SameRest : (s : Option ℕ) (b : ℕ) (c : Context) → SameRest c (set_block b none (close s c))
close-SameRest none b c = record {
  same_signals = refl;
  same_operations = refl;
  same_outstanding = refl;
  same_sockets = refl;
  same_timeouts = refl;
  same_tasks = refl;
}
close-SameRest (some s) b c = record {
  same_signals = refl;
  same_operations = refl;
  same_outstanding = refl;
  same_sockets = refl;
  same_timeouts = refl;
  same_tasks = refl;
}

free_block-SameRest : (b : ℕ) (c : Context) → SameRest c (free_block b c)
unfolding free_block
free_block-SameRest b c = elim (Option-cases (c.blocks b)) [
  | inl e ↦
      simp (e, free_block)
        (record {
          same_signals = refl;
          same_operations = refl;
          same_outstanding = refl;
          same_sockets = refl;
          same_timeouts = refl;
          same_tasks = refl;
        })
  | inr (blk, e) ↦ simp (e, free_block) (close-SameRest (blk accepting).accept_socket b c)
]

pub free_deferred-SameRest : (c : Context) → SameRest c (free_deferred c)
unfolding free_deferred
free_deferred-SameRest c = go c.deferred refl
  where
    go : (bs : List ℕ) → c.deferred ≡ bs → SameRest c (free_deferred c)
    go [] e =
        simp (e, free_deferred)
          (record {
            same_signals = refl;
            same_operations = refl;
            same_outstanding = refl;
            same_sockets = refl;
            same_timeouts = refl;
            same_tasks = refl;
          })
    go (b ∷ bs) e =
        let h = free_block-SameRest b (record c { deferred = bs }) in
        simp (e, free_deferred)
          (record {
            same_signals = h.same_signals;
            same_operations = h.same_operations;
            same_outstanding = h.same_outstanding;
            same_sockets = h.same_sockets;
            same_timeouts = h.same_timeouts;
            same_tasks = h.same_tasks;
          })

-- The operation was told what the result says, and nothing else happened to it.
pub record Told (kind : WorkKind) (res : ℤ) (op : ℕ) (c e : Context) : Type 0 where
  pub said : e.signals ≡ verdict kind res op ∷ c.signals
  pub counted :
      is_transfer kind ≡ true → (e.operations op).count ≡ bytes_of res (c.operations op).count
  pub kept_outstanding : e.outstanding ≡ c.outstanding
  pub kept_deferred : e.deferred ≡ c.deferred
  pub kept_timeouts : e.timeouts ≡ c.timeouts
  pub kept_tasks : e.tasks ≡ c.tasks

-- A connect operation asks for the handle of its socket when it completes.
abbrev pub IsOpenFor : WorkKind → ℕ → Context → Type 0
IsOpenFor accept_work op c = ⊥
IsOpenFor connect_work op c =
    (r : SocketRecord) × (Container.lookup (c.operations op).id c.sockets ≡ some r)
IsOpenFor _ op c = Unit {0}

transfer_fails-Told :
    (kind : WorkKind) (n op : ℕ) (c : Context)
    → is_transfer kind ≡ true
    → (r : SubmitResult) × (e : Context) × (transfer_fails (suc n) op c ≡ returns r e)
      × Told kind (negsuc n) op c e
transfer_fails-Told kind n op c t = elim (Bool-cases (suc n == error_operation_aborted)) [
  | inl aborted ↦ rw aborted (
    SubmitResult.ready,
    signal (cancelled op) c,
    refl,
    record {
      said = rw aborted;
      counted = λ _. rw aborted;
      kept_outstanding = refl;
      kept_deferred = refl;
      kept_timeouts = refl;
      kept_tasks = refl;
    },
  )
  | inr other ↦ elim (Bool-cases (is_reset (suc n))) [
    | inl gone ↦
        rw (other, gone)
          (
            SubmitResult.ready,
            signal (completed op) (update (set_count 0) op c),
            refl,
            record {
              said = rw (other, t, gone);
              counted = λ _. rw (other, gone, ==_refl op);
              kept_outstanding = refl;
              kept_deferred = refl;
              kept_timeouts = refl;
              kept_tasks = refl;
            },
          )
    | inr broken ↦
        rw (other, broken)
          (
            SubmitResult.error,
            signal (failed_with op (suc n)) c,
            refl,
            record {
              said = rw (other, t, broken);
              counted = λ _. rw (other, broken);
              kept_outstanding = refl;
              kept_deferred = refl;
              kept_timeouts = refl;
              kept_tasks = refl;
            },
          )
  ]
]

pub run_work-Told :
    (kind : WorkKind) (sys : System) (p : Pointer) (v : Overlapped) (res : ℤ) (op : ℕ) (c : Context)
    → IsOpenFor kind op c
    → (r : SubmitResult) × (e : Context) × (run_work kind sys p v res op c ≡ returns r e)
      × Told kind res op c e
unfolding run_work succeed fall native_handle
run_work-Told accept_work sys p v res op c there = absurd there
run_work-Told connect_work sys p v (pos n) op c (h, there) = (
  SubmitResult.ready,
  signal (completed op) c,
  rw (there, native_handle),
  record {
    said = refl;
    counted = λ wrong. cc;
    kept_outstanding = refl;
    kept_deferred = refl;
    kept_timeouts = refl;
    kept_tasks = refl;
  },
)
run_work-Told connect_work sys p v (negsuc n) op c there =
    elim (Bool-cases (suc n == error_operation_aborted)) [
      | inl aborted ↦ rw aborted (
        SubmitResult.ready,
        signal (cancelled op) c,
        refl,
        record {
          said = rw aborted;
          counted = λ wrong. cc;
          kept_outstanding = refl;
          kept_deferred = refl;
          kept_timeouts = refl;
          kept_tasks = refl;
        },
      )
      | inr other ↦ rw other (
        SubmitResult.error,
        signal (failed_with op (suc n)) c,
        refl,
        record {
          said = rw other;
          counted = λ wrong. cc;
          kept_outstanding = refl;
          kept_deferred = refl;
          kept_timeouts = refl;
          kept_tasks = refl;
        },
      )
    ]
run_work-Told receive_work sys p v (pos n) op c there = (
  SubmitResult.ready,
  signal (completed op) (update (set_count n) op c),
  refl,
  record {
    said = refl;
    counted = λ _. rw (==_refl op);
    kept_outstanding = refl;
    kept_deferred = refl;
    kept_timeouts = refl;
    kept_tasks = refl;
  },
)
run_work-Told receive_work sys p v (negsuc n) op c there =
    transfer_fails-Told receive_work n op c refl
run_work-Told send_work sys p v (pos n) op c there = (
  SubmitResult.ready,
  signal (completed op) (update (set_count n) op c),
  refl,
  record {
    said = refl;
    counted = λ _. rw (==_refl op);
    kept_outstanding = refl;
    kept_deferred = refl;
    kept_timeouts = refl;
    kept_tasks = refl;
  },
)
run_work-Told send_work sys p v (negsuc n) op c there = transfer_fails-Told send_work n op c refl
