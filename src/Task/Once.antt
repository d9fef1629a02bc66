-- ===== src/Task/Once.antt =====
-- What the receiver of a `task` of demo_task.hpp is told, over the life of the task.
use net.Prelude.{
  ◌≡◌, ◌≢◌, refl, ap, ◌∙◌, ◌⊎◌, inl, inr, Bool, true, false, Option, none, some, List, [], ◌∷◌,
  ◌++◌, if◌then◌else◌, Bool-cases,
}
use net.Prelude.Outcome.{Outcome, returns, waits, undefined, terminated, and_then}
use net.Task.{
  running, stopping, stopped, is_stopped, is_running, Result, no_result, task_result, return_with,
  set_value, set_stopped, Resumed, started, result, rethrown, Did, awaits, finishes, throws, Task,
  Completion, value, error, stopped_early, complete_set_value, tell, went_on, awaiter_stop, resume,
  complete, completions, on_stop, start, connect,
}

-- Something that happens to a task: the awaited sender completes, or a stop is requested, which the
-- awaited sender answers later if at all.
pub data Event (V X : Type 0) : Type 0 where
  completes : Completion V X → Event V X
  stop_requested : Event V X

module _ {B V R X : Type 0} (body : B → Resumed V X → B × Did R X) where
  -- No sender completes where none is awaited, and a callback that was taken off is not called.
  unfoldable pub happen : List (Event V X) → Task B R X → Outcome (Task B R X) Unit
  unfolding complete on_stop
  happen [] t = returns tt t
  happen (completes c ∷ es) t =
      and_then (if t.awaiting then complete body c t else returns tt t) (λ _ s. happen es s)
  happen (stop_requested ∷ es) t =
      and_then (if t.callback then on_stop body [] t else returns tt t) (λ _ s. happen es s)

  -- The code handles every exception.
  abbrev pub Handles : Type 0
  Handles = (b : B) (r : Resumed V X) (x : X) → (body b r).1 ≢ throws x

  -- Awaiting, the receiver was told nothing; at the end, one thing, which is no error.
  abbrev pub Settles : Task B R X → Type 0
  Settles t =
      ((t.awaiting ≡ true) × (t.told ≡ []) × (t.stop_state ≡ running))
      ⊎ ((t.awaiting ≡ false)
          × (((r : Option R) × (t.told ≡ set_value r ∷ [])) ⊎ (t.told ≡ set_stopped ∷ [])))

  abbrev Ends : Outcome (Task B R X) Unit → Type 0
  Ends o = (t : Task B R X) × (o ≡ returns tt t) × Settles t

  returned-Ends :
      (k : Result R) (r : R) (t : Task B R X)
      → t.told ≡ []
      → t.awaiting ≡ false
      → Ends (complete_set_value (return_with r k) t)
  unfolding complete_set_value
  returned-Ends no_result r t none_told over = (
    tell (set_value none) t,
    refl,
    inr (over, inl (none, ap (λ l. set_value none ∷ l) none_told)),
  )
  returned-Ends (task_result _) r t none_told over = (
    tell (set_value (some r)) t,
    refl,
    inr (over, inl (some r, ap (λ l. set_value (some r) ∷ l) none_told)),
  )

  went_on-Ends :
      (b : B) (d : Did R X) (t : Task B R X)
      → t.told ≡ []
      → t.stop_state ≡ running
      → ((x : X) → d ≢ throws x)
      → Ends (went_on b d t)
  unfolding went_on
  went_on-Ends b awaits t none_told runs handled =
      (record t { body = b; awaiting = true }, refl, inl (refl, none_told, runs))
  went_on-Ends b (finishes r) t none_told runs handled =
      returned-Ends t.kept r (record t { body = b; awaiting = false; kept = return_with r t.kept })
        none_told refl
  went_on-Ends b (throws x) t none_told runs handled = absurd (handled x refl)

  complete-Ends :
      (c : Completion V X) (t : Task B R X)
      → Handles
      → t.told ≡ []
      → t.stop_state ≡ running
      → Ends (complete body c t)
  unfolding complete resume awaiter_stop
  complete-Ends (value v) t handled none_told runs =
      went_on-Ends (body t.body (result v)).0 (body t.body (result v)).1 t none_told runs
        (handled t.body (result v))
  complete-Ends (error x) t handled none_told runs =
      went_on-Ends (body t.body (rethrown x)).0 (body t.body (rethrown x)).1 t none_told runs
        (handled t.body (rethrown x))
  complete-Ends stopped_early t handled none_told runs =
      let ended = record t { stop_state = stopped; awaiting = false } in
      (
        tell set_stopped ended,
        ap (λ w. if is_running w then returns tt (tell set_stopped ended) else returns tt ended)
            runs,
        inr (refl, inr (ap (λ l. set_stopped ∷ l) none_told)),
      )

  after_stop :
      (t : Task B R X)
      → Settles t
      → Settles (record t { callback = false; stop_state = running; stop_requested = true })
  after_stop t (inl (waits_for, none_told, runs)) = inl (waits_for, none_told, refl)
  after_stop t (inr h) = inr h

  happen-Ends : (es : List (Event V X)) (t : Task B R X) → Handles → Settles t → Ends (happen es t)
  unfolding happen on_stop completions
  happen-Ends [] t handled h = (t, refl, h)
  happen-Ends (completes c ∷ es) t handled (inl (waits_for, none_told, runs)) =
      let (s, e, h) = complete-Ends c t handled none_told runs in
      let (u, e', h') = happen-Ends es s handled h in
      (
        u,
        ap (λ w. and_then (if w then complete body c t else returns tt t) (λ _ s. happen es s))
              waits_for
            ∙ ap (λ o. and_then o (λ _ s. happen es s)) e
            ∙ e',
        h',
      )
  happen-Ends (completes c ∷ es) t handled (inr (over, told)) =
      let (u, e, h) = happen-Ends es t handled (inr (over, told)) in
      (
        u,
        ap (λ w. and_then (if w then complete body c t else returns tt t) (λ _ s. happen es s)) over
            ∙ e,
        h,
      )
  happen-Ends (stop_requested ∷ es) t handled h = elim (Bool-cases t.callback) [
    | inl there ↦
        let s = record t { callback = false; stop_state = running; stop_requested = true } in
        let (u, e, h') = happen-Ends es s handled (after_stop t h) in
        (
          u,
          ap (λ w. and_then (if w then on_stop body [] t else returns tt t) (λ _ s. happen es s))
                there
              ∙ e,
          h',
        )
    | inr gone ↦
        let (u, e, h') = happen-Ends es t handled h in
        (
          u,
          ap (λ w. and_then (if w then on_stop body [] t else returns tt t) (λ _ s. happen es s))
                gone
              ∙ e,
          h',
        )
  ]

  -- Where the code of the coroutine handles every exception, then however the senders that it awaits
  -- complete and whenever a stop is requested, before the start or answered after the request, the
  -- task has no undefined behaviour, and its receiver was told nothing while a sender is awaited, and
  -- exactly one thing when none is: a value or that it was stopped.
  pub start-Settles :
      (already : Bool) (b : B) (k : Result R) (es : List (Event V X))
      → Handles
      → (t : Task B R X) × (and_then (start body already (connect b k)) (λ _ s. happen es s)
          ≡ returns tt t)
        × Settles t
  unfolding start resume
  start-Settles already b k es handled =
      let t0 = record (connect b k) { callback = true; stop_requested = already } in
      let (s, e, h) =
        went_on-Ends (body b started).0 (body b started).1 t0 refl refl (handled b started) in
      let (u, e', h') = happen-Ends es s handled h in
      (u, ap (λ o. and_then o (λ _ s. happen es s)) e ∙ e', h')

  state_or : Task B R X → Outcome (Task B R X) Unit → Task B R X
  state_or t (returns _ s) = s
  state_or t _ = t

  and_then-completions :
      (o : Outcome (Task B R X) Unit) (cs ds : List (Completion V X)) {s : Task B R X}
      → ((t : Task B R X)
          → completions body cs t ≡ returns tt s
          → completions body (cs ++ ds) t ≡ completions body ds s)
      → and_then o (λ _ t. completions body cs t) ≡ returns tt s
      → and_then o (λ _ t. completions body (cs ++ ds) t) ≡ completions body ds s
  and_then-completions (returns _ t) cs ds more e = more t e
  and_then-completions waits cs ds more e = absurd cc
  and_then-completions undefined cs ds more e = absurd cc
  and_then-completions terminated cs ds more e = absurd cc

  completions-append :
      (cs ds : List (Completion V X)) (t : Task B R X) {s : Task B R X}
      → completions body cs t ≡ returns tt s
      → completions body (cs ++ ds) t ≡ completions body ds s
  unfolding completions state_or
  completions-append [] ds t e = ap (λ o. completions body ds (state_or t o)) e
  completions-append (c ∷ cs) ds t e =
      and_then-completions (complete body c t) cs ds (λ u h. completions-append cs ds u h) e

  and_then_returns : (o : Outcome (Task B R X) Unit) → and_then o (λ _ t. returns tt t) ≡ o
  and_then_returns (returns tt t) = refl
  and_then_returns waits = refl
  and_then_returns undefined = refl
  and_then_returns terminated = refl

  ending : Outcome (Task B R X) Unit → Outcome (Task B R X) Unit
  ending o = and_then o (λ _ u.
      if is_stopped u.stop_state then undefined else returns tt (record u { stop_state = running }))

  ending-stop :
      (first : Bool) (s : Task B R X)
      → ending (
          if first
          then returns tt (tell set_stopped (record s { stop_state = stopped; awaiting = false }))
          else returns tt (record s { stop_state = stopped; awaiting = false }))
        ≡ undefined
  unfolding ending
  ending-stop true s = refl
  ending-stop false s = refl

  ending-completions :
      (s : Task B R X) → ending (completions body (stopped_early ∷ []) s) ≡ undefined
  unfolding completions complete awaiter_stop
  ending-completions s =
      ap ending (and_then_returns (awaiter_stop s)) ∙ ending-stop (is_running s.stop_state) s

  -- A stop request that the awaited sender answers by completing as stopped before the request is
  -- back, whatever completed before that, is undefined behaviour: the callback was destroyed, and
  -- its member is read.
  pub on_stop-stopped :
      (cs : List (Completion V X)) (t : Task B R X) {s : Task B R X}
      → completions body cs
          (record t { callback = false; stop_state = stopping; stop_requested = true })
        ≡ returns tt s
      → on_stop body (cs ++ stopped_early ∷ []) t ≡ undefined
  unfolding on_stop ending
  on_stop-stopped cs t {s} e =
      let asked = record t { callback = false; stop_state = stopping; stop_requested = true } in
      ap ending (completions-append cs (stopped_early ∷ []) asked e) ∙ ending-completions s
