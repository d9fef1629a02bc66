-- ===== src/IntoExpected/Awaited.antt =====
-- A coroutine of demo_task.hpp that awaits its senders through `into_expected` runs as one
-- that catches the errors of its senders.
use net.Prelude.{◌≡◌, ◌≢◌, refl, ap, ◌∙◌, Bool, List, [], ◌∷◌, if◌then◌else◌}
use net.Prelude.Outcome.{Outcome, returns, waits, undefined, terminated, and_then}
use net.Task.{
  Result, Resumed, started, result, rethrown, Did, throws, Task, Completion, value, error,
  stopped_early, resume, complete, on_stop, completions, start, connect,
}
use net.Task.Once.{Event, completes, stop_requested, happen, Handles, Settles, start-Settles}
use net.IntoExpected.{Expected, index_0, index_1, adapt}

module _ {V E : Type 0} where
  -- What happens to a task, each completion through the adaptor.
  abbrev pub adapt_all : List (Event V E) → List (Event (Expected V E) E)
  adapt_all [] = []
  adapt_all (completes c ∷ es) = completes (adapt c) ∷ adapt_all es
  adapt_all (stop_requested ∷ es) = stop_requested ∷ adapt_all es

module _ {B V E R : Type 0} (body : B → Resumed (Expected V E) E → B × Did R E) where
  -- Code that awaits the senders themselves, catches each exception of one, and goes on with it as
  -- with an error that it was given.
  unfoldable pub catching : B → Resumed V E → B × Did R E
  catching b started = body b started
  catching b (result v) = body b (result (index_0 v))
  catching b (rethrown e) = body b (result (index_1 e))

  adapt-catching :
      (c : Completion V E) (t : Task B R E) → complete body (adapt c) t ≡ complete catching c t
  unfolding complete resume adapt catching
  adapt-catching (value v) t = refl
  adapt-catching (error e) t = refl
  adapt-catching stopped_early t = refl

  and_then-eq :
      (o : Outcome (Task B R E) Unit) {f g : Unit → Task B R E → Outcome (Task B R E) Unit}
      → ((u : Unit) (t : Task B R E) → f u t ≡ g u t)
      → and_then o f ≡ and_then o g
  and_then-eq (returns u t) h = h u t
  and_then-eq waits h = refl
  and_then-eq undefined h = refl
  and_then-eq terminated h = refl

  happen-catching :
      (es : List (Event V E)) (t : Task B R E) → happen body (adapt_all es) t ≡ happen catching es t
  unfolding happen on_stop completions
  happen-catching [] t = refl
  happen-catching (completes c ∷ es) t =
      ap
        (λ o.
          and_then (if t.awaiting then o else returns tt t) (λ _ s. happen body (adapt_all es) s))
        (adapt-catching c t)
      ∙ and_then-eq (if t.awaiting then complete catching c t else returns tt t)
          (λ _ s. happen-catching es s)
  happen-catching (stop_requested ∷ es) t =
      and_then-eq (if t.callback then on_stop body [] t else returns tt t)
        (λ _ s. happen-catching es s)

  adapt_all-catching :
      (already : Bool) (b : B) (k : Result R) (es : List (Event V E))
      → and_then (start body already (connect b k)) (λ _ s. happen body (adapt_all es) s)
        ≡ and_then (start catching already (connect b k)) (λ _ s. happen catching es s)
  unfolding start resume catching
  adapt_all-catching already b k es =
      and_then-eq (start body already (connect b k)) (λ _ s. happen-catching es s)

  -- The code lets no exception of its own out. It need not handle one of a sender.
  unfoldable pub ThrowsNothing : Type 0
  ThrowsNothing =
      ((b : B) (x : E) → (body b started).1 ≢ throws x)
      × ((b : B) (v : Expected V E) (x : E) → (body b (result v)).1 ≢ throws x)

  catching-Handles : ThrowsNothing → Handles catching
  unfolding ThrowsNothing catching
  catching-Handles (own, after) b started x = own b x
  catching-Handles (own, after) b (result v) x = after b (index_0 v) x
  catching-Handles (own, after) b (rethrown y) x = after b (index_1 y) x

  -- A task whose code awaits its senders through `into_expected` and lets no exception of its own
  -- out, though it may let every exception of a sender out, has no undefined behaviour, and its
  -- receiver was told nothing while a sender is awaited, and when none is exactly one thing, which
  -- is no error. This holds however the senders complete, errors included, and whenever a stop is
  -- requested, before the start or answered after the request.
  pub adapt_all-Settles :
      (already : Bool) (b : B) (k : Result R) (es : List (Event V E))
      → ThrowsNothing
      → (t : Task B R E) × (and_then
            (start body already (connect b k))
            (λ _ s. happen body (adapt_all es) s)
          ≡ returns tt t)
        × Settles body t
  adapt_all-Settles already b k es nothing =
      let (t, e, h) = start-Settles catching already b k es (catching-Handles nothing) in
      (t, adapt_all-catching already b k es ∙ e, h)
