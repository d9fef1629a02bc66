-- ===== src/Task.antt =====
-- examples/demo_task.hpp: the coroutine type `task`. The code of the coroutine is a parameter: what
-- it does when it is resumed, up to the next `co_await` or to its end. `Task` joins the state of the
-- operation and the promise. A completion of the awaited sender is an event.
pub mod Once
pub mod Fate
mod Examples
use net.Prelude.{Bool, true, false, Option, none, some, List, [], ◌∷◌, if◌then◌else◌}
use net.Prelude.Outcome.{Outcome, returns, undefined, and_then}

pub data StopState : Type 0 where
  running stopping stopped : StopState

abbrev pub is_running : StopState → Bool
is_running running = true
is_running _ = false

abbrev pub is_stopped : StopState → Bool
is_stopped stopped = true
is_stopped _ = false

-- The result of `task<void>`, and of a task with a result.
pub data Result (R : Type 0) : Type 0 where
  no_result : Result R
  task_result : Option R → Result R

-- What the receiver is told.
pub data Signal (R X : Type 0) : Type 0 where
  set_value : Option R → Signal R X
  set_error : X → Signal R X
  set_stopped : Signal R X

-- What `co_await` gives: nothing at the start, the result of the sender, or an exception.
pub data Resumed (V X : Type 0) : Type 0 where
  started : Resumed V X
  result : V → Resumed V X
  rethrown : X → Resumed V X

-- What the code of a coroutine does next: it awaits a sender, returns, or lets an exception out.
pub data Did (R X : Type 0) : Type 0 where
  awaits : Did R X
  finishes : R → Did R X
  throws : X → Did R X

pub record Task (B R X : Type 0) : Type 0 where
  pub body : B
  pub kept : Result R
  pub stop_state : StopState
  pub stop_requested : Bool
  pub callback : Bool
  pub awaiting : Bool
  pub told : List (Signal R X)

-- `return_value` or `return_void`.
abbrev pub return_with : {R : Type 0} → R → Result R → Result R
return_with r no_result = no_result
return_with r (task_result _) = task_result (some r)

module _ {B R X : Type 0} where
  abbrev pub tell : Signal R X → Task B R X → Task B R X
  tell s t = record t { told = s ∷ t.told }

  abbrev pub connect : B → Result R → Task B R X
  connect b kept = record {
    body = b;
    kept = kept;
    stop_state = running;
    stop_requested = false;
    callback = false;
    awaiting = false;
    told = [];
  }

  -- `complete_set_value`; a result that is not there is dereferenced.
  unfoldable pub complete_set_value : Result R → Task B R X → Outcome (Task B R X) Unit
  complete_set_value no_result t = returns tt (tell (set_value none) t)
  complete_set_value (task_result none) t = undefined
  complete_set_value (task_result (some x)) t = returns tt (tell (set_value (some x)) t)

  abbrev pub complete_value : Task B R X → Outcome (Task B R X) Unit
  complete_value t = complete_set_value t.kept t

  -- `final_suspend`, which both a return and an exception come to.
  unfoldable pub went_on : B → Did R X → Task B R X → Outcome (Task B R X) Unit
  unfolding complete_set_value
  went_on b awaits t = returns tt (record t { body = b; awaiting = true })
  went_on b (finishes r) t =
      complete_value (record t { body = b; awaiting = false; kept = return_with r t.kept })
  went_on b (throws x) t =
      complete_value (tell (set_error x) (record t { body = b; awaiting = false }))

  -- `sender_awaiter::stop`; the coroutine is not resumed.
  unfoldable pub awaiter_stop : Task B R X → Outcome (Task B R X) Unit
  awaiter_stop t =
      let ended = record t { stop_state = stopped; awaiting = false } in
      if is_running t.stop_state then returns tt (tell set_stopped ended) else returns tt ended

-- How the awaited sender completes.
pub data Completion (V X : Type 0) : Type 0 where
  value : V → Completion V X
  error : X → Completion V X
  stopped_early : Completion V X

module _ {B V R X : Type 0} (body : B → Resumed V X → B × Did R X) where
  -- `handle.resume()`.
  unfoldable pub resume : Resumed V X → Task B R X → Outcome (Task B R X) Unit
  unfolding went_on
  resume r t = let (b, did) = body t.body r in went_on b did t

  -- The receiver of the awaiter.
  unfoldable pub complete : Completion V X → Task B R X → Outcome (Task B R X) Unit
  unfolding resume awaiter_stop
  complete (value v) t = resume (result v) t
  complete (error x) t = resume (rethrown x) t
  complete stopped_early t = awaiter_stop t

  -- Completions, one after the other, of what is awaited.
  unfoldable pub completions : List (Completion V X) → Task B R X → Outcome (Task B R X) Unit
  unfolding complete
  completions [] t = returns tt t
  completions (c ∷ cs) t = and_then (complete c t) (λ _ s. completions cs s)

  -- The stop callback, with what completes before `request_stop` is back. The callback was destroyed
  -- by then, and its member is read where the task was stopped.
  unfoldable pub on_stop : List (Completion V X) → Task B R X → Outcome (Task B R X) Unit
  unfolding completions
  on_stop within t =
      and_then
        (completions within
          (record t { callback = false; stop_state = stopping; stop_requested = true }))
        (λ _ s.
          if is_stopped s.stop_state
          then undefined
          else returns tt (record s { stop_state = running }))

  -- `start`. Where a stop is requested already, the callback is called as it is made: it does not
  -- destroy itself, and nothing is awaited yet, so that it sets the state back to running.
  unfoldable pub start : Bool → Task B R X → Outcome (Task B R X) Unit
  unfolding resume
  start already t = resume started (record t { callback = true; stop_requested = already })
