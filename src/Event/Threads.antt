-- ===== src/Event/Threads.antt =====
-- titus_isolate/event/event_manager.py: the two threads of an event manager, cut into the steps between which
-- the other thread, the scheduler and the manager's callers run. The events of docker are a list of
-- what is to come, with none for a text that is no JSON; the waits are left out.
pub mod Batched
pub mod Kept
pub mod Processed
pub mod Ending
mod Tests
use titus_isolate.Prelude.{
  ℕ, ◌+◌, ◌≡◌, String, Bool, true, false, List, [], ◌∷◌, ◌++◌, Option, none, some, if◌then◌else◌,
  length, Result, ok, raise,
}
use titus_isolate.Event.{Event, should_handle}
use titus_isolate.Event.Queue.{
  put_event, dequeue_event, dequeue_more, Handler, Outcomes, process_batch,
}

-- Where the processing thread stands: at the test of its loop, at the queue, with the first event of a
-- batch in hand, or with a batch.
pub data Processing : Type 0 where
  not_started checking getting ended : Processing
  holding : Event → Processing
  handling : List Event → Processing

pub record EventManager (State : Type 0) : Type 0 where
  pub started : Bool
  pub stopped : Bool
  pub registry : Bool
  pub q : List Event
  pub incoming : List (Option Event)
  pub pulling : Bool
  pub processing : Processing
  pub processed_count : ℕ
  pub outcomes : Outcomes
  pub shared : State

-- What a call of `__put_event` puts into the queue.
abbrev pub accepted_if : Event → Result Bool → List Event
accepted_if e (raise _) = []
accepted_if e (ok handled) = if handled then e ∷ [] else []

abbrev pub accepted : Event → List Event
accepted e = accepted_if e (should_handle e)

abbrev pub accepted_next : List (Option Event) → List Event
accepted_next [] = []
accepted_next (none ∷ incoming) = []
accepted_next (some e ∷ incoming) = accepted e

module _ {State : Type 0} where
  unfoldable pub new_event_manager : List (Option Event) → State → EventManager State
  new_event_manager incoming shared = record {
    started = false;
    stopped = false;
    registry = false;
    q = [];
    incoming = incoming;
    pulling = false;
    processing = not_started;
    processed_count = 0;
    outcomes = record { succeeded = 0; failed = 0 };
    shared = shared;
  }

  unfoldable pub set_registry : EventManager State → EventManager State
  set_registry m = record m { registry = true }

  unfoldable pub start_processing_events : EventManager State → EventManager State
  start_processing_events m =
      if m.started then m else record m { processing = checking; pulling = true; started = true }

  -- `stop_processing_events()` up to the wait for the threads; a closed stream gives nothing more.
  unfoldable pub stop_processing_events : EventManager State → EventManager State
  stop_processing_events m = record m { stopped = true; incoming = [] }

  -- `__put_event(event)`, and what an exception in it leaves.
  abbrev pub put :
      Result (List Event) → EventManager State → EventManager State → EventManager State
  put (raise _) failed m = failed
  put (ok q) failed m = record m { q = q }

  -- `__put_event(event)` in the thread of the scheduler
  unfoldable pub tick : Event → EventManager State → EventManager State
  tick e m = put (put_event e m.q) m m

  -- The loop of `__pull_events`: an exception ends the thread.
  unfoldable pub pull_next : List (Option Event) → EventManager State → EventManager State
  pull_next [] m = record m { pulling = false }
  pull_next (none ∷ incoming) m = record m { pulling = false; incoming = incoming }
  pull_next (some e ∷ incoming) m =
      let left = record m { incoming = incoming } in
      put (put_event e m.q) (record left { pulling = false }) left

  unfoldable pub pull : EventManager State → EventManager State
  unfolding pull_next
  pull m = if m.pulling then pull_next m.incoming m else m

  module _ (handlers : List (Handler State)) where
    -- A step of `__process_events`. Without a registry the count of processed events raises
    -- AttributeError, which ends the thread.
    unfoldable pub process_from : Processing → EventManager State → EventManager State
    unfolding dequeue_event dequeue_more process_batch
    process_from not_started m = m
    process_from checking m =
        if m.stopped then record m { processing = ended } else record m { processing = getting }
    process_from getting m =
        let (first, q) = dequeue_event m.q in
        elim first [
          | none ↦ record m { processing = checking }
          | some e ↦ record m { processing = holding e; q = q }
        ]
    process_from (holding e) m =
        let (events, q) = dequeue_more (length m.q) m.q in
        record m { processing = handling (e ∷ events); q = q }
    process_from (handling batch) m =
        let (processed_count, outcomes, shared) =
          process_batch handlers batch m.processed_count (m.outcomes, m.shared) in
        if m.registry
        then record m {
          processing = checking;
          processed_count = processed_count;
          outcomes = outcomes;
          shared = shared;
        }
        else record m { processing = ended; outcomes = outcomes; shared = shared }
    process_from ended m = m

    unfoldable pub process : EventManager State → EventManager State
    unfolding process_from
    process m = process_from m.processing m

  -- What can happen, with the events that it puts into the queue.
  pub data Step (handlers : List (Handler State))
      : List Event → EventManager State → EventManager State → Type 0 where
    registry_step : (m : EventManager State) → Step handlers [] m (set_registry m)
    start_step : (m : EventManager State) → Step handlers [] m (start_processing_events m)
    stop_step : (m : EventManager State) → Step handlers [] m (stop_processing_events m)
    tick_step : (e : Event) (m : EventManager State) → Step handlers (accepted e) m (tick e m)
    pull_step :
        (m : EventManager State)
        → Step handlers (if m.pulling then accepted_next m.incoming else []) m (pull m)
    process_step : (m : EventManager State) → Step handlers [] m (process handlers m)

  -- A run, with all events that were put into the queue, in order.
  pub data Run (handlers : List (Handler State)) (from : EventManager State)
      : List Event → EventManager State → Type 0 where
    begin : Run handlers from [] from
    next :
        {before es after : List Event} {m n : EventManager State}
        → Run handlers from before m
        → Step handlers es m n
        → after ≡ before ++ es
        → Run handlers from after n
