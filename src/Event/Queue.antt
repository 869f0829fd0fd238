-- ===== src/Event/Queue.antt =====
-- titus_isolate/event/event_manager.py: the queue and one round of `__process_events`. `arrived` are the
-- events that are put while the first one of a batch is taken. Waiting, the scheduler and metrics are
-- left out; a handler works on a state that all of them share.
use titus_isolate.Prelude.{
  ℕ, zero, suc, ◌+◌, String, Bool, List, [], ◌∷◌, ◌++◌, map, Option, none, some, if◌then◌else◌, ltb,
  ◌==◌, length, keep_if, string_eq, Result, ok, raise, ◌>>=◌,
}
use titus_isolate.Event.{Event, is_container, is_internal, should_handle}

-- `__put_event(event)` on the queue; an exception ends the thread that pulls events.
unfoldable pub put_event : Event → List Event → Result (List Event)
unfolding should_handle
put_event e q = do handled ← should_handle e; ok (if handled then q ++ e ∷ [] else q)

-- `__dequeue_event()`
unfoldable pub dequeue_event : List Event → Option Event × List Event
dequeue_event [] = (none, [])
dequeue_event (e ∷ q) = (some e, q)

-- The loop over `self.__q.qsize()` of `__get_batch`.
unfoldable pub dequeue_more : ℕ → List Event → List Event × List Event
unfolding dequeue_event
dequeue_more zero q = ([], q)
dequeue_more (suc n) [] = ([], [])
dequeue_more (suc n) (e ∷ q) = let (events, rest) = dequeue_more n q in (e ∷ events, rest)

-- `__get_batch()`
unfoldable pub get_batch : (q arrived : List Event) → List Event × List Event
unfolding dequeue_event dequeue_more
get_batch q arrived =
    let (first, rest) = dequeue_event q in
    elim first [
      | none ↦ ([], rest ++ arrived)
      | some e ↦
          let (events, left) = dequeue_more (length (rest ++ arrived)) (rest ++ arrived) in
          (e ∷ events, left)
    ]

-- What a handler is given: the batch of container events, or an internal event.
pub data Task : Type 0 where
  container_batch : (starts dies : List Event) → Task
  internal : Event → Task

abbrev pub has_action : String → Event → Bool
has_action action e = e.action == action

-- `__get_container_batch_event(container_events)`
unfoldable pub get_container_batch_event : List Event → Task
get_container_batch_event events =
    container_batch (keep_if (has_action "start") events) (keep_if (has_action "die") events)

-- The events of a batch that are handled, in order.
unfoldable pub get_tasks : List Event → List Task
unfolding get_container_batch_event
get_tasks batch =
    let container_events = keep_if is_container batch in
    let internal_events = map internal (keep_if is_internal batch) in
    if ltb 0 (length container_events)
    then get_container_batch_event container_events ∷ internal_events
    else internal_events

abbrev pub Handler : Type 0 → Type 0
Handler State = Task → State → Result (Unit {0}) × State

pub record Outcomes : Type 0 where
  pub succeeded : ℕ
  pub failed : ℕ

module _ {State : Type 0} where
  -- The loop over the handlers, each in its own `try`.
  unfoldable pub handle_all : List (Handler State) → Task → Outcomes × State → Outcomes × State
  handle_all [] task (o, s) = (o, s)
  handle_all (handler ∷ handlers) task (o, s) =
      let (result, after) = handler task s in
      handle_all handlers task (elim result [
        | ok _ ↦ (record o { succeeded = suc o.succeeded }, after)
        | raise _ ↦ (record o { failed = suc o.failed }, after)
      ])

  unfoldable pub process_tasks :
      List (Handler State) → List Task → Outcomes × State → Outcomes × State
  unfolding handle_all
  process_tasks handlers [] os = os
  process_tasks handlers (task ∷ tasks) os =
      process_tasks handlers tasks (handle_all handlers task os)

  -- A round of `__process_events` for a batch that is not empty, with the count of processed events.
  unfoldable pub process_batch :
      List (Handler State) → List Event → ℕ → Outcomes × State → ℕ × Outcomes × State
  unfolding process_tasks get_tasks
  process_batch handlers batch processed_count os =
      let done = process_tasks handlers (get_tasks batch) os in
      (
        processed_count
            + (length (keep_if is_internal batch) + length (keep_if is_container batch)),
        done.0,
        done.1,
      )
