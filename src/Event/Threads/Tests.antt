-- ===== src/Event/Threads/Tests.antt =====
-- A container starts while the scheduler asks for a rebalance, and the manager is stopped.
use titus_isolate.Prelude.{ℕ, suc, ◌≡◌, refl, List, [], ◌∷◌, ◌++◌, some, none, length, ok, arith}
use titus_isolate.Event.{Event, should_handle, get_attribute}
use titus_isolate.Event.Queue.{Handler, put_event}
use titus_isolate.Event.Threads.{
  ended, EventManager, new_event_manager, set_registry, start_processing_events,
  stop_processing_events, tick, pull, pull_next, process_from, process, Run, begin, next,
  start_step, tick_step, pull_step, process_step,
}
use titus_isolate.Event.Threads.Batched.{in_hand, all_of, process_all, progress}
use titus_isolate.Event.Threads.Processed.{Run-batches}
use titus_isolate.Event.Threads.Ending.{stop_processing_events-ended}

abbrev start_of_a : Event
start_of_a = record {
  action = "start";
  attributes = some (("name", "a") ∷ ("titus.task_id", "a") ∷ []);
}

abbrev rebalance : Event
rebalance = record { action = "rebalance"; attributes = none }

abbrev counted : List (Handler ℕ)
counted = (λ task n. (ok tt, suc n)) ∷ []

abbrev new : EventManager ℕ
new = set_registry (new_event_manager (some start_of_a ∷ none ∷ []) 0)

abbrev running : EventManager ℕ
running = start_processing_events new

abbrev pulled : EventManager ℕ
pulled = pull running

abbrev ticked : EventManager ℕ
ticked = tick rebalance pulled

abbrev at_queue : EventManager ℕ
at_queue = process counted ticked

abbrev took_one : EventManager ℕ
took_one = process counted at_queue

abbrev took_all : EventManager ℕ
took_all = process counted took_one

abbrev done : EventManager ℕ
done = process counted took_all

one_batch : Run counted new (start_of_a ∷ rebalance ∷ []) done
unfolding set_registry new_event_manager start_processing_events pull pull_next should_handle
    get_attribute
one_batch =
    next
      (next
        (next
          (next
            (next (next (next begin (start_step new) refl) (pull_step running) refl)
              (tick_step rebalance pulled) refl)
            (process_step ticked) refl)
          (process_step at_queue) refl)
        (process_step took_one) refl)
      (process_step took_all) refl

Run-batches_example :
    (batches : List (List Event)) × ((start_of_a ∷ rebalance ∷ [])
      ≡ all_of batches ++ (in_hand done.processing ++ done.q))
    × (process_all counted batches (0, record { succeeded = 0; failed = 0 }, 0)
        ≡ progress counted done)
    × (done.processed_count ≡ length (all_of batches))
Run-batches_example = Run-batches counted (some start_of_a ∷ none ∷ []) 0 one_batch

abbrev stop : EventManager ℕ
stop = stop_processing_events took_one

abbrev turn1 : EventManager ℕ
turn1 = process counted stop

abbrev turn2 : EventManager ℕ
turn2 = process counted turn1

abbrev turn3 : EventManager ℕ
turn3 = process counted turn2

abbrev turn4 : EventManager ℕ
turn4 = process counted turn3

stop_processing_events-ended_example : turn4.processing ≡ ended
unfolding set_registry new_event_manager start_processing_events pull pull_next should_handle
    get_attribute put_event tick process process_from
stop_processing_events-ended_example =
    stop_processing_events-ended counted took_one turn4 refl (λ e. cc)
      (next
        (next (next (next begin (process_step stop) refl) (process_step turn1) refl)
          (process_step turn2) refl)
        (process_step turn3) refl)
      (omega arith)
