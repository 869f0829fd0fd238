-- ===== src/Event/Tests.antt =====
-- Two container events and a rebalance.
use titus_isolate.Prelude.{
  ℕ, ◌≡◌, refl, String, List, [], ◌∷◌, none, some, sum_by, concat_map, string_eq,
}
use titus_isolate.Event.{Event}
use titus_isolate.Event.Queue.{get_tasks}
use titus_isolate.Event.Batches.{events_of, get_tasks-events}

abbrev started : String → Event
started name = record {
  action = "start";
  attributes = some (("name", name) ∷ ("titus.task_id", name) ∷ []);
}

abbrev died : String → Event
died name = record {
  action = "die";
  attributes = some (("name", name) ∷ ("titus.task_id", name) ∷ []);
}

abbrev rebalance : Event
rebalance = record { action = "rebalance"; attributes = none }

abbrev batch : List Event
batch = rebalance ∷ started "a" ∷ died "b" ∷ []

abbrev has_attributes : Event → ℕ
has_attributes e = elim e.attributes [ none ↦ 0 | some _ ↦ 1 ]

get_tasks-events_example :
    sum_by has_attributes (concat_map events_of (get_tasks batch)) ≡ sum_by has_attributes batch
get_tasks-events_example = get_tasks-events has_attributes batch (refl, (refl, (refl, tt)))
