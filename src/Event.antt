-- ===== src/Event.antt =====
-- titus_isolate/event: an event as docker or the scheduler sends it, with what utils.py reads of it. An
-- event of the scheduler has no actor, and reading an attribute of it raises KeyError.
pub mod Queue
pub mod Handlers
pub mod Batches
pub mod Adds
pub mod Others
pub mod Threads
mod Tests
use titus_isolate.Prelude.{
  String, Bool, true, false, List, [], ◌∷◌, ◌++◌, Option, none, some, not, if◌then◌else◌, ◌==◌,
  contains, string_eq, Dict, lookup, Result, ok, raise, key_error, ◌>>=◌,
}

pub record Event : Type 0 where
  pub action : String
  pub attributes : Option (Dict String String)

abbrev container_events : List String
container_events = "start" ∷ "die" ∷ []

abbrev internal_events : List String
internal_events = "rebalance" ∷ "reconcile" ∷ "predict_usage" ∷ []

abbrev pub handled_actions : List String
handled_actions = container_events ++ internal_events

abbrev pub is_container : Event → Bool
is_container e = contains container_events e.action

abbrev pub is_internal : Event → Bool
is_internal e = contains internal_events e.action

-- `__get_attribute(event, key)`
unfoldable pub get_attribute : String → Event → Result String
get_attribute key e = elim e.attributes [
  | none ↦ raise key_error
  | some attributes ↦ elim (lookup key attributes) [ none ↦ ok "" | some value ↦ ok value ]
]

unfoldable pub get_container_name : Event → Result String
unfolding get_attribute
get_container_name e = get_attribute "name" e

unfoldable pub get_task_id : Event → Result String
unfolding get_attribute
get_task_id e = get_attribute "titus.task_id" e

-- `__should_handle(event)`
unfoldable pub should_handle : Event → Result Bool
unfolding get_task_id
should_handle e =
    if not (contains handled_actions e.action)
    then ok false
    else if is_container e
    then get_task_id e >>= (λ task_id. ok (not (task_id == "")))
    else ok true
