-- ===== src/Pod/PodManager.antt =====
-- titus_isolate/pod/pod_manager.py. The watch of the Kubernetes client is the list of its events; an event
-- is a dict, in which a key may be missing.
use titus_isolate.Prelude.{
  String, List, [], ◌∷◌, Option, none, some, ◌==◌, ◌||◌, string_eq, if◌then◌else◌, Dict, values,
  lookup, insert, erase, Result, ok, raise, key_error, ◌>>=◌,
}
use titus_isolate.Pod.{V1Pod}

pub record Event : Type 0 where
  pub type_of : Option String
  pub object_of : Option V1Pod

abbrev pub PodCache : Type 0
PodCache = Dict String V1Pod

-- `get_pod_object(event)`
abbrev pub get_pod_object : Event → Result V1Pod
get_pod_object event = elim event.object_of [ none ↦ raise key_error | some pod ↦ ok pod ]

abbrev pub get_pod_name : Event → Result String
get_pod_name event = get_pod_object event >>= λ pod. ok pod.name

unfoldable pub get_pod : PodCache → String → Option V1Pod
get_pod cache pod_name = lookup pod_name cache

unfoldable pub get_pods : PodCache → List V1Pod
get_pods cache = values cache

unfoldable pub store_pod : Event → PodCache → Result PodCache
store_pod event cache =
    get_pod_name event >>= λ name. get_pod_object event >>= λ pod. ok (insert name pod cache)

unfoldable pub delete_pod : Event → PodCache → Result PodCache
delete_pod event cache = get_pod_name event >>= λ pod_name. ok (erase pod_name cache)

-- `__handle_event(event)`: an event without a type, or of an unsupported one, is logged.
unfoldable pub handle_event : Event → PodCache → Result PodCache
unfolding store_pod delete_pod
handle_event event cache = elim event.type_of [
  | none ↦ ok cache
  | some event_type ↦
      if event_type == "ADDED" || event_type == "MODIFIED"
      then store_pod event cache
      else if event_type == "DELETED"
      then delete_pod event cache
      else ok cache
]

-- The events of one watch, up to one that raises; then the watch starts again.
unfoldable pub watch_once : List Event → PodCache → PodCache
unfolding handle_event
watch_once [] cache = cache
watch_once (event ∷ events) cache = elim (handle_event event cache) [
  | raise e ↦ cache
  | ok after ↦ watch_once events after
]

-- `__watch()`: one watch after the other.
unfoldable pub watch : List (List Event) → PodCache → PodCache
unfolding watch_once
watch [] cache = cache
watch (stream ∷ streams) cache = watch streams (watch_once stream cache)
