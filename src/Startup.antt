-- ===== src/Startup.antt =====
-- titus_isolate/utils.py: what the managers share, the name of the cell, and the scheduling loop.
pub mod Scheduling
mod Tests
use titus_isolate.Prelude.{
  String, Bool, true, false, ◌&&◌, not, Option, none, some, ◌==◌, string_eq, if◌then◌else◌, Dict,
  lookup, Result, ok, raise, ◌>>=◌, ℕ, ◌≡◌, refl,
}

-- The global variables, each under a lock of its own.
module _ (Config WorkloadManager EventManager EventLog Monitor Predictor Pods : Type 0) where
  pub record Globals : Type 0 where
    pub config_manager : Option Config
    pub workload_manager : Option WorkloadManager
    pub event_manager : Option EventManager
    pub event_log_manager : Option EventLog
    pub workload_monitor_manager : Option Monitor
    pub cpu_usage_predictor_manager : Option Predictor
    pub pod_manager : Option Pods

  -- `get_config_manager()` makes a config manager where none is set.
  unfoldable pub get_config_manager : Config → Globals → Config × Globals
  get_config_manager fresh g = elim g.config_manager [
    | none ↦ (fresh, record g { config_manager = some fresh })
    | some c ↦ (c, g)
  ]

  unfoldable pub set_config_manager : Option Config → Globals → Globals
  set_config_manager c g = record g { config_manager = c }

  unfoldable pub get_workload_manager : Globals → Option WorkloadManager
  get_workload_manager g = g.workload_manager

  unfoldable pub set_workload_manager : Option WorkloadManager → Globals → Globals
  set_workload_manager m g = record g { workload_manager = m }

  unfoldable pub get_event_manager : Globals → Option EventManager
  get_event_manager g = g.event_manager

  unfoldable pub set_event_manager : Option EventManager → Globals → Globals
  set_event_manager m g = record g { event_manager = m }

  unfoldable pub get_event_log_manager : Globals → Option EventLog
  get_event_log_manager g = g.event_log_manager

  unfoldable pub set_event_log_manager : Option EventLog → Globals → Globals
  set_event_log_manager m g = record g { event_log_manager = m }

  unfoldable pub get_workload_monitor_manager : Globals → Option Monitor
  get_workload_monitor_manager g = g.workload_monitor_manager

  unfoldable pub set_workload_monitor_manager : Option Monitor → Globals → Globals
  set_workload_monitor_manager m g = record g { workload_monitor_manager = m }

  unfoldable pub get_cpu_usage_predictor_manager : Globals → Option Predictor
  get_cpu_usage_predictor_manager g = g.cpu_usage_predictor_manager

  unfoldable pub set_cpu_usage_predictor_manager : Option Predictor → Globals → Globals
  set_cpu_usage_predictor_manager m g = record g { cpu_usage_predictor_manager = m }

  unfoldable pub get_pod_manager : Globals → Option Pods
  get_pod_manager g = g.pod_manager

  unfoldable pub set_pod_manager : Option Pods → Globals → Globals
  set_pod_manager m g = record g { pod_manager = m }

abbrev pub unknown_cell : String
unknown_cell = "unknown_cell"

-- `get_http_cell_name(config_manager)`, for the configured URL, the timeout that is read from the
-- configuration, and the headers that the request answers with.
unfoldable pub get_http_cell_name {ℓ} :
    {Timeout : Type ℓ}
    → Option String
    → Result Timeout
    → (String → Timeout → Result (Dict String String))
    → Result String
get_http_cell_name none timeout get = ok unknown_cell
get_http_cell_name (some url) timeout get = timeout >>= λ t. get url t >>= λ headers.
    ok (elim (lookup "X-Titus-Isolate-Cell" headers) [ none ↦ unknown_cell | some cell ↦ cell ])

-- `get_grpc_cell_name(config_manager)`, for the endpoint and the cell id that the service answers with.
unfoldable pub get_grpc_cell_name : Option String → (String → Result String) → Result String
get_grpc_cell_name none get_current_cell = ok unknown_cell
get_grpc_cell_name (some endpoint) get_current_cell =
    get_current_cell endpoint >>= λ cell_id. ok (if cell_id == "" then unknown_cell else cell_id)

abbrev or_unknown : Result String → String
or_unknown (ok cell_name) = cell_name
or_unknown (raise e) = unknown_cell

-- `get_cell_name()`, where the construction of the primary allocator answers whether it is the one over
-- grpc, or raises.
unfoldable pub get_cell_name {ℓ} :
    {Timeout : Type ℓ}
    → Result Bool
    → Option String
    → Result Timeout
    → (String → Timeout → Result (Dict String String))
    → Option String
    → (String → Result String)
    → Result String
unfolding get_http_cell_name get_grpc_cell_name
get_cell_name is_grpc url timeout get endpoint get_current_cell = is_grpc >>= λ grpc. ok (
    or_unknown (
      if grpc
      then get_grpc_cell_name endpoint get_current_cell
      else get_http_cell_name url timeout get))

abbrev is_set : Option String → Bool
is_set none = false
is_set (some v) = true

-- `is_running_on_agent()`
unfoldable pub is_running_on_agent : (String → Option String) → Bool
is_running_on_agent environ =
    is_set (environ "NOTIFY_SOCKET") && not (is_set (environ "TITUS_TASK_ID"))
