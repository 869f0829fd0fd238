-- ===== src/Api.antt =====
-- titus_isolate/api/status.py: the answer to `/isolate/<workload_id>`, and the status. Callers are serialized by
-- a lock, so a call is one step; the times of a call are arguments.
pub mod Latency
mod Tests
use titus_isolate.Prelude.{
  ℕ, String, Bool, true, false, List, [], ◌∷◌, ◌++◌, Option, none, some, string_eq, Dict, lookup,
  insert, erase, keys, contains, if◌then◌else◌, length,
}
use titus_isolate.Manager.{Parts, WorkloadManager}

-- The object that is dumped has one key, which tells whether the id is known.
pub record Answer : Type 0 where
  pub is_unknown : Bool
  pub workload_id : String
  pub code : ℕ

pub record Latencies : Type 0 where
  pub isolate_latency : Dict String ℕ
  -- The start and the stop of each duration that is recorded.
  pub recorded : List (ℕ × ℕ)

abbrev pub from_start : Option ℕ → ℕ → ℕ
from_start none start_time = start_time
from_start (some t) start_time = t

-- `isolate_workload(workload_id)`
unfoldable pub isolate_workload :
    (acquired is_isolated has_metrics_manager : Bool)
    → (start_time stop_time : ℕ) → String
    → Latencies
    → Answer × Latencies
isolate_workload false is_isolated has_metrics start_time stop_time workload_id s =
    (record { is_unknown = false; workload_id = workload_id; code = 404 }, s)
isolate_workload true true false start_time stop_time workload_id s =
    (record { is_unknown = false; workload_id = workload_id; code = 200 }, s)
isolate_workload true true true start_time stop_time workload_id s = (
  record { is_unknown = false; workload_id = workload_id; code = 200 },
  record {
    isolate_latency = erase workload_id s.isolate_latency;
    recorded =
        s.recorded
        ++ (from_start (lookup workload_id s.isolate_latency) start_time, stop_time) ∷ [];
  },
)
isolate_workload true false has_metrics start_time stop_time workload_id s = (
  record { is_unknown = true; workload_id = workload_id; code = 404 },
  if contains (keys s.isolate_latency) workload_id
      then s
      else record s { isolate_latency = insert workload_id stop_time s.isolate_latency },
)

-- `get_wm_status()`
pub record Status : Type 0 where
  pub cpu_allocator : String
  pub workload_count : ℕ
  pub isolated_workload_count : ℕ

unfoldable pub get_wm_status : (parts : Parts) → String → WorkloadManager parts → Status
get_wm_status parts allocator_name m = record {
  cpu_allocator = allocator_name;
  workload_count = length m.workloads;
  isolated_workload_count = length (parts.cgroups.get_isolated_workload_ids m.cgroup);
}
