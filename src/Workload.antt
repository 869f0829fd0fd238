-- ===== src/Workload.antt =====
-- titus_isolate/model/legacy_workload.py: what an allocator knows of a workload.
use titus_isolate.Prelude.{ℕ, String, Result, ok, raise, value_error, ℤ, pos, negsuc}

pub record Workload : Type 0 where
  pub task_id : String
  pub job_id : String
  pub thread_count : ℕ

-- `LegacyWorkload(task_id, job_id, thread_count)`
unfoldable pub new_workload : String → String → ℤ → Result Workload
new_workload task_id job_id (pos n) =
    ok (record { task_id = task_id; job_id = job_id; thread_count = n })
new_workload task_id job_id (negsuc n) = raise value_error
