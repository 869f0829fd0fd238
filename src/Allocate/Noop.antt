-- ===== src/Allocate/Noop.antt =====
-- titus_isolate/allocate/noop_allocator.py
use titus_isolate.Prelude.{[], ok, values}
use titus_isolate.Allocate.Response.{Env, get_workload_allocations, new_response}
use titus_isolate.Allocate.Request.{AllocateRequest, Isolated}

unfoldable pub isolate : Env → AllocateRequest → Isolated
unfolding get_workload_allocations new_response
isolate env request = (
  ok (
      new_response env request.cpu
        (get_workload_allocations env.config_manager request.cpu (values request.workloads))
        "NoopCpuAllocator" []),
  request.cpu,
)
