-- ===== src/Allocate/Request.antt =====
-- titus_isolate/allocate/allocate_request.py, and what an allocator does with a request. The resource
-- usage that a request carries to the event log is no part of the model: no allocator of this
-- repository reads it.
use titus_isolate.Prelude.{String, Option, Dict, Result}
use titus_isolate.Workload.{Workload}
use titus_isolate.Processor.Cpu.{Cpu}
use titus_isolate.Allocate.Response.{AllocateResponse}

pub record AllocateRequest : Type 0 where
  pub cpu : Cpu
  pub workloads : Dict String Workload
  pub metadata : Dict String (Option String)

-- `isolate(request)`: its response or exception, and the CPU of the request afterwards.
abbrev pub Isolated : Type 0
Isolated = Result AllocateResponse × Cpu
