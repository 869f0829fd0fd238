-- ===== src/Samples.antt =====
-- Small CPUs, workloads and requests for the tests and the witnesses.
use titus_isolate.Prelude.{ℕ, String, List, [], ◌∷◌, none, some, Dict}
use titus_isolate.Workload.{Workload}
use titus_isolate.Processor.Thread.{Thread}
use titus_isolate.Processor.Core.{Core}
use titus_isolate.Processor.Package.{Package}
use titus_isolate.Processor.Cpu.{Cpu}
use titus_isolate.Allocate.Response.{Env}
use titus_isolate.Allocate.Request.{AllocateRequest}

abbrev pub thread : ℕ → List String → Thread
thread i on = record { workload_ids = on; processor_id = i }

abbrev pub core : ℕ → Thread → Thread → Core
core i a b = record { identifier = i; threads = a ∷ b ∷ [] }

abbrev pub pair : ℕ → Core → Core → Package
pair i a b = record { identifier = i; cores = a ∷ b ∷ [] }

-- Two packages of two cores of two threads; "a" is on two cores of the first package.
abbrev pub cpu8 : Cpu
cpu8 = record {
  packages =
      pair 0 (core 0 (thread 0 ("a" ∷ [])) (thread 4 []))
        (core 1 (thread 1 ("a" ∷ [])) (thread 5 []))
      ∷ pair 1 (core 0 (thread 2 []) (thread 6 [])) (core 1 (thread 3 []) (thread 7 []))
      ∷ [];
}

abbrev pub workload : String → ℕ → Workload
workload id n = record { task_id = id; job_id = "job"; thread_count = n }

abbrev pub by_id : List Workload → Dict String Workload
by_id [] = []
by_id (w ∷ ws) = (w.task_id, w) ∷ by_id ws

abbrev pub request : Cpu → List Workload → AllocateRequest
request cpu ws = record {
  cpu = cpu;
  workloads = by_id ws;
  metadata = ("type", some "isolate") ∷ [];
}

abbrev pub env : Env
env = record { config_manager = none; titus_task_id = none }

abbrev pub two : List Workload
two = workload "a" 3 ∷ workload "b" 4 ∷ []

abbrev pub too_many : List Workload
too_many = workload "a" 3 ∷ workload "b" 6 ∷ []
