-- ===== src/Rounds.antt =====
-- The parts together: the workload manager of titus_isolate/isolate/workload_manager.py over the file
-- cgroup manager of titus_isolate/cgroup/file_cgroup_manager.py, and the reconciler of
-- titus_isolate/isolate/reconciler.py, which reads the cgroup files. The files are a parameter.
pub mod Applied
pub mod Outcome
pub mod InSync
pub mod Reconciled
pub mod Allocations
pub mod Granted
pub mod Greedily
pub mod Calls
mod Tests
use titus_isolate.Prelude.{
  ℕ, ◌+◌, ◌≡◌, String, Bool, false, List, [], ◌∷◌, Option, some, All, IsDistinct, Dict, lookup,
  string_eq, nat_eq, Result, ok,
}
use titus_isolate.Workload.{Workload}
use titus_isolate.Processor.Cpu.{Cpu}
use titus_isolate.Allocate.Response.{AllocateResponse, WorkloadAllocateResponse}
use titus_isolate.Cgroup.File.{Write, FileCgroupManager, file_cgroup_manager, has_pending_work}
use titus_isolate.Cgroup.File.Steps.{Run}
use titus_isolate.Manager.{Parts, WorkloadManager, isolate, new_request, allocation_dict}
use titus_isolate.Manager.Updates.{workload_ids}
use titus_isolate.Isolate.Reconciler.{get_workloads, sorted}

-- What a workload manager calls, with the file cgroup manager.
abbrev pub over_files : {Files : Type 0} → (Write → Files → Option Files) → Parts → Parts
over_files write parts = record parts { cgroups = file_cgroup_manager write }

-- The cpuset of a container is read as given ids, in any order.
abbrev pub ReadsAs :
    {Files : Type 0} → (String → Files → Result (List ℕ)) → String → List ℕ → Files → Type 0
ReadsAs read c ids files =
    (cpuset : List ℕ) × (read c files ≡ ok cpuset) × (sorted cpuset ≡ sorted ids)

module _ (parts : Parts) where
  -- Every workload on a CPU has an allocation with just its threads.
  abbrev pub Placed : Dict String WorkloadAllocateResponse → Cpu → Type 0
  Placed allocations cpu =
      All
        (λ (entry : String × List ℕ).
          (l : WorkloadAllocateResponse) × (lookup entry.0 allocations ≡ some l)
          × (sorted l.thread_ids ≡ sorted entry.1))
        (get_workloads cpu)

  -- A response has one allocation for a workload, with no thread twice, and a CPU that shows the same.
  abbrev pub Consistent : AllocateResponse → Type 0
  Consistent response =
      IsDistinct (workload_ids response.workload_allocations)
      × All (λ (a : WorkloadAllocateResponse). IsDistinct a.thread_ids)
          response.workload_allocations
      × Placed (allocation_dict parts (some response)) response.cpu

module _ {Files : Type 0} (write : Write → Files → Option Files) (parts : Parts) where
  abbrev pub Manager : Type 0
  Manager = WorkloadManager (over_files write parts)

  -- A call of `isolate`, after which the writers run, in any order, until none is at work. None fails;
  -- workloads may be released in between, but no cgroup is set.
  pub data IsolationRound : Manager → Manager → Type 0 where
    round :
        (adds : List Workload) (removes : List String) (m : Manager) (after : Manager)
        (wss : List (List Write))
        → ((r : AllocateResponse)
            → (parts.allocate (new_request (over_files write parts) adds removes m) m.allocator).0.0
              ≡ ok r
            → Consistent (over_files write parts) r)
        → Run write wss (isolate (over_files write parts) adds removes m).1.cgroup after.cgroup
        → All (λ ws. ws ≡ []) wss
        → (has_pending_work write after.cgroup).0 ≡ false
        → after.cgroup.fail_count ≡ m.cgroup.fail_count
        → after
          ≡ record (isolate (over_files write parts) adds removes m).1 { cgroup = after.cgroup }
        → IsolationRound m after

  pub data Rounds : Manager → Manager → Type 0 where
    none_yet : (m : Manager) → Rounds m m
    next : {m n after : Manager} → Rounds m n → IsolationRound n after → Rounds m after
