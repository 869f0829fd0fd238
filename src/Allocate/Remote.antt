-- ===== src/Allocate/Remote.antt =====
-- titus_isolate/allocate/remote/allocator.py, and the index of titus_isolate/model/processor/cpu.py that it uses.
-- The messages are generated code and the service is not in the repository: the model keeps the fields
-- that are written and read, and an answer of the service is an argument.
pub mod Positions
pub mod Claims
pub mod Layouts
mod Tests
use titus_isolate.Prelude.{
  ℕ, zero, suc, String, Bool, true, false, List, [], ◌∷◌, ◌++◌, Option, none, some, if◌then◌else◌,
  ltb, length, map, get_elem?, Dict, lookup, insert, string_eq, nat_eq, Result, ok, raise,
  key_error, ◌>>=◌,
}
use titus_isolate.Workload.{Workload}
use titus_isolate.Processor.Thread.{Thread, claim, is_claimed}
use titus_isolate.Processor.Core.{Core}
use titus_isolate.Processor.Package.{Package}
use titus_isolate.Processor.Cpu.{Cpu, get_threads, map_threads}
use titus_isolate.Allocate.Response.{WorkloadAllocateResponse, AllocateResponse, Env, new_response}
use titus_isolate.Allocate.Forms.{claim_each}

-- `{i: t.get_id() for i, t in enumerate(self.get_threads())}`: the key `i` is the position in a list.
unfoldable pub get_natural_indexing_2_original_indexing : Cpu → List ℕ
unfolding get_threads
get_natural_indexing_2_original_indexing cpu =
    map (λ (t : Thread). t.processor_id) (get_threads cpu)

-- `{v: k for k, v in natural2original.items()}`
unfoldable pub original2natural_from : ℕ → List ℕ → Dict ℕ ℕ → Dict ℕ ℕ
original2natural_from k [] d = d
original2natural_from k (v ∷ vs) d = original2natural_from (suc k) vs (insert v k d)

abbrev pub or_key_error {ℓ} : {A : Type ℓ} → Option A → Result A
or_key_error none = raise key_error
or_key_error (some a) = ok a

pub record PbThread : Type 0 where
  pub id : ℕ
  pub task_ids : List String

pub record PbCore : Type 0 where
  pub id : ℕ
  pub threads : List PbThread

pub record PbPackage : Type 0 where
  pub id : ℕ
  pub num_cores : ℕ
  pub cores : List PbCore

pub record Layout : Type 0 where
  pub packages : List PbPackage
  pub threads_per_core : ℕ

-- The claimed threads of a core, by their natural index.
unfoldable pub layout_threads : Dict ℕ ℕ → List Thread → Result (List PbThread)
unfolding is_claimed
layout_threads original2natural [] = ok []
layout_threads original2natural (t ∷ ts) =
    if is_claimed t
    then (or_key_error (lookup t.processor_id original2natural) >>= λ i.
        layout_threads original2natural ts >>= λ rest.
        ok (record { id = i; task_ids = t.workload_ids } ∷ rest))
    else layout_threads original2natural ts

-- The cores with a claimed thread.
unfoldable pub layout_cores : Dict ℕ ℕ → List Core → Result (List PbCore)
unfolding layout_threads
layout_cores original2natural [] = ok []
layout_cores original2natural (c ∷ cs) = layout_threads original2natural c.threads >>= λ threads.
    layout_cores original2natural cs >>= λ rest. ok (
      if ltb 0 (length threads)
      then record { id = c.identifier; threads = threads } ∷ rest
      else rest)

unfoldable pub layout_packages : Dict ℕ ℕ → List Package → Result (List PbPackage)
unfolding layout_cores
layout_packages original2natural [] = ok []
layout_packages original2natural (p ∷ ps) = layout_cores original2natural p.cores >>= λ cores.
    layout_packages original2natural ps >>= λ rest.
    ok (record { id = p.identifier; num_cores = length p.cores; cores = cores } ∷ rest)

-- `threads_per_core` after the loops: that of the last core.
abbrev last_core : ℕ → List Core → ℕ
last_core n [] = n
last_core n (c ∷ cs) = last_core (length c.threads) cs

abbrev pub last_package : ℕ → List Package → ℕ
last_package n [] = n
last_package n (p ∷ ps) = last_package (last_core n p.cores) ps

-- The layout that `__build_base_req` puts into a request.
unfoldable pub build_layout : Dict ℕ ℕ → Cpu → Result Layout
unfolding layout_packages
build_layout original2natural cpu = layout_packages original2natural cpu.packages >>= λ packages.
    ok (record { packages = packages; threads_per_core = last_package 0 cpu.packages })

-- The workloads of a request, as `__process` lists them.
pub record Tasks : Type 0 where
  pub task_to_job_id : Dict String String
  pub tasks_to_place : List String
  pub thread_counts : Dict String ℕ

unfoldable pub add_tasks : Dict String Workload → Tasks → Tasks
add_tasks [] tasks = tasks
add_tasks ((wid, w) ∷ workloads) tasks = add_tasks workloads (record {
  task_to_job_id = insert wid w.job_id tasks.task_to_job_id;
  tasks_to_place = tasks.tasks_to_place ++ wid ∷ [];
  thread_counts = insert w.task_id w.thread_count tasks.thread_counts;
})

-- A cpuset of the service's answer.
pub record Cpuset : Type 0 where
  pub thread_ids : List ℕ
  pub shares : ℕ
  pub quota_us : ℕ
  pub memory_migrate : Bool
  pub memory_spread_page : Bool
  pub memory_spread_slab : Bool

-- `[self.__natural2original_indexing[tid] for tid in cpuset.thread_ids]`
unfoldable pub original_ids : List ℕ → List ℕ → Result (List ℕ)
original_ids natural2original [] = ok []
original_ids natural2original (tid ∷ tids) = or_key_error (get_elem? natural2original tid) >>= λ id.
    original_ids natural2original tids >>= λ ids. ok (id ∷ ids)

abbrev pub or_empty : Option (List String) → List String
or_empty none = []
or_empty (some wids) = wids

-- `for tid in thread_ids: id2workloads[tid].append(wid)`
unfoldable pub add_claims : String → List ℕ → Dict ℕ (List String) → Dict ℕ (List String)
add_claims wid [] id2workloads = id2workloads
add_claims wid (tid ∷ tids) id2workloads =
    add_claims wid tids (insert tid (or_empty (lookup tid id2workloads) ++ wid ∷ []) id2workloads)

-- `WorkloadAllocateResponse(wid, thread_ids, …)`
abbrev pub allocation_of : String → Cpuset → List ℕ → WorkloadAllocateResponse
allocation_of wid cpuset thread_ids = record {
  workload_id = wid;
  thread_ids = thread_ids;
  cpu_shares = cpuset.shares;
  cpu_quota = cpuset.quota_us;
  memory_migrate = cpuset.memory_migrate;
  memory_spread_page = cpuset.memory_spread_page;
  memory_spread_slab = cpuset.memory_spread_slab;
}

-- The loop over the cpusets: the allocations, and the workloads of each thread.
unfoldable pub read_cpusets :
    List ℕ
    → Dict String Cpuset
    → Dict ℕ (List String)
    → Result (List WorkloadAllocateResponse × Dict ℕ (List String))
unfolding original_ids add_claims
read_cpusets natural2original [] id2workloads = ok ([], id2workloads)
read_cpusets natural2original ((wid, cpuset) ∷ cpusets) id2workloads =
    original_ids natural2original cpuset.thread_ids >>= λ thread_ids.
    read_cpusets natural2original cpusets (add_claims wid thread_ids id2workloads)
    >>= λ (allocations, claims). ok (allocation_of wid cpuset thread_ids ∷ allocations, claims)

unfoldable pub claim_listed : Dict ℕ (List String) → Thread → Thread
unfolding claim_each
claim_listed id2workloads thread = elim (lookup thread.processor_id id2workloads) [
  | none ↦ thread
  | some workloads ↦ claim_each workloads thread
]

-- `__deser(response)`
unfoldable pub deser : Env → Cpu → Dict String Cpuset → Result AllocateResponse
unfolding read_cpusets claim_listed get_natural_indexing_2_original_indexing map_threads
    new_response
deser env empty_cpu cpusets =
    read_cpusets (get_natural_indexing_2_original_indexing empty_cpu) cpusets []
    >>= λ (allocations, claims). ok (
        new_response env (map_threads (claim_listed claims) empty_cpu) allocations
          "GrpcRemoteIsolationAllocator" [])
