-- ===== src/Allocate/Naive.antt =====
-- titus_isolate/allocate/naive_cpu_allocator.py. `random.shuffle` is the argument `shuffle`: its
-- number argument says how many lists were shuffled before. References are positions in
-- `cpu.get_threads()`.
pub mod Flat
pub mod Kept
use titus_isolate.Prelude.{
  ℕ, suc, ◌-◌, String, List, [], ◌∷◌, ◌++◌, not, if◌then◌else◌, ltb, leb, length, take, modify,
  keep_if, concat_map, contains, distinct, string_eq, Dict, keys, values, ok,
}
use titus_isolate.Workload.{Workload}
use titus_isolate.Processor.Thread.{Thread, claim, free, is_claimed}
use titus_isolate.Processor.Core.{Core}
use titus_isolate.Processor.Package
use titus_isolate.Processor.Package.{Package}
use titus_isolate.Processor.Cpu.{
  Cpu, get_threads, get_empty_threads, get_claimed_threads, map_threads,
}
use titus_isolate.Allocate.Response.{Env, get_workload_allocations, new_response}
use titus_isolate.Allocate.Request.{AllocateRequest, Isolated}

abbrev pub Shuffle : Type 0
Shuffle = ℕ → List ℕ → List ℕ

-- The thread at position `i` of a core, a package, a CPU is changed.
unfoldable pub modify_in_cores : List Core → ℕ → (Thread → Thread) → List Core
modify_in_cores [] i f = []
modify_in_cores (core ∷ cores) i f =
    let n = length core.threads in
    let rest = modify_in_cores cores (i - n) f in
    if ltb i n then record core { threads = modify core.threads i f } ∷ cores else core ∷ rest

unfoldable pub modify_in_packages : List Package → ℕ → (Thread → Thread) → List Package
unfolding modify_in_cores Package.get_threads
modify_in_packages [] i f = []
modify_in_packages (pack ∷ packs) i f =
    let n = length (Package.get_threads pack) in
    let rest = modify_in_packages packs (i - n) f in
    if ltb i n then record pack { cores = modify_in_cores pack.cores i f } ∷ packs else pack ∷ rest

unfoldable pub modify_thread : Cpu → ℕ → (Thread → Thread) → Cpu
unfolding modify_in_packages
modify_thread cpu i f = record cpu { packages = modify_in_packages cpu.packages i f }

-- `for w_id in ids: thread.free(w_id)`
unfoldable pub free_all : List String → Thread → Thread
free_all [] t = t
free_all (w ∷ ws) t = free_all ws (free t w)

-- The first loop of `isolate`: a thread keeps the workloads that the request mentions.
unfoldable pub drop_unmentioned : List String → Thread → Thread
unfolding free_all
drop_unmentioned mentioned t =
    free_all (keep_if (λ w_id. not (contains mentioned w_id)) t.workload_ids) t

-- The keys of `cpu.get_workload_ids_to_thread_ids()`: the workloads of the claimed threads.
unfoldable pub isolated_ids : Cpu → List String
unfolding get_threads is_claimed
isolated_ids cpu =
    distinct (concat_map (λ (t : Thread). t.workload_ids) (keep_if is_claimed (get_threads cpu)))

-- `_get_assign_threads(cpu, thread_count)`
unfoldable pub get_assign_threads : Shuffle → ℕ → Cpu → ℕ → List ℕ
unfolding get_empty_threads get_claimed_threads
get_assign_threads shuffle calls cpu thread_count =
    let empty_threads = get_empty_threads cpu in
    if leb thread_count (length empty_threads)
    then take thread_count (shuffle calls empty_threads)
    else empty_threads
      ++ take (thread_count - length empty_threads) (shuffle calls (get_claimed_threads cpu))

-- `for thread in threads: thread.claim(task_id)`
unfoldable pub claim_threads : String → List ℕ → Cpu → Cpu
unfolding modify_thread claim
claim_threads task_id [] cpu = cpu
claim_threads task_id (i ∷ refs) cpu =
    claim_threads task_id refs (modify_thread cpu i (λ t. claim t task_id))

-- The second loop of `isolate`.
unfoldable pub assign_new : Shuffle → List String → ℕ → List Workload → Cpu → Cpu
unfolding get_assign_threads claim_threads
assign_new shuffle isolated calls [] cpu = cpu
assign_new shuffle isolated calls (w ∷ ws) cpu =
    let fresh = claim_threads w.task_id (get_assign_threads shuffle calls cpu w.thread_count) cpu in
    let skip = contains isolated w.task_id in
    assign_new shuffle isolated (if skip then calls else suc calls) ws (if skip then cpu else fresh)

-- What the two loops leave of the request's CPU.
unfoldable pub place : Shuffle → Dict String Workload → Cpu → Cpu
unfolding map_threads drop_unmentioned isolated_ids assign_new
place shuffle workloads cpu =
    let kept = map_threads (drop_unmentioned (keys workloads)) cpu in
    assign_new shuffle (isolated_ids kept) 0 (values workloads) kept

unfoldable pub isolate : Shuffle → Env → AllocateRequest → Isolated
unfolding place get_workload_allocations new_response
isolate shuffle env request =
    let cpu = place shuffle request.workloads request.cpu in
    (
      ok (
          new_response env cpu
            (get_workload_allocations env.config_manager cpu (values request.workloads))
            "NaiveCpuAllocator" []),
      cpu,
    )
