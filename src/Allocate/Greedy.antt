-- ===== src/Allocate/Greedy.antt =====
-- titus_isolate/allocate/greedy_cpu_allocator.py. The list of claimed threads that `__assign_threads`
-- returns is discarded by its only caller, `isolate`, and is not built here.
pub mod Rounds
pub mod Claiming
pub mod Placement
pub mod Isolation
use titus_isolate.Prelude.{
  ℕ, zero, suc, ◌-◌, String, true, false, List, [], ◌∷◌, none, some, ◌&&◌, ltb, nat_beq, length,
  get_elem?, take, Result, ok, raise, value_error, index_error, out_of_fuel, values,
}
use titus_isolate.Workload.{Workload}
use titus_isolate.Processor.Core
use titus_isolate.Processor.Core.{claim_threads}
use titus_isolate.Processor.Package
use titus_isolate.Processor.Package.{Package, get_emptiest_core, modify_core}
use titus_isolate.Processor.Cpu.{Cpu, clear_cpu, is_cpu_full, get_emptiest_package, modify_package}
use titus_isolate.Allocate.Response.{Env, get_workload_allocations, new_response}
use titus_isolate.Allocate.Request.{AllocateRequest, Isolated}

-- The body of the `while` loop: the threads still wanted, and the package.
unfoldable pub claim_round : String → ℕ → Package → Result (ℕ × Package)
unfolding get_emptiest_core Core.get_empty_threads claim_threads modify_core
claim_round task_id thread_count pack =
    let c = get_emptiest_core pack in
    elim (get_elem? pack.cores c) [
      | none ↦ raise index_error
      | some core ↦
          let empty_threads = take thread_count (Core.get_empty_threads core) in
          ok (
            thread_count - length empty_threads,
            modify_core pack c (λ k. claim_threads k task_id empty_threads),
          )
    ]

-- The `while` loop, on fuel.
unfoldable pub assign_package : ℕ → String → ℕ → Package → Result (ℕ × Package)
unfolding claim_round Package.get_empty_threads
assign_package zero task_id thread_count pack = raise out_of_fuel
assign_package (suc fuel) task_id thread_count pack =
    elim (ltb 0 thread_count && ltb 0 (length (Package.get_empty_threads pack))) [
      | false ↦ ok (thread_count, pack)
      | true ↦ elim (claim_round task_id thread_count pack) [
        | raise e ↦ raise e
        | ok (left, after) ↦ assign_package fuel task_id left after
      ]
    ]

-- What follows the two tests of `__assign_threads`, up to its recursive call: the threads still
-- wanted, and the CPU.
unfoldable pub fill_package : String → ℕ → Cpu → Result (ℕ × Cpu)
unfolding get_emptiest_package assign_package modify_package
fill_package task_id thread_count cpu =
    let p = get_emptiest_package cpu in
    elim (get_elem? cpu.packages p) [
      | none ↦ raise index_error
      | some pack ↦ elim (assign_package (suc thread_count) task_id thread_count pack) [
        | raise e ↦ raise e
        | ok (left, after) ↦ ok (left, modify_package cpu p (λ _. after))
      ]
    ]

-- `__assign_threads(cpu, workload)`, its recursion on fuel. An exception leaves the threads claimed
-- that were claimed before it.
unfoldable pub assign_threads : ℕ → String → ℕ → Cpu → Result (Unit {0}) × Cpu
unfolding is_cpu_full fill_package
assign_threads zero task_id thread_count cpu = (raise out_of_fuel, cpu)
assign_threads (suc fuel) task_id thread_count cpu = elim (nat_beq thread_count 0) [
  | true ↦ (ok tt, cpu)
  | false ↦ elim (is_cpu_full cpu) [
    | true ↦ (raise value_error, cpu)
    | false ↦ elim (fill_package task_id thread_count cpu) [
      | raise e ↦ (raise e, cpu)
      | ok (left, after) ↦ assign_threads fuel task_id left after
    ]
  ]
]

-- The loop of `isolate` over the requested workloads.
unfoldable pub assign_all : List Workload → Cpu → Result (Unit {0}) × Cpu
unfolding assign_threads
assign_all [] cpu = (ok tt, cpu)
assign_all (w ∷ ws) cpu =
    let (result, after) = assign_threads (suc w.thread_count) w.task_id w.thread_count cpu in
    elim result [ raise e ↦ (raise e, after) | ok _ ↦ assign_all ws after ]

unfoldable pub isolate : Env → AllocateRequest → Isolated
unfolding clear_cpu assign_all get_workload_allocations new_response
isolate env request =
    let workloads = values request.workloads in
    let (result, cpu) = assign_all workloads (clear_cpu request.cpu) in
    elim result [
      | raise e ↦ (raise e, cpu)
      | ok _ ↦ (
        ok (
            new_response env cpu (get_workload_allocations env.config_manager cpu workloads)
              "GreedyCpuAllocator" []),
        cpu,
      )
    ]
