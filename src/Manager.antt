-- ===== src/Manager.antt =====
-- titus_isolate/isolate/workload_manager.py. The cgroup manager, the allocator with its state, the
-- resource usage provider, which a request asks, and the event log are parameters. Each runs under the
-- manager's lock, so a call of `isolate` is one step. Metric timings are left out.
pub mod Counts
pub mod Failure
pub mod Workloads
pub mod Keyed
pub mod Updates
pub mod Metrics
pub mod Samples
mod Tests
use titus_isolate.Prelude.{
  ℕ, suc, ◌+◌, String, Bool, true, false, List, [], ◌∷◌, Option, none, some, ◌&&◌, if◌then◌else◌,
  nat_beq, length, contains, string_eq, Dict, lookup, insert, erase, keys, values, Result, ok,
  raise, ◌>>=◌,
}
use titus_isolate.Workload.{Workload}
use titus_isolate.Processor.Cpu.{Cpu}
use titus_isolate.Processor.Visualize.{report_change}
use titus_isolate.Allocate.Response.{AllocateResponse, WorkloadAllocateResponse, eq}
use titus_isolate.Allocate.Request.{AllocateRequest, Isolated}
use titus_isolate.Cgroup.Interface.{CgroupManager}

-- What a WorkloadManager is given and calls.
pub record Parts : Type 1 where
  pub cgroups : CgroupManager
  pub Allocator : Type 0
  pub allocate : AllocateRequest → Allocator → Isolated × Allocator
  pub is_noop : Bool
  pub get_resource_usage : List String → Result (Unit {0})
  pub report_cpu_event : AllocateRequest → AllocateResponse → Result (Unit {0})
  pub instance_id : Option String
  pub region : Option String
  pub environment : Option String

module _ (parts : Parts) where
  open parts use {cgroups, Allocator}

  pub record WorkloadManager : Type 0 where
    pub cpu : Cpu
    pub workloads : Dict String Workload
    pub last_response : Option AllocateResponse
    pub error_count : ℕ
    pub added_count : ℕ
    pub removed_count : ℕ
    pub rebalanced_count : ℕ
    pub cgroup : cgroups.State
    pub allocator : Allocator

  -- `WorkloadManager(cpu, cgroup_manager, cpu_allocator)`
  unfoldable pub new_manager : Cpu → cgroups.State → Allocator → WorkloadManager
  new_manager cpu cgroup allocator = record {
    cpu = cpu;
    workloads = [];
    last_response = none;
    error_count = 0;
    added_count = 0;
    removed_count = 0;
    rebalanced_count = 0;
    cgroup = cgroup;
    allocator = allocator;
  }

  -- The loop over `removes`, its two calls one after the other.
  unfoldable pub release_all : List String → cgroups.State → cgroups.State
  release_all [] s = s
  release_all (task_id ∷ removes) s = release_all removes (cgroups.release_container task_id s)

  unfoldable pub pop_all : List String → Dict String Workload → Dict String Workload
  pop_all [] workload_map = workload_map
  pop_all (task_id ∷ removes) workload_map = pop_all removes (erase task_id workload_map)

  unfoldable pub put_all : List Workload → Dict String Workload → Dict String Workload
  put_all [] workload_map = workload_map
  put_all (w ∷ adds) workload_map = put_all adds (insert w.task_id w workload_map)

  unfoldable pub get_request_type : ℕ → ℕ → String
  get_request_type add_count remove_count =
      if nat_beq add_count 0 && nat_beq remove_count 0 then "rebalance" else "isolate"

  unfoldable pub get_request_metadata : String → Dict String (Option String)
  get_request_metadata request_type =
      ("type", some request_type)
      ∷ ("instance_id", parts.instance_id)
      ∷ ("region", parts.region)
      ∷ ("environment", parts.environment)
      ∷ []

  unfoldable pub add_allocations :
      List WorkloadAllocateResponse
      → Dict String WorkloadAllocateResponse
      → Dict String WorkloadAllocateResponse
  add_allocations [] w_responses = w_responses
  add_allocations (a ∷ allocations) w_responses =
      add_allocations allocations (insert a.workload_id a w_responses)

  -- `__get_workload_allocation_dict(response)`
  unfoldable pub allocation_dict : Option AllocateResponse → Dict String WorkloadAllocateResponse
  unfolding add_allocations
  allocation_dict none = []
  allocation_dict (some response) = add_allocations response.workload_allocations []

  -- The six calls for a workload whose allocation changed; the cpuset comes first.
  unfoldable pub apply_one : WorkloadAllocateResponse → cgroups.State → cgroups.State
  apply_one a s =
      let s1 = cgroups.set_cpuset a.workload_id a.thread_ids s in
      let s2 = cgroups.set_quota a.workload_id a.cpu_quota s1 in
      let s3 = cgroups.set_shares a.workload_id a.cpu_shares s2 in
      let s4 = cgroups.set_memory_migrate a.workload_id a.memory_migrate s3 in
      let s5 = cgroups.set_memory_spread_page a.workload_id a.memory_spread_page s4 in
      cgroups.set_memory_spread_slab a.workload_id a.memory_spread_slab s5

  -- `w_alloc == last_w_alloc`; nothing equals None.
  unfoldable pub is_unchanged :
      Dict String WorkloadAllocateResponse → WorkloadAllocateResponse → Bool
  unfolding eq
  is_unchanged last a = elim (lookup a.workload_id last) [ none ↦ false | some l ↦ eq a l ]

  -- The loop of `__apply_isolation`.
  unfoldable pub apply_isolation :
      Dict String WorkloadAllocateResponse
      → List WorkloadAllocateResponse
      → cgroups.State
      → cgroups.State
  unfolding apply_one is_unchanged
  apply_isolation last [] s = s
  apply_isolation last (a ∷ allocations) s =
      apply_isolation last allocations (if is_unchanged last a then s else apply_one a s)

  -- The assignments of `__update_state(response, new_workloads)`; `report_change` is what follows them.
  unfoldable pub update_state :
      AllocateResponse → Dict String Workload → WorkloadManager → WorkloadManager
  unfolding apply_isolation allocation_dict
  update_state response new_workloads m = record m {
    cgroup =
        apply_isolation (allocation_dict m.last_response) response.workload_allocations m.cgroup;
    cpu = response.cpu;
    workloads = new_workloads;
    last_response = some response;
  }

  unfoldable pub new_request : List Workload → List String → WorkloadManager → AllocateRequest
  unfolding put_all pop_all get_request_type get_request_metadata
  new_request adds removes m = record {
    cpu = m.cpu;
    workloads = put_all adds (pop_all removes m.workloads);
    metadata = get_request_metadata (get_request_type (length adds) (length removes));
  }

  -- `__isolate(adds, removes)`: with an exception the manager is as it was at that point.
  unfoldable pub isolate_locked :
      List Workload → List String → WorkloadManager → Result (Unit {0}) × WorkloadManager
  unfolding release_all new_request update_state report_change
  isolate_locked adds removes m =
      let released = record m { cgroup = release_all removes m.cgroup } in
      let request = new_request adds removes m in
      elim (parts.get_resource_usage (keys request.workloads)) [
        | raise e ↦ (raise e, released)
        | ok _ ↦
            let ((result, _), allocator) = parts.allocate request m.allocator in
            let called = record released { allocator = allocator } in
            elim result [
              | raise e ↦ (raise e, called)
              | ok response ↦ (
                report_change m.cpu response.cpu >>= λ u. parts.report_cpu_event request response,
                update_state response request.workloads called,
              )
            ]
      ]

  -- `isolate(adds, removes)`
  unfoldable pub isolate : List Workload → List String → WorkloadManager → Bool × WorkloadManager
  unfolding isolate_locked
  isolate adds removes m =
      let (result, after) = isolate_locked adds removes m in
      elim result [
        | raise _ ↦ (false, record after { error_count = suc after.error_count })
        | ok _ ↦ (
          true,
          record after {
            added_count = after.added_count + length adds;
            removed_count = after.removed_count + length removes;
            rebalanced_count =
                if nat_beq (length adds) 0 && nat_beq (length removes) 0
                then suc after.rebalanced_count
                else after.rebalanced_count;
          },
        )
      ]

  -- `is_isolated(workload_id)`
  unfoldable pub is_isolated : String → WorkloadManager → Bool
  is_isolated workload_id m =
      if parts.is_noop
      then true
      else contains (cgroups.get_isolated_workload_ids m.cgroup) workload_id

  unfoldable pub get_success_count : WorkloadManager → ℕ
  get_success_count m = m.added_count + m.removed_count + m.rebalanced_count
