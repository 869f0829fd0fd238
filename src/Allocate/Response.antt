-- ===== src/Allocate/Response.antt =====
-- titus_isolate/allocate/workload_allocate_response.py and allocate_response.py.
use titus_isolate.Prelude.{
  ℕ, ◌*◌, String, Bool, false, List, [], ◌∷◌, Option, none, some, ◌&&◌, ◌==◌, nat_eq, string_eq,
  if◌then◌else◌, ltb, length, contains, Dict, lookup, insert,
}
use titus_isolate.Workload.{Workload}
use titus_isolate.Config.{PropertyProvider, get_bool}
use titus_isolate.Processor.Cpu.{Cpu, get_thread_ids}

pub record WorkloadAllocateResponse : Type 0 where
  pub workload_id : String
  pub thread_ids : List ℕ
  pub cpu_shares : ℕ
  pub cpu_quota : ℕ
  pub memory_migrate : Bool
  pub memory_spread_page : Bool
  pub memory_spread_slab : Bool

abbrev default_shares_scale : ℕ
default_shares_scale = 100

abbrev default_quota_scale : ℕ
default_quota_scale = 100000

unfoldable pub get_cpu_quota : Workload → ℕ
get_cpu_quota workload = workload.thread_count * default_quota_scale

unfoldable pub get_cpu_shares : Workload → ℕ
get_cpu_shares workload = workload.thread_count * default_shares_scale

-- A memory flag: its default is false, also where there is no config manager.
unfoldable pub memory_flag : Option PropertyProvider → String → Bool
unfolding get_bool
memory_flag none key = false
memory_flag (some provider) key = get_bool provider key false

unfoldable pub get_workload_response :
    Option PropertyProvider → Workload → Cpu → Option WorkloadAllocateResponse
unfolding get_thread_ids get_cpu_shares get_cpu_quota memory_flag
get_workload_response config_manager workload cpu =
    let thread_ids = get_thread_ids cpu workload.task_id in
    if ltb (length thread_ids) 1
    then none
    else some (record {
      workload_id = workload.task_id;
      thread_ids = thread_ids;
      cpu_shares = get_cpu_shares workload;
      cpu_quota = get_cpu_quota workload;
      memory_migrate = memory_flag config_manager "TITUS_ISOLATE_MEMORY_MIGRATE";
      memory_spread_page = memory_flag config_manager "TITUS_ISOLATE_MEMORY_SPREAD_PAGE";
      memory_spread_slab = memory_flag config_manager "TITUS_ISOLATE_MEMORY_SPREAD_SLAB";
    })

-- `get_workload_allocations(cpu, workloads)`: the responses that are not None.
unfoldable pub get_workload_allocations :
    Option PropertyProvider → Cpu → List Workload → List WorkloadAllocateResponse
unfolding get_workload_response
get_workload_allocations config_manager cpu [] = []
get_workload_allocations config_manager cpu (w ∷ ws) =
    let rest = get_workload_allocations config_manager cpu ws in
    elim (get_workload_response config_manager w cpu) [ none ↦ rest | some a ↦ a ∷ rest ]

-- `set(xs) == set(ys)` of thread ids
abbrev pub all_ids_in : List ℕ → List ℕ → Bool
all_ids_in [] ys = Bool.true
all_ids_in (x ∷ xs) ys = contains ys x && all_ids_in xs ys

abbrev bool_eq : Bool → Bool → Bool
bool_eq Bool.true b = b
bool_eq Bool.false Bool.true = false
bool_eq Bool.false Bool.false = Bool.true

-- `WorkloadAllocateResponse.__eq__`
unfoldable pub eq : WorkloadAllocateResponse → WorkloadAllocateResponse → Bool
eq a other =
    (other.workload_id == a.workload_id)
    && ((other.cpu_quota == a.cpu_quota)
        && ((other.cpu_shares == a.cpu_shares)
            && ((all_ids_in other.thread_ids a.thread_ids
                  && all_ids_in a.thread_ids other.thread_ids)
                && (bool_eq other.memory_migrate a.memory_migrate
                    && (bool_eq other.memory_spread_page a.memory_spread_page
                        && bool_eq other.memory_spread_slab a.memory_spread_slab)))))

pub record AllocateResponse : Type 0 where
  pub cpu : Cpu
  pub workload_allocations : List WorkloadAllocateResponse
  pub metadata : Dict String String

-- What the allocators read of their surroundings: the config manager, if it is set, and the
-- environment variable TITUS_TASK_ID.
pub record Env : Type 0 where
  pub config_manager : Option PropertyProvider
  pub titus_task_id : Option String

abbrev pub or_unknown : Option String → String
or_unknown none = "unknown_alloc_task_id"
or_unknown (some task_id) = task_id

-- `AllocateResponse(cpu, workload_allocations, cpu_allocator_name, metadata)`
unfoldable pub new_response :
    Env → Cpu → List WorkloadAllocateResponse → String → Dict String String → AllocateResponse
new_response env cpu allocations cpu_allocator_name metadata =
    let named = insert "cpu_allocator" cpu_allocator_name metadata in
    record {
      cpu = cpu;
      workload_allocations = allocations;
      metadata = elim (lookup "alloc_task_id" named) [
        | none ↦ insert "alloc_task_id" (or_unknown env.titus_task_id) named
        | some _ ↦ named
      ];
    }
