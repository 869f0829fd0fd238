-- ===== src/Manager/Samples.antt =====
-- A manager over the greedy allocator, with a cgroup manager that keeps a log of its calls.
use titus_isolate.Prelude.{ℕ, String, false, List, [], ◌∷◌, none, ok}
use titus_isolate.Allocate.Greedy
use titus_isolate.Cgroup.Interface.{CgroupManager}
use titus_isolate.Manager.{Parts, WorkloadManager, new_manager}
use titus_isolate.Samples.{cpu8, env}

pub data Call : Type 0 where
  cpuset : String → List ℕ → Call
  other : String → Call
  release : String → Call

abbrev pub log_cgroups : CgroupManager
log_cgroups = record {
  State = List Call;
  set_cpuset = λ id ts s. cpuset id ts ∷ s;
  set_quota = λ id n s. other id ∷ s;
  set_shares = λ id n s. other id ∷ s;
  set_memory_migrate = λ id b s. other id ∷ s;
  set_memory_spread_page = λ id b s. other id ∷ s;
  set_memory_spread_slab = λ id b s. other id ∷ s;
  release_container = λ id s. release id ∷ s;
  get_isolated_workload_ids = λ s. [];
}

abbrev pub greedy_parts : Parts
greedy_parts = record {
  cgroups = log_cgroups;
  Allocator = Unit;
  allocate = λ request s. (Greedy.isolate env request, s);
  is_noop = false;
  get_resource_usage = λ ids. ok tt;
  report_cpu_event = λ request response. ok tt;
  instance_id = none;
  region = none;
  environment = none;
}

abbrev pub fresh : WorkloadManager greedy_parts
fresh = new_manager greedy_parts cpu8 [] tt
