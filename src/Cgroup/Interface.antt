-- ===== src/Cgroup/Interface.antt =====
-- titus_isolate/cgroup/cgroup_manager.py: the operations of a cgroup manager that the workload manager
-- calls. None of them raises: the manager of this repository writes in threads of its own, and
-- catches what a write raises.
use titus_isolate.Prelude.{ℕ, String, Bool, List}

pub record CgroupManager : Type 1 where
  pub State : Type 0
  pub set_cpuset : String → List ℕ → State → State
  pub set_quota : String → ℕ → State → State
  pub set_shares : String → ℕ → State → State
  pub set_memory_migrate : String → Bool → State → State
  pub set_memory_spread_page : String → Bool → State → State
  pub set_memory_spread_slab : String → Bool → State → State
  pub release_container : String → State → State
  pub get_isolated_workload_ids : State → List String
