-- ===== src/Cgroup/File.antt =====
-- titus_isolate/cgroup/file_cgroup_manager.py. The cgroup files are a parameter, with the functions of
-- titus_isolate/cgroup/utils.py that write them: `write` answers none where the source's call raises.
-- A value is kept as what it is made of, not as its text. What a writer does is cut into the steps
-- between which other threads run: the call, the addition under the lock, the count. Two things that are
-- not atomic in the source are one step here: the increment of a count, which takes no lock, and the
-- start of a thread with its entry in the list, which is made after the thread runs. So the counts are
-- what they come to when no increment is lost.
pub mod Steps
pub mod Released
pub mod Justified
pub mod Settled
pub mod Order
pub mod Reads
pub mod ReadBack
mod ReadTests
mod Tests
use titus_isolate.Prelude.{
  ℕ, suc, String, Bool, true, false, List, [], ◌∷◌, ◌++◌, Option, none, some, ltb, length,
  get_elem?, modify, keep_if, add_new, remove, string_eq,
}
use titus_isolate.Cgroup.Interface.{CgroupManager}

pub data Setting : Type 0 where
  cpuset quota shares : Setting
  memory_migrate memory_spread_page memory_spread_slab : Setting

pub data Value : Type 0 where
  thread_ids : List ℕ → Value
  number : ℕ → Value
  flag : Bool → Value

-- A call `__set(func, container_name, value)`
pub record Write : Type 0 where
  pub func : Setting
  pub container_name : String
  pub value : Value

-- How far a writer thread has come.
pub data Writer : Type 0 where
  starting : Write → Writer
  written : String → Writer
  added : Writer
  dead : Writer

abbrev pub is_alive : Writer → Bool
is_alive (starting w) = true
is_alive (written c) = true
is_alive added = true
is_alive dead = false

module _ {Files : Type 0} (write : Write → Files → Option Files) where
  pub record FileCgroupManager : Type 0 where
    pub threads : List Writer
    pub write_count : ℕ
    pub fail_count : ℕ
    pub isolated_workload_ids : List String
    pub files : Files

  unfoldable pub new_manager : Files → FileCgroupManager
  new_manager files = record {
    threads = [];
    write_count = 0;
    fail_count = 0;
    isolated_workload_ids = [];
    files = files;
  }

  -- The next step of a writer.
  unfoldable pub advance : Writer → FileCgroupManager → Writer × FileCgroupManager
  advance (starting w) s = elim (write w s.files) [
    | none ↦ (dead, record s { fail_count = suc s.fail_count })
    | some files ↦ (written w.container_name, record s { files = files })
  ]
  advance (written c) s =
      (added, record s { isolated_workload_ids = add_new s.isolated_workload_ids c })
  advance added s = (dead, record s { write_count = suc s.write_count })
  advance dead s = (dead, s)

  -- `__start(func, args)`
  unfoldable pub start : Write → FileCgroupManager → FileCgroupManager
  start w s = record s { threads = s.threads ++ starting w ∷ [] }

  -- A started thread comes to run.
  unfoldable pub run_thread : ℕ → FileCgroupManager → FileCgroupManager
  unfolding advance
  run_thread i s = elim (get_elem? s.threads i) [
    | none ↦ s
    | some t ↦
        let (next, after) = advance t s in
        record after { threads = modify after.threads i (λ _. next) }
  ]

  -- `__set(func, container_name, value)` in the thread of its caller
  unfoldable pub set_now : Write → FileCgroupManager → FileCgroupManager
  unfolding advance
  set_now w s =
      let (t1, s1) = advance (starting w) s in let (t2, s2) = advance t1 s1 in (advance t2 s2).1

  unfoldable pub release_container : String → FileCgroupManager → FileCgroupManager
  release_container c s = record s { isolated_workload_ids = remove s.isolated_workload_ids c }

  unfoldable pub remove_dead_threads : FileCgroupManager → FileCgroupManager
  remove_dead_threads s = record s { threads = keep_if is_alive s.threads }

  unfoldable pub has_pending_work : FileCgroupManager → Bool × FileCgroupManager
  unfolding remove_dead_threads
  has_pending_work s = let after = remove_dead_threads s in (ltb 0 (length after.threads), after)

  abbrev pub new_write : Setting → String → Value → Write
  new_write func c value = record { func = func; container_name = c; value = value }

  -- The operations that the workload manager calls.
  abbrev pub file_cgroup_manager : CgroupManager
  file_cgroup_manager = record {
    State = FileCgroupManager;
    set_cpuset = λ c ids s. start (new_write cpuset c (thread_ids ids)) s;
    set_quota = λ c n s. start (new_write quota c (number n)) s;
    set_shares = λ c n s. start (new_write shares c (number n)) s;
    set_memory_migrate = λ c on s. set_now (new_write memory_migrate c (flag on)) s;
    set_memory_spread_page = λ c on s. set_now (new_write memory_spread_page c (flag on)) s;
    set_memory_spread_slab = λ c on s. set_now (new_write memory_spread_slab c (flag on)) s;
    release_container = λ c s. release_container c s;
    get_isolated_workload_ids = λ s. s.isolated_workload_ids;
  }
