-- ===== src/Processor/Cpu.antt =====
-- titus_isolate/model/processor/cpu.py, and the functions of utils.py and titus_isolate/model/utils.py
-- on a CPU. A change of a thread object through a reference is an update at its position.
use titus_isolate.Prelude.{
  ℕ, String, Bool, List, [], ◌∷◌, map, nat_beq, length, keep_if, concat_map, distinct, string_eq,
  modify, Result, ok, raise, value_error,
}
use titus_isolate.Processor.Thread.{Thread, holds, free, clear}
use titus_isolate.Processor.Core.{Core}
use titus_isolate.Processor.Package.{Package, emptiest, is_on_package}
use titus_isolate.Processor.Package
use titus_isolate.Processor.Utils

pub record Cpu : Type 0 where
  pub packages : List Package

-- `Cpu(packages)`
unfoldable pub new_cpu : List Package → Result Cpu
new_cpu [] = raise value_error
new_cpu (p ∷ ps) = ok (record { packages = p ∷ ps })

unfoldable pub get_threads : Cpu → List Thread
unfolding Package.get_threads
get_threads cpu = concat_map Package.get_threads cpu.packages

unfoldable pub get_empty_threads : Cpu → List ℕ
unfolding get_threads Utils.get_empty_threads
get_empty_threads cpu = Utils.get_empty_threads (get_threads cpu)

unfoldable pub get_claimed_threads : Cpu → List ℕ
unfolding get_threads Utils.get_claimed_threads
get_claimed_threads cpu = Utils.get_claimed_threads (get_threads cpu)

unfoldable pub empty_count : Package → ℕ
unfolding Package.get_empty_threads
empty_count pack = length (Package.get_empty_threads pack)

unfoldable pub get_emptiest_package : Cpu → ℕ
unfolding emptiest empty_count
get_emptiest_package cpu = emptiest (map empty_count cpu.packages)

-- `utils.is_cpu_full(cpu)`
unfoldable pub is_cpu_full : Cpu → Bool
unfolding Package.get_empty_threads
is_cpu_full cpu = nat_beq (length (concat_map Package.get_empty_threads cpu.packages)) 0

-- `for t in self.get_threads(): …` with a change of each thread
unfoldable pub map_threads : (Thread → Thread) → Cpu → Cpu
map_threads f cpu = record cpu { packages = map map_package cpu.packages }
  where
    map_core : Core → Core
    map_core core = record core { threads = map f core.threads }

    map_package : Package → Package
    map_package pack = record pack { cores = map map_core pack.cores }

unfoldable pub clear_cpu : Cpu → Cpu
unfolding map_threads clear
clear_cpu cpu = map_threads clear cpu

-- `release_threads(cpu, workload_id)`
unfoldable pub release_threads : Cpu → String → Cpu
unfolding map_threads free
release_threads cpu workload_id = map_threads (λ t. free t workload_id) cpu

-- `utils.get_workload_ids(cpu)`
unfoldable pub get_workload_ids : Cpu → List String
unfolding get_threads
get_workload_ids cpu = distinct (concat_map (λ (t : Thread). t.workload_ids) (get_threads cpu))

-- `utils.get_packages_with_workload(cpu, workload_id)`
unfoldable pub get_packages_with_workload : Cpu → String → List Package
unfolding is_on_package
get_packages_with_workload cpu workload_id =
    keep_if (λ pack. is_on_package pack workload_id) cpu.packages

-- `update.get_threads(cpu, workload_id)`: the ids of the threads that a workload is on.
unfoldable pub get_thread_ids : Cpu → String → List ℕ
unfolding get_threads
get_thread_ids cpu workload_id =
    map (λ (t : Thread). t.processor_id) (keep_if (holds workload_id) (get_threads cpu))

unfoldable pub modify_package : Cpu → ℕ → (Package → Package) → Cpu
modify_package cpu i f = record cpu { packages = modify cpu.packages i f }
