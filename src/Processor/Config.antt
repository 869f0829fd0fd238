-- ===== src/Processor/Config.antt =====
-- titus_isolate/model/processor/config.py: the CPU of a machine with so many packages, cores per
-- package and threads per core. What `lscpu` and `sysctl` answer is not modelled.
pub mod Shape
mod Blocks
pub mod Ids
use titus_isolate.Prelude.{ℕ, zero, suc, ◌+◌, ◌*◌, List, [], ◌∷◌, Result, ok, ◌>>=◌, pos}
use titus_isolate.Processor.Thread.{Thread, new_thread}
use titus_isolate.Processor.Core.{Core, new_core}
use titus_isolate.Processor.Package.{Package, new_package}
use titus_isolate.Processor.Cpu.{Cpu, new_cpu}

-- `for i in range(count): result.append(make(i))`, from `i` on, with `left` rounds to go.
unfoldable pub build {ℓ} : {A : Type ℓ} → (ℕ → Result A) → (i left : ℕ) → Result (List A)
build make i zero = ok []
build make i (suc left) = do x ← make i; xs ← build make (suc i) left; ok (x ∷ xs)

unfoldable pub thread_index : (package_index core_index package_count core_count row_index : ℕ) → ℕ
thread_index package_index core_index package_count core_count row_index =
    row_index * package_count * core_count + package_index * core_count + core_index

unfoldable pub get_threads :
    (package_index core_index package_count core_count thread_count : ℕ) → Result (List Thread)
unfolding build thread_index new_thread
get_threads package_index core_index package_count core_count thread_count =
    build
      (λ row. new_thread (pos (thread_index package_index core_index package_count core_count row)))
      0 thread_count

unfoldable pub get_core :
    (package_count cores_per_package threads_per_core p_i c_i : ℕ) → Result Core
unfolding get_threads new_core
get_core package_count cores_per_package threads_per_core p_i c_i = do
  threads ← get_threads p_i c_i package_count cores_per_package threads_per_core
  new_core c_i threads

unfoldable pub get_package :
    (package_count cores_per_package threads_per_core p_i : ℕ) → Result Package
unfolding get_core new_package
get_package package_count cores_per_package threads_per_core p_i = do
  cores ← build (get_core package_count cores_per_package threads_per_core p_i) 0 cores_per_package
  new_package p_i cores

unfoldable pub get_cpu : (package_count cores_per_package threads_per_core : ℕ) → Result Cpu
unfolding get_package new_cpu
get_cpu package_count cores_per_package threads_per_core = do
  packages ← build (get_package package_count cores_per_package threads_per_core) 0 package_count
  new_cpu packages
