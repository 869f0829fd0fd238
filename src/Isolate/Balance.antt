-- ===== src/Isolate/Balance.antt =====
-- titus_isolate/isolate/balance.py. A change `new - cur` of two counts is negative where the new
-- count is the smaller, and positive where it is the greater.
pub mod Improves
use titus_isolate.Prelude.{ℕ, Bool, true, false, if◌then◌else◌, ltb, length}
use titus_isolate.Processor.Cpu.{Cpu}
use titus_isolate.Isolate.Detect.{get_cross_package_violations, get_shared_core_violations}

unfoldable pub cross_package_count : Cpu → ℕ
cross_package_count cpu = length (get_cross_package_violations cpu)

unfoldable pub shared_core_count : Cpu → ℕ
shared_core_count cpu = length (get_shared_core_violations cpu)

unfoldable pub has_better_isolation : Cpu → Cpu → Bool
has_better_isolation cur_cpu new_cpu =
    if ltb (cross_package_count new_cpu) (cross_package_count cur_cpu)
    then true
    else if ltb (cross_package_count cur_cpu) (cross_package_count new_cpu)
    then false
    else ltb (shared_core_count new_cpu) (shared_core_count cur_cpu)
