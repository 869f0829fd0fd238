-- ===== src/Isolate/Detect.antt =====
-- titus_isolate/isolate/detect.py. The key `':'.join([str(p), str(c)])` of a core is the pair of the
-- two numbers, which the text determines and is determined by.
pub mod CrossPackage
use titus_isolate.Prelude.{
  ℕ, String, true, List, [], ◌∷◌, ◌&&◌, ◌≡◌, ◌↔◌, map, ltb, nat_beq, if◌then◌else◌, length,
  concat_map, distinct, Eq, string_eq, Dict, insert, arith,
}
use titus_isolate.Processor.Thread.{Thread}
use titus_isolate.Processor.Core.{Core}
use titus_isolate.Processor.Package.{Package}
use titus_isolate.Processor.Cpu.{Cpu, get_workload_ids, get_packages_with_workload}

pub pair_beq_iff : (a b : ℕ × ℕ) → ((nat_beq a.0 b.0 && nat_beq a.1 b.1) ≡ true) ↔ (a ≡ b)
pair_beq_iff (a, b) (c, d) = (λ h. ground arith, λ h. ground arith)

instance abbrev pub pair_eq : Eq (ℕ × ℕ)
pair_eq = record { beq = λ a b. nat_beq a.0 b.0 && nat_beq a.1 b.1; beq_iff = pair_beq_iff }

-- The loop over the workload ids.
unfoldable pub add_cross_package : Cpu → List String → Dict String (List ℕ) → Dict String (List ℕ)
unfolding get_packages_with_workload
add_cross_package cpu [] violations = violations
add_cross_package cpu (w ∷ ws) violations =
    let packages = get_packages_with_workload cpu w in
    add_cross_package cpu ws (
      if ltb 1 (length packages)
      then insert w (map (λ (p : Package). p.identifier) packages) violations
      else violations)

unfoldable pub get_cross_package_violations : Cpu → Dict String (List ℕ)
unfolding add_cross_package get_workload_ids
get_cross_package_violations cpu = add_cross_package cpu (get_workload_ids cpu) []

-- `__get_workload_ids(core)`
unfoldable pub core_workload_ids : Core → List String
core_workload_ids core = concat_map (λ (t : Thread). t.workload_ids) core.threads

unfoldable pub add_shared_cores :
    ℕ → List Core → Dict (ℕ × ℕ) (List String) → Dict (ℕ × ℕ) (List String)
unfolding core_workload_ids
add_shared_cores p [] violations = violations
add_shared_cores p (core ∷ cores) violations =
    let unique = distinct (core_workload_ids core) in
    add_shared_cores p cores
      (if ltb 1 (length unique) then insert (p, core.identifier) unique violations else violations)

unfoldable pub add_shared_packages :
    List Package → Dict (ℕ × ℕ) (List String) → Dict (ℕ × ℕ) (List String)
unfolding add_shared_cores
add_shared_packages [] violations = violations
add_shared_packages (p ∷ ps) violations =
    add_shared_packages ps (add_shared_cores p.identifier p.cores violations)

unfoldable pub get_shared_core_violations : Cpu → Dict (ℕ × ℕ) (List String)
unfolding add_shared_packages
get_shared_core_violations cpu = add_shared_packages cpu.packages []
