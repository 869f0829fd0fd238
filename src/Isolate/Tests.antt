-- ===== src/Isolate/Tests.antt =====
-- Violations and sizes on a small CPU.
use titus_isolate.Prelude.{
  false, Bool, List, ℕ, String, Result, ok, raise, exception, ◌≡◌, refl, false, lookup, string_eq,
  [], ◌∷◌, some, none, if◌then◌else◌,
}
use titus_isolate.Processor.Cpu.{Cpu, get_threads}
use titus_isolate.Isolate.Detect.{get_cross_package_violations}
use titus_isolate.Isolate.Detect.CrossPackage.{
  is_spread, package_ids, lookup-get_cross_package_violations,
}
use titus_isolate.Isolate.Reconciler.{Reconciler, get_workloads, reconcile}
use titus_isolate.Isolate.Reconciler.Verdict.{Agrees, reconcile-ok}
use titus_isolate.Samples.{thread, core, pair}

-- "a" is on both packages and shares a core with "b"; then it shares a core only; then nothing.
abbrev crossed : Cpu
crossed = record {
  packages =
      pair 0 (core 0 (thread 0 ("a" ∷ [])) (thread 4 ("b" ∷ [])))
        (core 1 (thread 1 []) (thread 5 []))
      ∷ pair 1 (core 0 (thread 2 ("a" ∷ "b" ∷ [])) (thread 6 []))
          (core 1 (thread 3 []) (thread 7 []))
      ∷ [];
}

abbrev shared : Cpu
shared = record {
  packages =
      pair 0 (core 0 (thread 0 ("a" ∷ [])) (thread 4 ("b" ∷ [])))
        (core 1 (thread 1 []) (thread 5 []))
      ∷ [];
}

lookup-get_cross_package_violations_example :
    lookup "a" (get_cross_package_violations crossed)
    ≡ (if is_spread crossed "a" then some (package_ids crossed "a") else none)
lookup-get_cross_package_violations_example = lookup-get_cross_package_violations crossed "a"

crossed_violations : lookup "a" (get_cross_package_violations crossed) ≡ some (0 ∷ 1 ∷ [])
unfolding get_cross_package_violations
crossed_violations = refl

abbrev calm : Cpu
calm = record {
  packages =
      pair 0 (core 0 (thread 0 ("a" ∷ [])) (thread 4 ("a" ∷ [])))
        (core 1 (thread 1 ("b" ∷ [])) (thread 5 []))
      ∷ [];
}

-- A cgroup manager as the cpusets that it reads, and an exit handler that keeps the codes.
abbrev idle : List (String × List ℕ) → Bool
idle cgroups = false

abbrev read_cpuset : String → List (String × List ℕ) → Result (List ℕ)
read_cpuset w cgroups = elim (lookup w cgroups) [ none ↦ ok [] | some ids ↦ ok ids ]

abbrev exit : ℕ → List ℕ → Result (Unit {0}) × List ℕ
exit code codes = (raise exception, code ∷ codes)

abbrev fresh : Reconciler
fresh = record { skip_count = 0; success_count = 0 }

abbrev both : List (String × List ℕ)
both = ("a", 2 ∷ 0 ∷ []) ∷ ("b", 2 ∷ 4 ∷ []) ∷ []

reconcile-ok_example : Agrees idle read_cpuset exit both (get_workloads crossed)
unfolding reconcile get_workloads get_threads
reconcile-ok_example =
    reconcile-ok idle read_cpuset exit crossed both [] fresh refl (λ h. (exception, refl)) refl
