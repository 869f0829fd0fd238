-- ===== src/Manager/Metrics/Tests.antt =====
-- Two calls, of which the second fails, with a report after each; a third one ends in the middle of the second report.
use titus_isolate.Prelude.{◌+◌, ◌≡◌, refl, List, [], ◌∷◌, none}
use titus_isolate.Metrics.{Registry}
use titus_isolate.Manager.{get_success_count}
use titus_isolate.Manager.Metrics.{succeeded_key, failed_key}
use titus_isolate.Manager.Metrics.Totals.{
  Step, isolate_call, report, run, succeeded, failed, run-totals,
}
use titus_isolate.Manager.Samples.{greedy_parts, fresh}
use titus_isolate.Samples.{workload}

abbrev steps : List Step
steps =
    isolate_call (workload "a" 2 ∷ []) []
    ∷ report []
    ∷ isolate_call (workload "b" 9 ∷ []) []
    ∷ report ((workload "c" 1 ∷ [], []) ∷ [])
    ∷ []

abbrev registry : Registry
registry = record { counters = λ k. 0; gauges = λ k. none }

run-totals_example :
    let (after, reg_after) =
      run greedy_parts (λ a reg. (a, reg)) (λ s reg. reg) steps (fresh, registry) in
    (reg_after.counters succeeded_key + get_success_count greedy_parts after
      ≡ registry.counters succeeded_key
        + get_success_count greedy_parts fresh
        + succeeded greedy_parts (λ a reg. (a, reg)) (λ s reg. reg) steps (fresh, registry))
    × (reg_after.counters failed_key + after.error_count
        ≡ registry.counters failed_key
          + fresh.error_count
          + failed greedy_parts (λ a reg. (a, reg)) (λ s reg. reg) steps (fresh, registry))
run-totals_example =
    run-totals greedy_parts (λ a reg. (a, reg)) (λ s reg. reg) steps fresh registry
      (λ a reg. refl, λ s reg. refl) (λ a reg. refl, λ s reg. refl)
