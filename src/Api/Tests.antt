-- ===== src/Api/Tests.antt =====
-- A workload that is found isolated at the third call.
use titus_isolate.Prelude.{◌≡◌, refl, true, false, List, [], ◌∷◌}
use titus_isolate.Api.{Latencies, isolate_workload}
use titus_isolate.Api.Latency.{Poll, run_polls, isolate_workload-latency}

abbrev polls : List Poll
polls =
    record { has_metrics_manager = true; start_time = 5; now = 6; workload_id = "a" }
    ∷ record { has_metrics_manager = true; start_time = 8; now = 9; workload_id = "a" }
    ∷ []

abbrev none_known : Latencies
none_known = record { isolate_latency = []; recorded = [] }

isolate_workload-latency_example :
    let (answer, after) = isolate_workload true true true 11 12 "a" (run_polls polls none_known) in
    (answer.code ≡ 200) × (after.recorded ≡ (6, 12) ∷ [])
unfolding isolate_workload
isolate_workload-latency_example = isolate_workload-latency polls "a" 11 12 none_known refl

forgotten :
    (isolate_workload true true true 11 12 "a" (run_polls polls none_known)).1.isolate_latency ≡ []
unfolding isolate_workload
forgotten = refl

busy : (isolate_workload false true true 1 2 "a" none_known).0.code ≡ 404
unfolding isolate_workload
busy = refl
