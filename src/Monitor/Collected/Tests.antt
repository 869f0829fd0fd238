-- ===== src/Monitor/Collected/Tests.antt =====
-- Two usages of one workload, and duration predictions.
use titus_isolate.Prelude.{◌≡◌, refl, String, List, [], ◌∷◌, some, ok, raise, exception}
use titus_isolate.Text.{codes}
use titus_isolate.Json.{number}
use titus_isolate.Monitor.Collected.{
  ResourceUsage, resource_usages_to_dict, get_duration_predictions, get_resource_usage,
}
use titus_isolate.Monitor.Collected.Latest.{texts_at}

abbrev usage : String → String → List String → ResourceUsage String
usage workload_id resource_name values = record {
  workload_id = workload_id;
  resource_name = resource_name;
  start_time_epoch_sec = number 1000;
  interval_sec = 60;
  values = values;
}

abbrev usages : List (ResourceUsage String)
usages =
    usage "a" "cpu_usage" ("1.0" ∷ [])
    ∷ usage "a" "cpu_usage" ("2.0" ∷ [])
    ∷ usage "b" "mem_usage" []
    ∷ []

last_wins : texts_at "cpu_usage" "a" (resource_usages_to_dict (λ v. v) usages) ≡ some ("2.0" ∷ [])
unfolding resource_usages_to_dict
last_wins = refl

predictions :
    get_duration_predictions (λ t. ok t) (codes "0.1=2;0.2=3")
    ≡ (codes "0.1", codes "2") ∷ (codes "0.2", codes "3") ∷ []
unfolding get_duration_predictions
predictions = refl

no_predictions : get_duration_predictions (λ t. ok t) (codes "0.1=2;") ≡ []
unfolding get_duration_predictions
no_predictions = refl

failure : get_resource_usage (λ (v : String). v) "nan" (raise exception) (λ u. ok tt) 3 ≡ ([], 4)
unfolding get_resource_usage
failure = refl
