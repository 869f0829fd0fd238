-- ===== src/Monitor/ResourceUsage/Tests.antt =====
-- Usages of two workloads, with texts for floats.
use titus_isolate.Prelude.{◌≡◌, refl, String, [], ◌∷◌}
use titus_isolate.Monitor.ResourceUsage.{
  Usage, pad_values, pad_usage, get_all_usage_for_workload, serialize, deserialize,
}
use titus_isolate.Monitor.ResourceUsage.Padded.{AllLength, get_all_usage_for_workload-AllLength}
use titus_isolate.Monitor.ResourceUsage.RoundTrip.{deserialize-serialize}

abbrev nan : String
nan = "nan"

abbrev usage : Usage nan
usage =
    ("cpu_usage", ("a", "1.0" ∷ "2.0" ∷ "3.0" ∷ []) ∷ ("b", "4.0" ∷ []) ∷ [])
    ∷ ("mem_usage", ("a", []) ∷ [])
    ∷ []

get_all_usage_for_workload-AllLength_example :
    AllLength nan 2 (get_all_usage_for_workload nan (pad_usage nan usage 2) "a")
get_all_usage_for_workload-AllLength_example = get_all_usage_for_workload-AllLength nan usage 2 "a"

deserialize-serialize_example :
    deserialize nan (λ v. v) (λ s. s) (serialize nan (λ v. v) (λ s. s) (pad_usage nan usage 2))
    ≡ pad_usage nan usage 2
deserialize-serialize_example = deserialize-serialize nan (λ v. v) (λ s. s) (λ v. refl) usage 2

padded_b : pad_values nan 3 ("4.0" ∷ []) ≡ nan ∷ nan ∷ "4.0" ∷ []
unfolding pad_values
padded_b = refl
