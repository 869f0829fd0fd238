-- ===== src/Monitor/Collected.antt =====
-- titus_isolate/monitor/utils.py and workload_monitor_manager.py. Floats and their texts are parameters, and so is
-- the provider of resource usages.
pub mod Latest
mod Tests
use titus_isolate.Prelude.{
  ℕ, suc, String, List, [], ◌∷◌, Option, none, some, map, string_eq, Dict, lookup, insert, Result,
  ok, raise, ◌>>=◌, exception,
}
use titus_isolate.Text.{Text, codes, split}
use titus_isolate.Json.{Json}
use titus_isolate.Monitor.ResourceUsage.{Usage, pad_usage}

pub record ResourceUsage (Value : Type 0) : Type 0 where
  pub workload_id : String
  pub resource_name : String
  pub start_time_epoch_sec : Json
  pub interval_sec : ℕ
  pub values : List Value

abbrev pub or_empty {ℓ} : {A : Type ℓ} → Option (Dict String A) → Dict String A
or_empty none = []
or_empty (some d) = d

module _ {Value : Type 0} (print : Value → String) where
  -- The loop of `resource_usages_to_dict`; the inner dict is changed in place.
  unfoldable pub add_usages :
      List (ResourceUsage Value)
      → Dict String (Dict String (List String))
      → Dict String (Dict String (List String))
  add_usages [] d = d
  add_usages (u ∷ usages) d = add_usages usages (
      insert u.resource_name
        (insert u.workload_id (map print u.values) (or_empty (lookup u.resource_name d))) d)

  unfoldable pub resource_usages_to_dict :
      List (ResourceUsage Value) → Dict String (Dict String (List String))
  unfolding add_usages
  resource_usages_to_dict usages = add_usages usages []

  -- `WorkloadMonitorManager.get_resource_usage(workload_ids)`: the usage, and how many calls failed. The
  -- constructor pads the texts; the log line serializes the usage, which may raise.
  unfoldable pub get_resource_usage :
      (nan : String)
      → Result (List (ResourceUsage Value))
      → (Usage nan → Result (Unit {0}))
      → ℕ
      → Usage nan × ℕ
  unfolding resource_usages_to_dict pad_usage
  get_resource_usage nan usages serialize failures =
      elim (usages >>= λ us.
      let usage = pad_usage nan (resource_usages_to_dict us) 60 in
      serialize usage >>= λ u. ok usage) [
        | ok usage ↦ (usage, failures)
        | raise e ↦ ([], suc failures)
      ]

-- `get_duration_predictions(input_str)`: the pairs of a percentile and a duration, where `float` reads a
-- text; a part without just one `=`, or a text that is no float, gives no predictions at all.
module _ {Float : Type 0} (float : Text → Result Float) where
  abbrev key_value : List Text → Result (Float × Float)
  key_value [] = raise exception
  key_value (k ∷ []) = raise exception
  key_value (k ∷ v ∷ []) = float k >>= λ a. float v >>= λ b. ok (a, b)
  key_value (k ∷ v ∷ w ∷ parts) = raise exception

  unfoldable pub read_pairs : List Text → Result (List (Float × Float))
  read_pairs [] = ok []
  read_pairs (p ∷ pairs) =
      key_value (split b'=' p) >>= λ kv. read_pairs pairs >>= λ rest. ok (kv ∷ rest)

  unfoldable pub get_duration_predictions : Text → List (Float × Float)
  unfolding read_pairs
  get_duration_predictions input_str = elim (read_pairs (split b';' input_str)) [
    | ok predictions ↦ predictions
    | raise e ↦ []
  ]
