-- ===== src/Crd/Predictions.antt =====
-- titus_isolate/crd/model/resource_usage_prediction.py: ResourceUsagePredictions, what the prediction service
-- answers. `float` of a text is a parameter.
use titus_isolate.Prelude.{
  String, List, [], ◌∷◌, Option, none, some, string_eq, Dict, lookup, insert, erase, Result, ok,
  raise, ◌>>=◌, ℤ,
}
use titus_isolate.Text.{Text, codes, split, int}
use titus_isolate.Crd.{RawPrediction, ResourceUsagePrediction, new_prediction}

-- The raw prediction of a task.
pub record RawTask (Value : Type 0) : Type 0 where
  pub task_id : Option String
  pub resources : Dict String (Option (List (RawPrediction Value)))

pub record RawPredictions (Value : Type 0) : Type 0 where
  pub model_version : Option String
  pub model_instance_id : Option String
  pub prediction_ts_ms : Option Text
  pub meta_data : Option (Dict String Text)
  pub predictions : Option (List (RawTask Value))

pub record ResourceUsagePredictions (Value : Type 0) : Type 0 where
  pub model_version : String
  pub model_instance_id : String
  pub prediction_ts_ms : ℤ
  pub metadata : Dict String Text
  pub predictions : Dict String (ResourceUsagePrediction Value)
  pub pred_time2empty_batch : List Value

-- `raw.get(k, default)`
abbrev pub or_default {ℓ} : {A : Type ℓ} → A → Option A → A
or_default d none = d
or_default d (some a) = a

-- A raw answer without any key.
abbrev pub no_raw : {Value : Type 0} → RawPredictions Value
no_raw = record {
  model_version = none;
  model_instance_id = none;
  prediction_ts_ms = none;
  meta_data = none;
  predictions = none;
}

module _ {Value : Type 0} (float : Text → Result Value) where
  -- The loop over the raw predictions.
  unfoldable pub read_tasks :
      List (RawTask Value)
      → Dict String (ResourceUsagePrediction Value)
      → Result (Dict String (ResourceUsagePrediction Value))
  unfolding new_prediction
  read_tasks [] d = ok d
  read_tasks (p ∷ preds) d = new_prediction p.resources >>= λ prediction.
      read_tasks preds (insert (or_default "UNKNOWN_TASK_ID" p.task_id) prediction d)

  -- `[float(e) for e in …]`
  abbrev pub floats : List Text → Result (List Value)
  floats [] = ok []
  floats (e ∷ es) = float e >>= λ v. floats es >>= λ vs. ok (v ∷ vs)

  -- The times of the metadata: read and taken out of it, or left as they are if one is no float.
  unfoldable pub read_times : Dict String Text → List Value × Dict String Text
  read_times metadata = elim (lookup "pred_time2empty_batch" metadata) [
    | none ↦ ([], metadata)
    | some content ↦ elim (floats (split b',' content)) [
      | raise _ ↦ ([], metadata)
      | ok times ↦ (times, erase "pred_time2empty_batch" metadata)
    ]
  ]

  -- `ResourceUsagePredictions(raw)`
  unfoldable pub new_predictions : RawPredictions Value → Result (ResourceUsagePredictions Value)
  unfolding read_tasks read_times
  new_predictions raw = int (or_default (codes "0") raw.prediction_ts_ms) >>= λ ts.
      read_tasks (or_default [] raw.predictions) [] >>= λ predictions.
      let (times, metadata) = read_times (or_default [] raw.meta_data) in
      ok (record {
        model_version = or_default "UNKNOWN_MODEL_VERSION" raw.model_version;
        model_instance_id = or_default "UNKNOWN_MODEL_INSTANCE_ID" raw.model_instance_id;
        prediction_ts_ms = ts;
        metadata = metadata;
        predictions = predictions;
        pred_time2empty_batch = times;
      })
