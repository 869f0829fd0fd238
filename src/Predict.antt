-- ===== src/Predict.antt =====
-- titus_isolate/predict/resource_usage_predictor.py. Floats and their texts are parameters; the service's answer
-- to a request is an argument, with its status code, as are the paths and the URL of a request, which the
-- config manager may not give.
use titus_isolate.Prelude.{
  ℕ, String, Bool, true, false, List, [], ◌∷◌, Option, none, some, ◌&&◌, if◌then◌else◌, ◌==◌, not,
  nat_beq, map, take, string_eq, Dict, lookup, insert, Result, ok, raise, exception, key_error,
  index_error, ◌>>=◌,
}
use titus_isolate.Text.{Text}
use titus_isolate.Pod.{V1Pod, get_main_container_status, get_start_time, get_job_id}
use titus_isolate.Monitor.ResourceUsage.{Usage, get_all_usage_for_workload}
use titus_isolate.Crd.{ResourceUsagePrediction}
use titus_isolate.Crd.Predictions.{RawPredictions, ResourceUsagePredictions, new_predictions}

abbrev pub resource_heading_mappings : Dict String String
resource_heading_mappings =
    ("cpu_usage", "cpu")
    ∷ ("mem_usage", "mem")
    ∷ ("net_recv_usage", "net_recv")
    ∷ ("net_trans_usage", "net_trans")
    ∷ ("disk_usage", "disk")
    ∷ []

abbrev or_key_error {ℓ} : {A : Type ℓ} → Option A → Result A
or_key_error none = raise key_error
or_key_error (some a) = ok a

-- `is_running(pod)`; the state of a status may be None, whose attribute raises.
unfoldable pub is_running : V1Pod → Result Bool
unfolding get_main_container_status
is_running pod =
    if not (pod.phase == "Running") then ok false else elim (get_main_container_status pod) [
      | none ↦ ok false
      | some status ↦ elim status.state [
        | none ↦ raise exception
        | some running ↦ elim running [ none ↦ ok false | some started ↦ ok true ]
      ]
    ]

abbrev first_value {ℓ} : {A : Type ℓ} → List A → Result A
first_value [] = raise index_error
first_value (x ∷ xs) = ok x

pub record JobBody : Type 0 where
  pub task_id : String
  pub job_id : String
  pub started_ts_ms : Option ℕ
  pub past_usage : Dict String (List String)

-- `[f(p) for p in pods]`
abbrev pub for_each {ℓ κ} : {A : Type ℓ} {B : Type κ} → (A → Result B) → List A → Result (List B)
for_each f [] = ok []
for_each f (x ∷ xs) = f x >>= λ y. for_each f xs >>= λ ys. ok (y ∷ ys)

module _ {Value : Type 0} (nan : Value) (print : Value → String) (float : Text → Result Value) where
  -- `get_first_window_cpu_prediction(prediction)`
  unfoldable pub get_first_window_cpu_prediction : ResourceUsagePrediction Value → Result Value
  get_first_window_cpu_prediction prediction =
      or_key_error (lookup "cpu" prediction.resource_type_predictions) >>= λ cpu_predictions.
      or_key_error (lookup "p95" cpu_predictions.predictions) >>= first_value

  -- The loop of `__translate_usage`
  unfoldable pub translate_from :
      Dict String (List Value) → Dict String (List String) → Result (Dict String (List String))
  translate_from [] out_usage = ok out_usage
  translate_from ((resource_name, values) ∷ usages) out_usage =
      or_key_error (lookup resource_name resource_heading_mappings) >>= λ heading.
      translate_from usages (insert heading (take 60 (map print values)) out_usage)

  unfoldable pub translate_usage : Dict String (List Value) → Result (Dict String (List String))
  unfolding translate_from
  translate_usage usages = translate_from usages []

  -- `__get_job_body(pod, resource_usage)`
  unfoldable pub get_job_body : Usage nan → V1Pod → Result JobBody
  unfolding translate_usage get_job_id get_start_time get_all_usage_for_workload
  get_job_body resource_usage pod = get_job_id pod >>= λ job_id.
      translate_usage (get_all_usage_for_workload nan resource_usage pod.name) >>= λ past_usage.
      ok (record {
        task_id = pod.name;
        job_id = job_id;
        started_ts_ms = get_start_time pod;
        past_usage = past_usage;
      })

  -- `get_predictions(client_cert_path, client_key_path, url, body)`: an answer other than 200 is None.
  unfoldable pub service_predictions :
      Result (ℕ × Result (RawPredictions Value)) → Result (Option (RawPredictions Value))
  service_predictions answer = answer >>= λ (status_code, body).
      if nat_beq status_code 200 then (body >>= λ raw. ok (some raw)) else ok none

  abbrev is_given {ℓ} : {A : Type ℓ} → Option A → Bool
  is_given none = false
  is_given (some a) = true

  -- What a request needs of the config manager: the paths of a certificate and a key, and the URL.
  pub record Settings : Type 0 where
    pub client_crt : Option String
    pub client_key : Option String
    pub url : Option String

  abbrev read_answer :
      Result (Option (RawPredictions Value)) → Result (Option (ResourceUsagePredictions Value))
  read_answer r = r >>= λ raw. elim raw [
    | none ↦ ok none
    | some raw ↦ new_predictions float raw >>= λ predictions. ok (some predictions)
  ]

  -- `ResourceUsagePredictor.get_predictions(running_pods, resource_usage)`
  unfoldable pub get_predictions :
      Option Settings
      → (List JobBody → Result (ℕ × Result (RawPredictions Value)))
      → List V1Pod
      → Usage nan
      → Result (Option (ResourceUsagePredictions Value))
  unfolding service_predictions get_job_body new_predictions
  get_predictions config_manager ask running_pods resource_usage = elim config_manager [
    | none ↦ ok none
    | some c ↦
        if is_given c.client_crt && is_given c.client_key && is_given c.url
        then (for_each (get_job_body resource_usage) running_pods >>= λ body.
            read_answer (service_predictions (ask body)))
        else ok none
  ]

  -- The loop over the predictions in `get_cpu_predictions`.
  unfoldable pub first_windows :
      Dict String (ResourceUsagePrediction Value) → Dict String Value → Result (Dict String Value)
  unfolding get_first_window_cpu_prediction
  first_windows [] predictions = ok predictions
  first_windows ((w_id, prediction) ∷ rest) predictions =
      get_first_window_cpu_prediction prediction >>= λ first.
      first_windows rest (insert w_id first predictions)

  -- The pods that the pod manager has of some workloads.
  unfoldable pub known_pods : (String → Option V1Pod) → List String → List V1Pod
  known_pods get_pod [] = []
  known_pods get_pod (id ∷ ids) =
      let rest = known_pods get_pod ids in elim (get_pod id) [ none ↦ rest | some pod ↦ pod ∷ rest ]

  -- `ResourceUsagePredictor.get_cpu_predictions(workloads, resource_usage)`, of the ids of the workloads.
  unfoldable pub get_cpu_predictions :
      Option (String → Option V1Pod)
      → Option Settings
      → (List JobBody → Result (ℕ × Result (RawPredictions Value)))
      → List String
      → Usage nan
      → Result (Option (Dict String Value))
  unfolding get_predictions first_windows known_pods
  get_cpu_predictions none config_manager ask workloads resource_usage = ok none
  get_cpu_predictions (some get_pod) config_manager ask workloads resource_usage =
      get_predictions config_manager ask (known_pods get_pod workloads) resource_usage >>= λ answer.
      elim answer [
        | none ↦ ok (some [])
        | some answer ↦ first_windows answer.predictions [] >>= λ predictions. ok (some predictions)
      ]
