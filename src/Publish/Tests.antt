-- ===== src/Publish/Tests.antt =====
-- A host with two pods, of which one runs, and what is published of it.
use titus_isolate.Prelude.{
  ℕ, ◌+◌, ◌≡◌, refl, String, List, [], ◌∷◌, some, Result, Error, ok, raise, ℤ, pos,
}
use titus_isolate.Text.{Text, codes, int}
use titus_isolate.Pod.{V1Pod, Resources, get_main_container_status, get_requested_resources}
use titus_isolate.Crd.{condense_predictions}
use titus_isolate.Crd.Resources.{no_resources}
use titus_isolate.Crd.Predictions.{ResourceUsagePredictions, no_raw, new_predictions}
use titus_isolate.Predict.{is_running, get_predictions}
use titus_isolate.Crd.Object.{
  Node, NodeMetadata, api_exception, ResourceUsagePredictionsResource, patch, create,
  get_instance_type,
}
use titus_isolate.Publish.{Surroundings, KubernetesPredictedUsagePublisher, running_of, publish}
use titus_isolate.Publish.Sent.{publish-sent, publish-none}

abbrev pod_of : String → String → String → V1Pod
pod_of name job_type phase = record {
  name = name;
  labels = some (("v3.job.titus.netflix.com/job-id", "j") ∷ []);
  annotations = some (("titus.agent.jobType", job_type) ∷ []);
  phase = phase;
  containers =
      record {
        name = "main";
        requests =
            ("cpu", "4")
            ∷ ("memory", "8")
            ∷ ("ephemeral-storage", "9")
            ∷ ("titus/network", "1")
            ∷ [];
      }
      ∷ [];
  container_statuses = record { name = "main"; state = some (some 5) } ∷ [];
}

abbrev float : Text → Result ℕ
float t = ok 0

abbrev quantity : String → Result ℤ
quantity s = int (codes s)

abbrev metadata : NodeMetadata
metadata = record { name = "i-1"; uid = "u"; annotations = some [] }

abbrev node : Node
node = record { api_version = "v1"; kind = "Node"; metadata = some metadata }

abbrev request : Resources
request = record { cpu = pos 4; mem = pos 8; disk = pos 9; net = pos 1; gpu = pos 0 }

-- The service answers with a status.
abbrev host : ℕ → Surroundings ℕ 0
host status = record {
  first_pods = pod_of "a" "BATCH" "Running" ∷ pod_of "b" "BATCH" "Pending" ∷ [];
  pods =
      pod_of "a" "BATCH" "Running"
      ∷ pod_of "b" "BATCH" "Pending"
      ∷ pod_of "c" "SERVICE" "Running"
      ∷ [];
  utc_seconds = 7;
  get_resource_usage = λ ids. [];
  predictions_of =
      get_predictions 0 (λ v. "0") float
        (some (record { client_crt = some "crt"; client_key = some "key"; url = some "url" }))
        (λ body. ok (status, ok no_raw));
  get_node = ok node;
  patch_answer = api_exception 404;
  create_answer = ok tt;
}

abbrev publisher : KubernetesPredictedUsagePublisher
publisher = record { resources_capacity = no_resources; parse_pod_req_resources_fail_count = 0 }

abbrev running : List V1Pod
running = pod_of "a" "BATCH" "Running" ∷ pod_of "c" "SERVICE" "Running" ∷ []

running_lem : (status : ℕ) → running_of (host status).pods ≡ ok running
unfolding running_of is_running get_main_container_status
running_lem status = refl

publish-none_example :
    let sent = publish 0 (λ a b. a + b) float quantity (host 500) publisher in
    (sent.1 ≡ []) × (e : Error) × (sent.2 ≡ raise e)
unfolding get_predictions
publish-none_example =
    publish-none 0 (λ a b. a + b) float quantity (host 500) publisher (pod_of "a" "BATCH" "Running")
      (pod_of "b" "BATCH" "Pending" ∷ []) running refl (running_lem 500) refl

abbrev no_predictions : ResourceUsagePredictions ℕ
no_predictions = record {
  model_version = "UNKNOWN_MODEL_VERSION";
  model_instance_id = "UNKNOWN_MODEL_INSTANCE_ID";
  prediction_ts_ms = pos 0;
  metadata = [];
  predictions = [];
  pred_time2empty_batch = [];
}

abbrev sent_body : ResourceUsagePredictionsResource ℕ
sent_body = record {
  metadata = record {
    namespace = "default";
    name = "i-1";
    labels = ("node_name", "i-1") ∷ ("node_uid", "u") ∷ [];
    owner_api_version = "v1";
    owner_kind = "Node";
    owner_name = "i-1";
    owner_uid = "u";
  };
  spec = record {
    prediction = record { resource_type_predictions = [] };
    resource_usage_predictions = no_predictions;
    resources_allocated = record {
      cpu = pos 8;
      mem = pos 16;
      disk = pos 18;
      net = pos 2;
      gpu = pos 0;
    };
    instance_type = "unknown";
    num_batch_containers = 1;
    num_service_containers = 1;
    resources_capacity = no_resources;
  };
}

publish-sent_example :
    let sent = publish 0 (λ a b. a + b) float quantity (host 200) publisher in
    (sent.0 ≡ publisher) × (sent.1 ≡ patch "i-1" sent_body ∷ create sent_body ∷ [])
unfolding get_predictions get_requested_resources get_instance_type condense_predictions
    new_predictions int
publish-sent_example =
    publish-sent 0 (λ a b. a + b) float quantity (host 200) publisher (pod_of "a" "BATCH" "Running")
      (pod_of "b" "BATCH" "Pending" ∷ []) running (request ∷ request ∷ [])
      (some "BATCH" ∷ some "SERVICE" ∷ []) no_predictions
      (record { resource_type_predictions = [] }) node metadata "unknown" refl (running_lem 200)
      refl refl refl refl refl refl refl
