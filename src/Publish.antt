-- ===== src/Publish.antt =====
-- titus_isolate/crd/publish/kubernetes_predicted_usage_publisher.py. The clients of the api and
-- of the prediction service, the clock and the usage are arguments; a call of the api is recorded.
pub mod Totals
pub mod Sent
mod Tests
use titus_isolate.Prelude.{
  ℕ, ◌*◌, ◌+◌, String, List, [], ◌∷◌, Option, none, some, if◌then◌else◌, nat_beq, map, string_eq,
  Dict, lookup, Result, ok, raise, Error, exception, ◌>>=◌, ℤ, pos,
}
use titus_isolate.Text.{Text}
use titus_isolate.Pod.{V1Pod, Resources, get_requested_resources, is_batch_pod, is_service_pod}
use titus_isolate.Monitor.ResourceUsage.{Usage}
use titus_isolate.Crd.{ResourceUsagePrediction, condense_predictions}
use titus_isolate.Crd.Resources.{no_resources, add_resources}
use titus_isolate.Crd.Predictions.{ResourceUsagePredictions, new_predictions, no_raw}
use titus_isolate.Crd.Object.{
  Node, get_instance_type, CondensedResourceUsagePrediction, ResourceUsagePredictionsResource,
  ApiCall, PatchAnswer, new_metadata, send,
}
use titus_isolate.Predict.{is_running}

-- `[p for p in pods if is_running(p)]`
unfoldable pub running_of : List V1Pod → Result (List V1Pod)
unfolding is_running
running_of [] = ok []
running_of (p ∷ pods) =
    is_running p >>= λ runs. running_of pods >>= λ rest. ok (if runs then p ∷ rest else rest)

-- The loop of `__compute_num_containers`
unfoldable pub count_from : List V1Pod → ℕ → ℕ → Result (ℕ × ℕ)
unfolding is_batch_pod is_service_pod
count_from [] num_batch num_service = ok (num_batch, num_service)
count_from (pod ∷ pods) num_batch num_service = is_batch_pod pod >>= λ batch.
    if batch
    then count_from pods (num_batch + 1) num_service
    else (is_service_pod pod >>= λ service.
        count_from pods num_batch (if service then num_service + 1 else num_service))

unfoldable pub compute_num_containers : List V1Pod → Result (ℕ × ℕ)
unfolding count_from
compute_num_containers running_pods = count_from running_pods 0 0

pub record KubernetesPredictedUsagePublisher : Type 0 where
  pub resources_capacity : Resources
  pub parse_pod_req_resources_fail_count : ℕ

-- `report_metrics()`: what is added to the counter, and the publisher after it.
unfoldable pub report_metrics :
    KubernetesPredictedUsagePublisher → ℕ × KubernetesPredictedUsagePublisher
report_metrics self = (
  self.parse_pod_req_resources_fail_count,
  record self { parse_pod_req_resources_fail_count = 0 },
)

module _ (quantity : String → Result ℤ) where
  -- The loop of `__compute_allocated_resources`
  unfoldable pub allocated_from : List V1Pod → Resources → Result Resources
  unfolding get_requested_resources add_resources
  allocated_from [] tot_resources = ok tot_resources
  allocated_from (pod ∷ pods) tot_resources = get_requested_resources quantity pod >>= λ r.
      allocated_from pods (add_resources tot_resources r)

  unfoldable pub compute_allocated_resources : List V1Pod → Result Resources
  unfolding allocated_from
  compute_allocated_resources running_pods = allocated_from running_pods no_resources

-- What the publisher reads of the other parts in one call: the pods, twice, the clock, the usage of some workloads,
-- the answer of the predictor to running pods with their usage, the node, and the answers of the api.
pub record Surroundings (Value : Type 0) (nan : Value) : Type 0 where
  pub first_pods : List V1Pod
  pub pods : List V1Pod
  pub utc_seconds : ℕ
  pub get_resource_usage : List String → Usage nan
  pub predictions_of : List V1Pod → Usage nan → Result (Option (ResourceUsagePredictions Value))
  pub get_node : Result Node
  pub patch_answer : PatchAnswer
  pub create_answer : Result (Unit {0})

module _ {Value : Type 0} (nan : Value) (plus : Value → Value → Value) (float : Text → Result Value)
    (quantity : String → Result ℤ) where
  -- What `publish` has before it asks for the node: predictions, allocated resources, and the two counts.
  abbrev pub Parts : Type 0
  Parts = Option (ResourceUsagePredictions Value) × Resources × ℕ × ℕ

  -- The branch without pods
  unfoldable pub idle_parts : ℕ → Result Parts
  unfolding new_predictions
  idle_parts seconds = new_predictions float no_raw >>= λ predictions.
      ok (some (record predictions { prediction_ts_ms = pos (1000 * seconds) }), no_resources, 0, 0)

  -- The branch with pods, once the allocated resources are computed
  unfoldable pub running_parts : Surroundings Value nan → List V1Pod → Resources → Result Parts
  unfolding compute_num_containers
  running_parts around running allocated =
      around.predictions_of running (around.get_resource_usage (map (λ p. p.name) running))
      >>= λ predictions. compute_num_containers running >>= λ counts.
          ok (predictions, allocated, counts.0, counts.1)

  -- `CondensedResourceUsagePrediction(…)`: None has no predictions.
  unfoldable pub new_condensed :
      Parts → String → Resources → Result (CondensedResourceUsagePrediction Value)
  unfolding condense_predictions
  new_condensed (none, allocated, batch, service) instance_type capacity = raise exception
  new_condensed (some predictions, allocated, batch, service) instance_type capacity =
      condense_predictions plus (map (λ e. e.1) predictions.predictions) >>= λ prediction.
      ok (record {
        prediction = prediction;
        resource_usage_predictions = predictions;
        resources_allocated = allocated;
        instance_type = instance_type;
        num_batch_containers = batch;
        num_service_containers = service;
        resources_capacity = capacity;
      })

  -- The object that is sent, with its name.
  unfoldable pub new_resource :
      Result Node
      → Result Parts
      → Resources
      → Result (String × ResourceUsagePredictionsResource Value)
  unfolding get_instance_type new_condensed
  new_resource node parts capacity = parts >>= λ parts. node >>= λ node. elim node.metadata [
    | none ↦ raise exception
    | some metadata ↦ get_instance_type node >>= λ instance_type.
        new_condensed parts instance_type capacity >>= λ condensed.
        ok (metadata.name, record { metadata = new_metadata node metadata; spec = condensed })
  ]

  abbrev pub Outcome : Type 0
  Outcome = KubernetesPredictedUsagePublisher × List (ApiCall Value) × Result (Unit {0})

  -- The second half of `publish`
  unfoldable pub publish_parts :
      Surroundings Value nan → KubernetesPredictedUsagePublisher → Result Parts → Outcome
  unfolding new_resource send
  publish_parts around self parts =
      elim (new_resource around.get_node parts self.resources_capacity) [
        | raise e ↦ (self, [], raise e)
        | ok (name, body) ↦
            let sent = send around.patch_answer around.create_answer name body in
            (self, sent.0, sent.1)
      ]

  -- From the computation of the allocated resources on; a failure of it is counted.
  unfoldable pub publish_running :
      Surroundings Value nan → KubernetesPredictedUsagePublisher → List V1Pod → Outcome
  unfolding publish_parts running_parts compute_allocated_resources
  publish_running around self running = elim (compute_allocated_resources quantity running) [
    | raise e ↦ (
      record self {
        parse_pod_req_resources_fail_count = self.parse_pod_req_resources_fail_count + 1;
      },
      [],
      raise e,
    )
    | ok allocated ↦ publish_parts around self (running_parts around running allocated)
  ]

  -- The test for no pods, which are asked for again after it.
  unfoldable pub publish_pods :
      Surroundings Value nan → KubernetesPredictedUsagePublisher → List V1Pod → Outcome
  unfolding publish_parts publish_running idle_parts running_of
  publish_pods around self [] = publish_parts around self (idle_parts around.utc_seconds)
  publish_pods around self (first ∷ others) = elim (running_of around.pods) [
    | raise e ↦ (self, [], raise e)
    | ok running ↦ publish_running around self running
  ]

  -- `publish()`
  unfoldable pub publish : Surroundings Value nan → KubernetesPredictedUsagePublisher → Outcome
  unfolding publish_pods
  publish around self = publish_pods around self around.first_pods
