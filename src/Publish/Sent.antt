-- ===== src/Publish/Sent.antt =====
-- What a call of the publisher sends to the api.
use titus_isolate.Prelude.{
  ℕ, ◌≡◌, refl, ap, ◌∙◌, String, List, [], ◌∷◌, Option, none, some, inl, inr, if◌then◌else◌,
  nat_beq, map, Result, ok, raise, Error, exception, Result-cases, Option-cases, ℤ, arith,
}
use titus_isolate.Text.{Text}
use titus_isolate.Pod.{V1Pod, Resources, get_requested_resources, job_type}
use titus_isolate.Crd.{ResourceUsagePrediction, condense_predictions}
use titus_isolate.Crd.Predictions.{ResourceUsagePredictions}
use titus_isolate.Predict.{for_each}
use titus_isolate.Crd.Object.{
  ResourceUsagePredictionsResource, Node, NodeMetadata, ApiCall, patch, create, PatchAnswer,
  patched, api_exception, failed, new_metadata, get_instance_type, send,
}
use titus_isolate.Publish.{
  KubernetesPredictedUsagePublisher, Surroundings, Parts, running_of, compute_allocated_resources,
  compute_num_containers, new_condensed, new_resource, running_parts, publish_parts,
  publish_running, publish_pods, publish,
}
use titus_isolate.Publish.Totals.{
  total_of, count_of, compute_allocated_resources-total, compute_num_containers-counts,
}

-- What is sent after a patch.
abbrev pub after_patch :
    {Value : Type 0} → PatchAnswer → ResourceUsagePredictionsResource Value → List (ApiCall Value)
after_patch patched body = []
after_patch (failed e) body = []
after_patch (api_exception status) body = if nat_beq status 404 then create body ∷ [] else []

send-calls :
    {Value : Type 0} (answer : PatchAnswer) (created : Result (Unit {0})) (name : String)
    (body : ResourceUsagePredictionsResource Value)
    → (send answer created name body).0 ≡ patch name body ∷ after_patch answer body
unfolding send
send-calls patched created name body = refl
send-calls (failed e) created name body = refl
send-calls (api_exception status) created name body = ground arith

module _ {Value : Type 0} (nan : Value) (plus : Value → Value → Value) (float : Text → Result Value)
    (quantity : String → Result ℤ) (around : Surroundings Value nan)
    (self : KubernetesPredictedUsagePublisher) where
  publish-running :
      (first : V1Pod) (others running : List V1Pod)
      → around.first_pods ≡ first ∷ others
      → running_of around.pods ≡ ok running
      → publish nan plus float quantity around self
        ≡ publish_running nan plus float quantity around self running
  unfolding publish publish_pods
  publish-running first others running pods runs =
      let asked : publish_pods nan plus float quantity around self (first ∷ others)
          ≡ publish_running nan plus float quantity around self running =
        rw (publish_pods, runs) refl in
      ap (publish_pods nan plus float quantity around self) pods ∙ asked

  publish_parts-raises :
      (parts : Result (Parts nan plus float quantity)) (e : Error)
      → new_resource nan plus float quantity around.get_node parts self.resources_capacity ≡ raise e
      → let sent = publish_parts nan plus float quantity around self parts in
        (sent.1 ≡ []) × (e : Error) × (sent.2 ≡ raise e)
  unfolding publish_parts
  publish_parts-raises parts e raises = rw (publish_parts, raises) (refl, e, refl)

  new_resource-none :
      (allocated : Resources) (batch service : ℕ)
      → (e : Error) × (new_resource nan plus float quantity around.get_node
            (ok (none, allocated, batch, service))
            self.resources_capacity
          ≡ raise e)
  unfolding new_resource new_condensed
  new_resource-none allocated batch service = elim (Result-cases around.get_node) [
    | inr (e, raises) ↦ (e, rw (new_resource, raises) refl)
    | inl (node, got) ↦ elim (Option-cases node.metadata) [
      | inl unnamed ↦ (exception, rw (new_resource, got, unnamed) refl)
      | inr (m, named) ↦ elim (Result-cases (get_instance_type node)) [
        | inr (e, raises) ↦ (e, rw (new_resource, got, named, raises) refl)
        | inl (t, typed) ↦ (exception, rw (new_resource, got, named, typed) refl)
      ]
    ]
  ]

  -- Where there are pods, those that run are found, and the predictor has no answer for them,
  -- publish sends nothing to the api and raises.
  pub publish-none :
      (first : V1Pod) (others running : List V1Pod)
      → around.first_pods ≡ first ∷ others
      → running_of around.pods ≡ ok running
      → around.predictions_of running (around.get_resource_usage (map (λ p. p.name) running))
        ≡ ok none
      → let sent = publish nan plus float quantity around self in
        (sent.1 ≡ []) × (e : Error) × (sent.2 ≡ raise e)
  unfolding publish_running publish_parts running_parts
  publish-none first others running pods runs predicted =
      rw (publish-running first others running pods runs)
        (elim (Result-cases (compute_allocated_resources quantity running)) [
          | inr (e, raises) ↦ rw (publish_running, raises) (refl, e, refl)
          | inl (allocated, read) ↦
              rw (publish_running, read, running_parts, predicted)
                (elim (Result-cases (compute_num_containers running)) [
                  | inr (e, raises) ↦ rw raises (publish_parts-raises (raise e) e refl)
                  | inl (counts, counted) ↦
                      let raised = new_resource-none allocated counts.0 counts.1 in
                      rw counted (
                        publish_parts-raises (ok (none, allocated, counts.0, counts.1)) raised.0
                          raised.1)
                ])
        ])

  abbrev body_of :
      List Resources
      → List (Option String)
      → ResourceUsagePredictions Value
      → ResourceUsagePrediction Value
      → Node
      → NodeMetadata
      → String
      → ResourceUsagePredictionsResource Value
  body_of rs types predictions prediction node m instance_type = record {
    metadata = new_metadata node m;
    spec = record {
      prediction = prediction;
      resource_usage_predictions = predictions;
      resources_allocated = total_of rs;
      instance_type = instance_type;
      num_batch_containers = count_of "BATCH" types;
      num_service_containers = count_of "SERVICE" types;
      resources_capacity = self.resources_capacity;
    };
  }

  -- Where there are pods, the running ones' requests and job types are read, the predictor answers
  -- with predictions that can be condensed, and the node has metadata and a type: publish patches
  -- one object, under the node's name, and creates it if and only if the patch answers 404. For each
  -- resource the object has the sum of the running pods' requests, whatever their order, and it has
  -- how many of them are of each job type.
  pub publish-sent :
      (first : V1Pod) (others running : List V1Pod) (rs : List Resources)
      (types : List (Option String)) (predictions : ResourceUsagePredictions Value)
      (prediction : ResourceUsagePrediction Value) (node : Node) (m : NodeMetadata)
      (instance_type : String)
      → around.first_pods ≡ first ∷ others
      → running_of around.pods ≡ ok running
      → for_each (get_requested_resources quantity) running ≡ ok rs
      → for_each job_type running ≡ ok types
      → around.predictions_of running (around.get_resource_usage (map (λ p. p.name) running))
        ≡ ok (some predictions)
      → condense_predictions plus (map (λ e. e.1) predictions.predictions) ≡ ok prediction
      → around.get_node ≡ ok node
      → node.metadata ≡ some m
      → get_instance_type node ≡ ok instance_type
      → let body = body_of rs types predictions prediction node m instance_type in
        let sent = publish nan plus float quantity around self in
        (sent.0 ≡ self) × (sent.1 ≡ patch m.name body ∷ after_patch around.patch_answer body)
  unfolding publish_running publish_parts running_parts new_resource new_condensed
  publish-sent first others running rs types predictions prediction node m instance_type pods runs
        read typed predicted condensed got named typed_node =
      rw
        (
          publish-running first others running pods runs,
          publish_running,
          compute_allocated_resources-total quantity running,
          read,
          publish_parts,
          running_parts,
          predicted,
          compute_num_containers-counts running,
          typed,
          new_resource,
          got,
          named,
          typed_node,
          new_condensed,
          condensed,
        )
        (
          refl,
          send-calls around.patch_answer around.create_answer m.name
              (body_of rs types predictions prediction node m instance_type),
        )
