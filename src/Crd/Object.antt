-- ===== src/Crd/Object.antt =====
-- What titus_isolate/crd/publish/kubernetes_predicted_usage_publisher.py sends to the api: the resource
-- (titus_isolate/crd/model/resource_usage_prediction.py) of a node (titus_isolate/kub/utils.py), and the calls.
use titus_isolate.Prelude.{
  ℕ, String, List, [], ◌∷◌, Option, none, some, if◌then◌else◌, nat_beq, string_eq, Dict, lookup,
  Result, ok, raise, Error, exception,
}
use titus_isolate.Pod.{Resources}
use titus_isolate.Crd.{ResourceUsagePrediction}
use titus_isolate.Crd.Predictions.{ResourceUsagePredictions}

pub record NodeMetadata : Type 0 where
  pub name : String
  pub uid : String
  pub annotations : Option (Dict String String)

pub record Node : Type 0 where
  pub api_version : String
  pub kind : String
  pub metadata : Option NodeMetadata

-- `get_instance_type(node)`
unfoldable pub get_instance_type : Node → Result String
get_instance_type node = elim node.metadata [
  | none ↦ ok "unknown"
  | some metadata ↦ elim metadata.annotations [
    | none ↦ raise exception
    | some annotations ↦ elim (lookup "node.titus.netflix.com/itype" annotations) [
      | none ↦ ok "unknown"
      | some instance_type ↦ ok instance_type
    ]
  ]
]

pub record CondensedResourceUsagePrediction (Value : Type 0) : Type 0 where
  pub prediction : ResourceUsagePrediction Value
  pub resource_usage_predictions : ResourceUsagePredictions Value
  pub resources_allocated : Resources
  pub instance_type : String
  pub num_batch_containers : ℕ
  pub num_service_containers : ℕ
  pub resources_capacity : Resources

pub record V1ObjectMeta : Type 0 where
  pub namespace : String
  pub name : String
  pub labels : Dict String String
  pub owner_api_version : String
  pub owner_kind : String
  pub owner_name : String
  pub owner_uid : String

pub record ResourceUsagePredictionsResource (Value : Type 0) : Type 0 where
  pub metadata : V1ObjectMeta
  pub spec : CondensedResourceUsagePrediction Value

-- A call of the api, with the object it sends; `patch` also has the name of the object.
pub data ApiCall (Value : Type 0) : Type 0 where
  patch : String → ResourceUsagePredictionsResource Value → ApiCall Value
  create : ResourceUsagePredictionsResource Value → ApiCall Value

-- What a patch answers: it is done, an ApiException with a status, or another exception.
pub data PatchAnswer : Type 0 where
  patched : PatchAnswer
  api_exception : ℕ → PatchAnswer
  failed : Error → PatchAnswer

abbrev pub new_metadata : Node → NodeMetadata → V1ObjectMeta
new_metadata node m = record {
  namespace = "default";
  name = m.name;
  labels = ("node_name", m.name) ∷ ("node_uid", m.uid) ∷ [];
  owner_api_version = node.api_version;
  owner_kind = node.kind;
  owner_name = m.name;
  owner_uid = m.uid;
}

-- The calls of the api, with what comes of them.
unfoldable pub send :
    {Value : Type 0}
    → PatchAnswer
    → Result (Unit {0})
    → String
    → ResourceUsagePredictionsResource Value
    → List (ApiCall Value) × Result (Unit {0})
send patched create_answer name body = (patch name body ∷ [], ok tt)
send (failed e) create_answer name body = (patch name body ∷ [], raise e)
send (api_exception status) create_answer name body =
    if nat_beq status 404
    then (patch name body ∷ create body ∷ [], create_answer)
    else (patch name body ∷ [], ok tt)
