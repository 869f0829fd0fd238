-- ===== src/Pod.antt =====
-- What titus_isolate/model/pod_utils.py, titus_isolate/pod/utils.py and kubernetes_workload.py read of a pod, which
-- is an object of the Kubernetes client. Quantities are that client's too, hence parameters.
pub mod PodManager
pub mod View
pub mod Workload
pub mod Retries
mod Tests
use titus_isolate.Prelude.{
  ℕ, suc, String, Bool, false, List, [], ◌∷◌, Option, none, some, if◌then◌else◌, ◌==◌, ◌||◌,
  string_eq, nat_beq, length, keep_if, Dict, lookup, Result, ok, raise, Error, key_error,
  index_error, exception, ◌>>=◌, ℤ, pos,
}

pub record Container : Type 0 where
  pub name : String
  pub requests : Dict String String

-- `state` of a status: None, or whether and since when the container runs, in ms.
pub record ContainerStatus : Type 0 where
  pub name : String
  pub state : Option (Option ℕ)

pub record V1Pod : Type 0 where
  pub name : String
  pub labels : Option (Dict String String)
  pub annotations : Option (Dict String String)
  pub phase : String
  pub containers : List Container
  pub container_statuses : List ContainerStatus

-- The element of a list of just one.
abbrev only {ℓ} : {A : Type ℓ} → List A → Option A
only [] = none
only (x ∷ []) = some x
only (x ∷ y ∷ xs) = none

unfoldable pub get_main_container_status : V1Pod → Option ContainerStatus
get_main_container_status pod = only (
    keep_if (λ (s : ContainerStatus). s.name == "main" || s.name == pod.name)
      pod.container_statuses)

unfoldable pub get_main_container : V1Pod → Option Container
get_main_container pod =
    only (keep_if (λ (c : Container). c.name == "main" || c.name == pod.name) pod.containers)

-- `get_start_time(pod)`, in ms.
unfoldable pub get_start_time : V1Pod → Option ℕ
unfolding get_main_container_status
get_start_time pod = elim (get_main_container_status pod) [
  | none ↦ none
  | some status ↦ elim status.state [ none ↦ none | some running ↦ running ]
]

-- An attribute of None raises.
abbrev or_raise {ℓ} : {A : Type ℓ} → Error → Option A → Result A
or_raise e none = raise e
or_raise e (some a) = ok a

abbrev from_label : Option (Dict String String) → Option String
from_label none = none
from_label (some labels) = lookup "v3.job.titus.netflix.com/job-id" labels

unfoldable pub get_job_id : V1Pod → Result String
get_job_id pod = elim (from_label pod.labels) [
  | some job_id ↦ ok job_id
  | none ↦ or_raise exception pod.annotations >>= λ annotations.
      or_raise exception (lookup "titus.agent.jobId" annotations)
]

abbrev pub job_type : V1Pod → Result (Option String)
job_type pod = or_raise exception pod.annotations >>= λ annotations.
    ok (lookup "titus.agent.jobType" annotations)

abbrev pub is_text : String → Option String → Bool
is_text t none = false
is_text t (some s) = s == t

unfoldable pub is_batch_pod : V1Pod → Result Bool
is_batch_pod pod = job_type pod >>= λ t. ok (is_text "BATCH" t)

unfoldable pub is_service_pod : V1Pod → Result Bool
is_service_pod pod = job_type pod >>= λ t. ok (is_text "SERVICE" t)

-- titus_isolate/crd/model/resources.py
pub record Resources : Type 0 where
  pub cpu : ℤ
  pub mem : ℤ
  pub disk : ℤ
  pub net : ℤ
  pub gpu : ℤ

module _ (quantity : String → Result ℤ) where
  abbrev quantity_at : String → Dict String String → Result ℤ
  quantity_at key r = or_raise key_error (lookup key r) >>= quantity

  -- `r.get(key, '')`
  abbrev get_text : String → Dict String String → String
  get_text key r = elim (lookup key r) [ none ↦ "" | some v ↦ v ]

  abbrev first_requests : List Container → Result (Dict String String)
  first_requests [] = raise index_error
  first_requests (c ∷ cs) = ok c.requests

  -- `get_requested_resources(pod)`; `quantity s` is `int(parse_quantity(s))`.
  unfoldable pub get_requested_resources : V1Pod → Result Resources
  get_requested_resources pod = first_requests pod.containers >>= λ r.
      let disk_str = get_text "ephemeral-storage" r in
      let gpu_str = get_text "nvidia.com/gpu" r in
      (if disk_str == "" then or_raise key_error (lookup "titus/disk" r) else ok disk_str)
      >>= λ disk_str. (if gpu_str == "" then ok (pos 0) else quantity gpu_str) >>= λ gpu.
          quantity_at "cpu" r >>= λ cpu. quantity_at "memory" r >>= λ mem.
          quantity disk_str >>= λ disk. quantity_at "titus/network" r >>= λ net.
          ok (record { cpu = cpu; mem = mem; disk = disk; net = net; gpu = gpu })
