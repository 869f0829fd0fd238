-- ===== src/Pod/Tests.antt =====
-- A pod with a main container, events about it, and a pod manager that answers late.
use titus_isolate.Prelude.{
  ℕ, zero, suc, ◌<◌, ◌≡◌, refl, true, false, [], ◌∷◌, Option, none, some, ok, pos, arith,
}
use titus_isolate.Text.{codes, int}
use titus_isolate.Pod.{
  V1Pod, Container, get_main_container, get_job_id, get_requested_resources, is_batch_pod,
  is_service_pod,
}
use titus_isolate.Pod.PodManager.{watch, handle_event, store_pod, delete_pod}
use titus_isolate.Pod.View.{Represents, view_watch, watch-refines}
use titus_isolate.Pod.Workload.{get_workload, to_option, new_kubernetes_workload}
use titus_isolate.Pod.Retries.{get_workload-first}

abbrev container : Container
container = record {
  name = "main";
  requests = ("cpu", "4") ∷ ("memory", "8") ∷ ("titus/disk", "9") ∷ ("titus/network", "1") ∷ [];
}

abbrev pod : V1Pod
pod = record {
  name = "p";
  labels = none;
  annotations = some (("titus.agent.jobId", "j") ∷ ("titus.agent.jobType", "BATCH") ∷ []);
  phase = "Running";
  containers = container ∷ [];
  container_statuses = [];
}

-- The second call finds the pod.
abbrev late : ℕ → Option V1Pod
late zero = none
late (suc n) = some pod

late_lem : (j : ℕ) → j < 1 → late j ≡ none
late_lem zero h = refl
late_lem (suc j) h = absurd (omega arith)

get_workload-first_example :
    get_workload (λ v. ok (codes v)) (ok (pos 3)) late
    ≡ ok (to_option (λ v. ok (codes v)) (new_kubernetes_workload (λ v. ok (codes v)) pod), 1)
get_workload-first_example =
    get_workload-first (λ v. ok (codes v)) late 3 1 pod (omega arith) late_lem refl

built :
    new_kubernetes_workload (λ v. ok (codes v)) pod
    ≡ ok (record { pod = pod; cpus = pos 4; job_id = "j" })
unfolding new_kubernetes_workload get_main_container get_job_id int
built = refl

kinds : (is_batch_pod pod ≡ ok true) × (is_service_pod pod ≡ ok false)
unfolding is_batch_pod is_service_pod
kinds = (refl, refl)

resources :
    get_requested_resources (λ v. int (codes v)) pod
    ≡ ok (record { cpu = pos 4; mem = pos 8; disk = pos 9; net = pos 1; gpu = pos 0 })
unfolding get_requested_resources int
resources = refl

watched :
    watch
      ((record { type_of = some "ADDED"; object_of = some pod }
          ∷ record { type_of = some "BOOKMARK"; object_of = none }
          ∷ [])
        ∷ (record { type_of = some "DELETED"; object_of = some pod } ∷ [])
        ∷ [])
      []
    ≡ []
unfolding watch handle_event store_pod delete_pod
watched = refl

watch-refines_example :
    Represents
      (watch ((record { type_of = some "ADDED"; object_of = some pod } ∷ []) ∷ []) [])
      (view_watch ((record { type_of = some "ADDED"; object_of = some pod } ∷ []) ∷ []) (λ n. none))
watch-refines_example =
    watch-refines ((record { type_of = some "ADDED"; object_of = some pod } ∷ []) ∷ [])
