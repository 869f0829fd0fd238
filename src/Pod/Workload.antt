-- ===== src/Pod/Workload.antt =====
-- titus_isolate/model/kubernetes_workload.py, and `get_workload` of titus_isolate/model/utils.py. The pods that
-- the pod manager answers with, call by call, are given as a function, since others change its cache
-- between the calls.
use titus_isolate.Prelude.{
  ℕ, zero, suc, String, Bool, true, false, not, List, [], ◌∷◌, Option, none, some, string_eq,
  if◌then◌else◌, ltb, length, keep_if, lookup, Result, ok, raise, key_error, exception, ◌>>=◌, ℤ,
  pos, negsuc,
}
use titus_isolate.Text.{Text, int}
use titus_isolate.Pod.{V1Pod, Container, get_main_container, get_job_id}

pub record KubernetesWorkload : Type 0 where
  pub pod : V1Pod
  pub cpus : ℤ
  pub job_id : String

abbrev pub get_task_id : KubernetesWorkload → String
get_task_id w = w.pod.name

-- The list of titus_isolate/utils.py holds what the six managers were when the module was read.
abbrev pub managers : List (Option (Unit {0}))
managers = none ∷ none ∷ none ∷ none ∷ none ∷ none ∷ []

abbrev is_none : Option (Unit {0}) → Bool
is_none none = true
is_none (some m) = false

unfoldable pub managers_are_initialized : Bool
managers_are_initialized = ltb 0 (length (keep_if is_none managers))

-- `parse_kubernetes_value(val)`: the text of a parsed quantity.
module _ (parse_kubernetes_value : String → Result Text) where
  abbrev cpu_request : Option Container → Result String
  cpu_request none = raise exception
  cpu_request (some c) = elim (lookup "cpu" c.requests) [ none ↦ raise key_error | some v ↦ ok v ]

  -- `KubernetesWorkload(pod)`
  unfoldable pub new_kubernetes_workload : V1Pod → Result KubernetesWorkload
  new_kubernetes_workload pod =
      cpu_request (get_main_container pod) >>= parse_kubernetes_value >>= int >>= λ cpus.
      get_job_id pod >>= λ job_id. ok (record { pod = pod; cpus = cpus; job_id = job_id })

  -- `int(n)` rounds of a loop
  abbrev rounds : ℤ → ℕ
  rounds (pos n) = n
  rounds (negsuc n) = 0

  abbrev pub to_option {ℓ} : {A : Type ℓ} → Result A → Option A
  to_option (ok a) = some a
  to_option (raise e) = none

  -- The loop, from its `i`th round on, with the number of sleeps.
  unfoldable pub get_workload_from : (ℕ → Option V1Pod) → ℕ → ℕ → Option KubernetesWorkload × ℕ
  unfolding new_kubernetes_workload
  get_workload_from get_pod i zero = (none, 0)
  get_workload_from get_pod i (suc n) =
      let (rest, slept) = get_workload_from get_pod (suc i) n in
      elim (get_pod i) [
        | none ↦ (rest, suc slept)
        | some pod ↦ (to_option (new_kubernetes_workload pod), 0)
      ]

  -- `get_workload(identifier)`, with its number of sleeps.
  unfoldable pub get_workload :
      Result ℤ → (ℕ → Option V1Pod) → Result (Option KubernetesWorkload × ℕ)
  unfolding managers_are_initialized get_workload_from
  get_workload retry_count get_pod =
      if not managers_are_initialized
      then ok (none, 0)
      else retry_count >>= λ n. ok (get_workload_from get_pod 0 (rounds n))

-- `get_current_workloads(docker_client)` of titus_isolate/event/utils.py, over the names of the containers.
unfoldable pub get_current_workloads {ℓ} :
    {W : Type ℓ} → (String → Result (Option W)) → List String → List W
get_current_workloads get_workload [] = []
get_current_workloads get_workload (name ∷ names) =
    let rest = get_current_workloads get_workload names in
    elim (get_workload name) [ raise e ↦ rest | ok o ↦ elim o [ none ↦ rest | some w ↦ w ∷ rest ] ]
