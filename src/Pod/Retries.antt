-- ===== src/Pod/Retries.antt =====
-- How often `get_workload` asks.
use titus_isolate.Prelude.{
  ℕ, zero, suc, ◌+◌, ◌<◌, ◌≡◌, refl, ap, Option, none, some, Result, ok, pos, subst, String, arith,
}
use titus_isolate.Text.{Text}
use titus_isolate.Pod.{V1Pod}
use titus_isolate.Pod.Workload.{
  new_kubernetes_workload, to_option, get_workload_from, get_workload, managers_are_initialized,
}

module _ (parse_kubernetes_value : String → Result Text) (get_pod : ℕ → Option V1Pod) where
  loop-first :
      (n k i : ℕ) (pod : V1Pod)
      → i < n
      → ((j : ℕ) → j < i → get_pod (k + j) ≡ none)
      → get_pod (k + i) ≡ some pod
      → get_workload_from parse_kubernetes_value get_pod k n
        ≡ (to_option parse_kubernetes_value (new_kubernetes_workload parse_kubernetes_value pod), i)
  unfolding get_workload_from
  loop-first zero k i pod h before e = absurd (omega arith)
  loop-first (suc n) k zero pod h before e =
      let here : get_pod k ≡ some pod = subst (λ j. get_pod j ≡ some pod) (omega arith) e in
      rw (get_workload_from, here) refl
  loop-first (suc n) k (suc i) pod h before e =
      let here : get_pod k ≡ none =
        subst (λ j. get_pod j ≡ none) (omega arith) (before 0 (omega arith)) in
      let next =
        loop-first n (suc k) i pod (omega arith)
          (λ j l. subst (λ j. get_pod j ≡ none) (omega arith) (before (suc j) (omega arith)))
          (subst (λ j. get_pod j ≡ some pod) (omega arith) e) in
      rw (get_workload_from, here, next) refl

  loop-none :
      (n k : ℕ)
      → ((j : ℕ) → j < n → get_pod (k + j) ≡ none)
      → get_workload_from parse_kubernetes_value get_pod k n ≡ (none, n)
  unfolding get_workload_from
  loop-none zero k h = refl
  loop-none (suc n) k h =
      let here : get_pod k ≡ none =
        subst (λ j. get_pod j ≡ none) (omega arith) (h 0 (omega arith)) in
      let next =
        loop-none n (suc k)
          (λ j l. subst (λ j. get_pod j ≡ none) (omega arith) (h (suc j) (omega arith))) in
      rw (get_workload_from, here, next) refl

  -- If the i-th answer of the pod manager, counted from 0, is the first with a pod, and i is less than the
  -- retry count, then get_workload has slept i times and returns the workload that is made of that pod,
  -- or None if its construction raises.
  pub get_workload-first :
      (n i : ℕ) (pod : V1Pod)
      → i < n
      → ((j : ℕ) → j < i → get_pod j ≡ none)
      → get_pod i ≡ some pod
      → get_workload parse_kubernetes_value (ok (pos n)) get_pod
        ≡ ok (
          to_option parse_kubernetes_value (new_kubernetes_workload parse_kubernetes_value pod),
          i,
        )
  unfolding get_workload managers_are_initialized
  get_workload-first n i pod h before e = ap ok (
      loop-first n 0 i pod h (λ j l. subst (λ j. get_pod j ≡ none) (omega arith) (before j l))
        (subst (λ j. get_pod j ≡ some pod) (omega arith) e))

  -- Without a pod it sleeps as often as it asks, the retry count, and returns None.
  pub get_workload-none :
      (n : ℕ)
      → ((j : ℕ) → j < n → get_pod j ≡ none)
      → get_workload parse_kubernetes_value (ok (pos n)) get_pod ≡ ok (none, n)
  unfolding get_workload managers_are_initialized
  get_workload-none n h =
      ap ok (loop-none n 0 (λ j l. subst (λ j. get_pod j ≡ none) (omega arith) (h j l)))
