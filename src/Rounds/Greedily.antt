-- ===== src/Rounds/Greedily.antt =====
-- What the greedy allocator gives the workload manager.
use titus_isolate.Prelude.{
  ℕ, ◌≤◌, ◌≡◌, refl, sym, ap, ◌∙◌, subst, String, List, [], ◌∷◌, map, length, All, IsDistinct,
  values, string_eq, nat_eq, Result, ok, raise, value_error, arith,
}
use native.Mathlib.Decide.{dec_le}
use titus_isolate.Processor.Thread.{Thread}
use titus_isolate.Processor.Cpu.{Cpu, get_threads, get_thread_ids, clear_cpu}
use titus_isolate.Processor.Everywhere.{
  Exclusive, clear_cpu-Exclusive, empties-clear_cpu, held-clear_cpu, ids-clear_cpu,
}
use titus_isolate.Allocate.Response.{AllocateResponse, Env, new_response}
use titus_isolate.Allocate.Request.{AllocateRequest}
use titus_isolate.Allocate.Greedy.{isolate}
use titus_isolate.Allocate.Greedy.Placement.{
  ids, wanted, Placed, assign_all_enough, Placed-ids, Placed-Exclusive, Placed-held_other,
}
use titus_isolate.Allocate.Greedy.Isolation.{
  granted_response, isolate-ok, isolate-raise_full, length-get_thread_ids,
}
use titus_isolate.Manager.{Parts}
use titus_isolate.Rounds.{Consistent}
use titus_isolate.Isolate.Reconciler.Entries.{id_of}
use titus_isolate.Rounds.Granted.{allocations-Consistent}

Exclusive-IsDistinct :
    (ts : List Thread) → Exclusive ts → All (λ (t : Thread). IsDistinct t.workload_ids) ts
Exclusive-IsDistinct [] x = tt
Exclusive-IsDistinct (t ∷ ts) x = (one t.workload_ids x.0, Exclusive-IsDistinct ts x.1)
  where
    one : (ws : List String) → length ws ≤ 1 → IsDistinct ws
    one [] h = tt
    one (w ∷ []) h = (refl, tt)
    one (w ∷ v ∷ ws) h = absurd (omega arith)

nothing : (xs : List ℕ) → length xs ≡ 0 → xs ≡ []
nothing [] h = refl
nothing (x ∷ xs) h = absurd (omega arith)

-- A response of the greedy allocator is made of a placement of the workloads on the cleared CPU.
isolate-Placed :
    (env : Env) (request : AllocateRequest) (response : AllocateResponse)
    → (isolate env request).0 ≡ ok response
    → (after : Cpu) × Placed
        (values request.workloads)
        (get_threads (clear_cpu request.cpu))
        (get_threads after)
      × (granted_response env request after ≡ response)
isolate-Placed env request response answered =
    let ws = values request.workloads in
    elim (dec_le (wanted ws) (length (get_threads request.cpu))) [
      | no over ↦
          let clash : ◌≡◌ {A = Result AllocateResponse} (raise value_error) (ok response) =
            sym (isolate-raise_full env request (omega arith)) ∙ answered in
          cc
      | yes fits ↦
          let (after, e, p) =
            assign_all_enough ws (clear_cpu request.cpu)
              (omega (arith, empties-clear_cpu request.cpu)) in
          let answer : ◌≡◌ {A = Result AllocateResponse} (ok (granted_response env request after))
              (ok response) =
            sym (ap (λ r. r.0) (isolate-ok env request after e)) ∙ answered in
          (after, p, cc)
    ]

-- The CPU of a response has the threads of the request's CPU.
pub isolate-ids :
    (env : Env) (request : AllocateRequest) (response : AllocateResponse)
    → (isolate env request).0 ≡ ok response
    → map id_of (get_threads response.cpu) ≡ map id_of (get_threads request.cpu)
unfolding new_response
isolate-ids env request response answered =
    let (after, p, same) = isolate-Placed env request response answered in
    ap (λ r. map id_of (get_threads r.cpu)) (sym same)
    ∙ (Placed-ids (values request.workloads) _ _ p ∙ ids-clear_cpu request.cpu)

-- If the workloads of a request have different ids and its CPU has no thread twice, a response of the
-- greedy allocator is consistent.
pub isolate-Consistent :
    (parts : Parts) (env : Env) (request : AllocateRequest) (response : AllocateResponse)
    → IsDistinct (ids (values request.workloads))
    → IsDistinct (map id_of (get_threads request.cpu))
    → (isolate env request).0 ≡ ok response
    → Consistent parts response
unfolding new_response
isolate-Consistent parts env request response different threads answered =
    let ws = values request.workloads in
    let (after, p, same) = isolate-Placed env request response answered in
    subst (Consistent parts) same (
      allocations-Consistent parts env.config_manager after ws different
        (Exclusive-IsDistinct (get_threads after)
          (Placed-Exclusive ws _ _ p (clear_cpu-Exclusive request.cpu)))
        (λ v absent. nothing (get_thread_ids after v) (
          length-get_thread_ids after v
          ∙ Placed-held_other ws _ _ v absent p
          ∙ held-clear_cpu v request.cpu))
        (granted_response env request after)
        (subst IsDistinct (sym (Placed-ids ws _ _ p ∙ ids-clear_cpu request.cpu)) threads) refl
        refl)
