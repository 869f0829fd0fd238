-- ===== src/Rounds/Outcome.antt =====
-- What a call of `isolate` makes of a workload manager.
use titus_isolate.Prelude.{
  ◌≡◌, ◌⊎◌, inl, inr, sym, ap, ◌∙◌, subst, String, List, [], ◌∷◌, some, All, Dict, lookup, insert,
  keys, eq_cases, lookup-insert_self, lookup-insert_ne, string_eq, nat_eq, ok, Result-cases, arith,
}
use titus_isolate.Workload.{Workload}
use titus_isolate.Allocate.Response.{AllocateResponse, WorkloadAllocateResponse}
use titus_isolate.Manager.{
  Parts, WorkloadManager, isolate, new_request, release_all, apply_isolation, add_allocations,
  allocation_dict, update_state,
}

module _ (parts : Parts) where
  pub add_allocations-found :
      (P : String → WorkloadAllocateResponse → Type 0) (allocations : List WorkloadAllocateResponse)
      (d : Dict String WorkloadAllocateResponse)
      → All (λ (a : WorkloadAllocateResponse). P a.workload_id a) allocations
      → ((k : String) (l : WorkloadAllocateResponse) → lookup k d ≡ some l → P k l)
      → (k : String) (l : WorkloadAllocateResponse)
      → lookup k (add_allocations parts allocations d) ≡ some l
      → P k l
  unfolding add_allocations
  add_allocations-found P [] d h before k l e = before k l e
  add_allocations-found P (a ∷ allocations) d h before k l e =
      add_allocations-found P allocations (insert a.workload_id a d) h.1 with_head k l e
    where
      with_head :
          (k : String) (l : WorkloadAllocateResponse)
          → lookup k (insert a.workload_id a d) ≡ some l
          → P k l
      with_head k l e = elim (eq_cases k a.workload_id) [
        | inl same ↦
            let found : some a ≡ some l =
              sym (lookup-insert_self a.workload_id a d)
              ∙ (ap (λ j. lookup j (insert a.workload_id a d)) (sym same) ∙ e) in
            let is_a : a ≡ l = cc in subst (λ b. P k b) is_a (subst (λ j. P j a) (sym same) h.0)
        | inr other ↦ before k l (sym (lookup-insert_ne k a.workload_id a d other) ∙ e)
      ]

  -- What a call of `isolate` makes of the manager: only the removals are released, or a response
  -- of the allocator is applied.
  abbrev pub Outcome : List Workload → List String → WorkloadManager parts → Type 0
  Outcome adds removes m =
      let after = (isolate parts adds removes m).1 in
      ((after.last_response ≡ m.last_response)
        × (after.cpu ≡ m.cpu)
        × (after.cgroup ≡ release_all parts removes m.cgroup))
      ⊎ ((r : AllocateResponse) × ((parts.allocate (new_request parts adds removes m)
              m.allocator).0.0
            ≡ ok r)
          × (after.last_response ≡ some r)
          × (after.cpu ≡ r.cpu)
          × (after.cgroup
              ≡ apply_isolation parts (allocation_dict parts m.last_response) r.workload_allocations
                  (release_all parts removes m.cgroup)))

  pub isolate-Outcome :
      (adds : List Workload) (removes : List String) (m : WorkloadManager parts)
      → Outcome adds removes m
  unfolding isolate update_state
  isolate-Outcome adds removes m =
      let request = new_request parts adds removes m in
      elim (Result-cases (parts.get_resource_usage (keys request.workloads))) [
        | inr (e, failed) ↦ inl (ground arith, ground arith, ground arith)
        | inl (_, used) ↦ elim (Result-cases (parts.allocate request m.allocator).0.0) [
          | inr (e, failed) ↦ inl (ground arith, ground arith, ground arith)
          | inl (r, answered) ↦ elim (Result-cases (parts.report_cpu_event request r)) [
            | inl (_, reported) ↦ inr (r, answered, ground arith, ground arith, ground arith)
            | inr (e, failed) ↦ inr (r, answered, ground arith, ground arith, ground arith)
          ]
        ]
      ]
