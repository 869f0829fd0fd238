-- ===== src/Manager/Updates.antt =====
-- Which cgroups the manager writes when a response comes in.
use titus_isolate.Prelude.{
  ℕ, ◌≡◌, refl, ◌∙◌, String, true, false, string_eq, nat_eq, List, [], ◌∷◌, some, map, contains,
  All, IsDistinct, beq_refl, inl, inr, Dict, lookup, insert, keys, lookup-insert_self,
  lookup-insert_ne, Result-cases, ok, arith,
}
use titus_isolate.Workload.{Workload}
use titus_isolate.Prelude.Sets.{contains-false}
use titus_isolate.Allocate.Response.{AllocateResponse, WorkloadAllocateResponse, eq, all_ids_in}
use titus_isolate.Manager.{
  Parts, WorkloadManager, isolate, new_request, apply_isolation, is_unchanged, add_allocations,
  update_state, release_all,
}

all_ids_in_mono : (xs ys : List ℕ) (y : ℕ) → all_ids_in xs ys ≡ true → all_ids_in xs (y ∷ ys) ≡ true
all_ids_in_mono [] ys y h = refl
all_ids_in_mono (x ∷ xs) ys y h = ground (arith, all_ids_in_mono xs ys y)

all_ids_in_refl : (xs : List ℕ) → all_ids_in xs xs ≡ true
all_ids_in_refl [] = refl
all_ids_in_refl (x ∷ xs) = ground (arith, beq_refl x, all_ids_in_mono xs xs x (all_ids_in_refl xs))

eq_refl : (a : WorkloadAllocateResponse) → eq a a ≡ true
unfolding eq
eq_refl a =
    rw
      (
        beq_refl a.workload_id,
        beq_refl a.cpu_quota,
        beq_refl a.cpu_shares,
        all_ids_in_refl a.thread_ids,
      )
      (ground arith)

abbrev pub workload_ids : List WorkloadAllocateResponse → List String
workload_ids allocations = map (λ (a : WorkloadAllocateResponse). a.workload_id) allocations

module _ (parts : Parts) where
  lookup-add_allocations :
      (allocations : List WorkloadAllocateResponse) (d : Dict String WorkloadAllocateResponse)
      (k : String)
      → contains (workload_ids allocations) k ≡ false
      → lookup k (add_allocations parts allocations d) ≡ lookup k d
  unfolding add_allocations
  lookup-add_allocations [] d k h = refl
  lookup-add_allocations (a ∷ allocations) d k h =
      let (other, rest) = contains-false k a.workload_id (workload_ids allocations) h in
      lookup-add_allocations allocations (insert a.workload_id a d) k rest
      ∙ lookup-insert_ne k a.workload_id a d other

  pub add_allocations-All :
      (allocations : List WorkloadAllocateResponse) (d : Dict String WorkloadAllocateResponse)
      → IsDistinct (workload_ids allocations)
      → All
          (λ (a : WorkloadAllocateResponse).
            lookup a.workload_id (add_allocations parts allocations d) ≡ some a)
          allocations
  unfolding add_allocations
  add_allocations-All [] d h = tt
  add_allocations-All (a ∷ allocations) d h = (
    lookup-add_allocations allocations (insert a.workload_id a d) a.workload_id h.0
        ∙ lookup-insert_self a.workload_id a d,
    add_allocations-All allocations (insert a.workload_id a d) h.1,
  )

  is_unchanged-same :
      (last : Dict String WorkloadAllocateResponse) (a : WorkloadAllocateResponse)
      → lookup a.workload_id last ≡ some a
      → is_unchanged parts last a ≡ true
  unfolding is_unchanged
  is_unchanged-same last a h = ground (arith, h, eq_refl a)

  apply_isolation_unchanged :
      (last : Dict String WorkloadAllocateResponse) (allocations : List WorkloadAllocateResponse)
      (s : parts.cgroups.State)
      → All (λ (a : WorkloadAllocateResponse). lookup a.workload_id last ≡ some a) allocations
      → apply_isolation parts last allocations s ≡ s
  unfolding apply_isolation
  apply_isolation_unchanged last [] s h = refl
  apply_isolation_unchanged last (a ∷ allocations) s h =
      rw (is_unchanged-same last a h.0) (apply_isolation_unchanged last allocations s h.1)

  update_state-cgroup :
      (response last : AllocateResponse) (new : Dict String Workload) (m : WorkloadManager parts)
      → m.last_response ≡ some last
      → IsDistinct (workload_ids last.workload_allocations)
      → response.workload_allocations ≡ last.workload_allocations
      → (update_state parts response new m).cgroup ≡ m.cgroup
  unfolding update_state
  update_state-cgroup response last new m had h same =
      rw (had, same)
        (apply_isolation_unchanged (add_allocations parts last.workload_allocations [])
          last.workload_allocations m.cgroup (add_allocations-All last.workload_allocations [] h))

  -- If a manager's last response has one allocation per workload and the allocator answers with the
  -- same allocations, `isolate` releases the containers to remove and writes no other cgroup.
  pub isolate-cgroup :
      (adds : List Workload) (removes : List String) (m : WorkloadManager parts)
      (last response : AllocateResponse)
      → m.last_response ≡ some last
      → IsDistinct (workload_ids last.workload_allocations)
      → (parts.allocate (new_request parts adds removes m) m.allocator).0.0 ≡ ok response
      → response.workload_allocations ≡ last.workload_allocations
      → (isolate parts adds removes m).1.cgroup ≡ release_all parts removes m.cgroup
  unfolding isolate
  isolate-cgroup adds removes m last response had h answers same =
      let request = new_request parts adds removes m in
      let called = record m {
        cgroup = release_all parts removes m.cgroup;
        allocator = (parts.allocate request m.allocator).1;
      } in
      let kept = update_state-cgroup response last request.workloads called had h same in
      elim (Result-cases (parts.get_resource_usage (keys request.workloads))) [
        | inl (_, used) ↦ ground (arith, answers, kept)
        | inr (x, e) ↦ ground arith
      ]
