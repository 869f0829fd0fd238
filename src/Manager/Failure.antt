-- ===== src/Manager/Failure.antt =====
-- What a call of `isolate` that fails leaves: nothing of the response is taken over, or all of it.
use titus_isolate.Prelude.{
  ◌≡◌, ◌⊎◌, String, false, List, some, Result-cases, inl, inr, Error, ok, raise, ◌>>=◌, arith, keys,
}
use titus_isolate.Workload.{Workload}
use titus_isolate.Processor.Visualize.{report_change}
use titus_isolate.Allocate.Response.{AllocateResponse}
use titus_isolate.Manager.{
  Parts, WorkloadManager, isolate, release_all, new_request, apply_isolation, allocation_dict,
}

module _ (parts : Parts) (adds : List Workload) (removes : List String)
    (m : WorkloadManager parts) where
  -- Only the containers to remove were released.
  abbrev pub IsUntouched : WorkloadManager parts → Type 0
  IsUntouched after =
      (after.cpu ≡ m.cpu)
      × (after.workloads ≡ m.workloads)
      × (after.last_response ≡ m.last_response)
      × (after.cgroup ≡ release_all parts removes m.cgroup)

  -- A response was applied in full: its CPU, the workloads of the request, and the cgroups of what changed.
  abbrev pub IsApplied : AllocateResponse → WorkloadManager parts → Type 0
  IsApplied r after =
      (after.cpu ≡ r.cpu)
      × (after.workloads ≡ (new_request parts adds removes m).workloads)
      × (after.last_response ≡ some r)
      × (after.cgroup
          ≡ apply_isolation parts (allocation_dict parts m.last_response) r.workload_allocations
              (release_all parts removes m.cgroup))

  -- The reports that follow: of the change of the CPU to the log, and of the event.
  abbrev pub Raises : AllocateResponse → Type 0
  Raises r =
      (e : Error) × ((report_change m.cpu r.cpu >>= λ u.
      parts.report_cpu_event (new_request parts adds removes m) r)
        ≡ raise e)

  -- A call of isolate that returns false is all or nothing: either the CPU, the workloads and the last
  -- response of the manager are as they were, and of the cgroups it has only released the containers to
  -- remove; or the allocator answered, its response is applied in full, to the manager and to every
  -- cgroup that it changes, and what raised is one of the two reports after that, the picture of the
  -- CPUs for the log or the event.
  pub isolate-false :
      (isolate parts adds removes m).0 ≡ false
      → let after = (isolate parts adds removes m).1 in
        IsUntouched after
        ⊎ ((r : AllocateResponse) × ((parts.allocate
                (new_request parts adds removes m)
                m.allocator).0.0
              ≡ ok r)
            × IsApplied r after
            × Raises r)
  unfolding isolate
  isolate-false failed =
      let request = new_request parts adds removes m in
      elim (Result-cases (parts.get_resource_usage (keys request.workloads))) [
        | inr (x, e) ↦ inl (ground arith, ground arith, ground arith, ground arith)
        | inl (_, used) ↦ elim (Result-cases (parts.allocate request m.allocator).0.0) [
          | inr (x, e) ↦ inl (ground arith, ground arith, ground arith, ground arith)
          | inl (r, e) ↦
              elim (Result-cases
                (report_change m.cpu r.cpu >>= λ u. parts.report_cpu_event request r)) [
                  | inl (_, reported) ↦ absurd (ground arith)
                  | inr (x, raises) ↦
                      inr (
                        r,
                        e,
                        (ground arith, ground arith, ground arith, ground arith),
                        (x, raises),
                      )
                ]
        ]
      ]
