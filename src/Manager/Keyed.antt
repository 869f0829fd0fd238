-- ===== src/Manager/Keyed.antt =====
-- The workloads of a manager stand under their own task ids.
use titus_isolate.Prelude.{
  ◌≡◌, refl, sym, ap₂, subst, String, List, [], ◌∷◌, All, IsDistinct, Dict, keys, values, insert,
  erase, eq_cases, beq_ne, inl, inr, string_eq, Result-cases, arith,
}
use titus_isolate.Workload.{Workload}
use titus_isolate.Allocate.Greedy.Placement.{ids}
use titus_isolate.Manager.{Parts, WorkloadManager, put_all, pop_all, new_request, isolate}
use titus_isolate.Manager.Workloads.{put_all-IsDistinct, pop_all-IsDistinct}

abbrev pub IsKeyed : Dict String Workload → Type 0
IsKeyed = All (λ (e : String × Workload). e.1.task_id ≡ e.0)

pub ids-IsKeyed : (d : Dict String Workload) → IsKeyed d → ids (values d) ≡ keys d
ids-IsKeyed [] h = refl
ids-IsKeyed ((k, w) ∷ d) h = ap₂ ◌∷◌ h.0 (ids-IsKeyed d h.1)

insert-IsKeyed :
    (w : Workload) (d : Dict String Workload) → IsKeyed d → IsKeyed (insert w.task_id w d)
insert-IsKeyed w [] h = (refl, tt)
insert-IsKeyed w ((k, v) ∷ d) h = elim (eq_cases w.task_id k) [
  | inl same ↦ rw ((string_eq.beq_iff w.task_id k).1 same) (same, h.1)
  | inr other ↦ rw (beq_ne w.task_id k other) (h.0, insert-IsKeyed w d h.1)
]

erase-IsKeyed : (k : String) (d : Dict String Workload) → IsKeyed d → IsKeyed (erase k d)
erase-IsKeyed k [] h = tt
erase-IsKeyed k ((j, v) ∷ d) h = elim (eq_cases k j) [
  | inl same ↦ rw ((string_eq.beq_iff k j).1 same) h.1
  | inr other ↦ rw (beq_ne k j other) (h.0, erase-IsKeyed k d h.1)
]

module _ (parts : Parts) where
  put_all-IsKeyed :
      (adds : List Workload) (d : Dict String Workload) → IsKeyed d → IsKeyed (put_all parts adds d)
  unfolding put_all
  put_all-IsKeyed [] d h = h
  put_all-IsKeyed (w ∷ adds) d h =
      put_all-IsKeyed adds (insert w.task_id w d) (insert-IsKeyed w d h)

  pop_all-IsKeyed :
      (removes : List String) (d : Dict String Workload)
      → IsKeyed d
      → IsKeyed (pop_all parts removes d)
  unfolding pop_all
  pop_all-IsKeyed [] d h = h
  pop_all-IsKeyed (r ∷ removes) d h = pop_all-IsKeyed removes (erase r d) (erase-IsKeyed r d h)

  module _ (adds : List Workload) (removes : List String) (m : WorkloadManager parts) where
    abbrev requested : Dict String Workload
    requested = put_all parts adds (pop_all parts removes m.workloads)

    requested-IsKeyed : IsKeyed m.workloads → IsKeyed requested
    requested-IsKeyed h =
        put_all-IsKeyed adds (pop_all parts removes m.workloads)
          (pop_all-IsKeyed removes m.workloads h)

    -- The workloads of a request have different ids.
    pub request-IsDistinct :
        IsKeyed m.workloads
        → IsDistinct (keys m.workloads)
        → IsDistinct (ids (values (new_request parts adds removes m).workloads))
    unfolding new_request
    request-IsDistinct keyed different =
        subst IsDistinct (sym (ids-IsKeyed requested (requested-IsKeyed keyed))) (
          put_all-IsDistinct parts adds (pop_all parts removes m.workloads)
            (pop_all-IsDistinct parts removes m.workloads different))

    pub isolate-IsKeyed : IsKeyed m.workloads → IsKeyed (isolate parts adds removes m).1.workloads
    unfolding isolate
    isolate-IsKeyed h =
        let request = new_request parts adds removes m in
        let new : IsKeyed requested = requested-IsKeyed h in
        elim (Result-cases (parts.get_resource_usage (keys request.workloads))) [
          | inl (_, used) ↦ elim (Result-cases (parts.allocate request m.allocator).0.0) [
            | inl (response, e) ↦ ground (arith, new)
            | inr (x, e) ↦ ground arith
          ]
          | inr (x, e) ↦ ground arith
        ]
