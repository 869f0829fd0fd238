-- ===== src/Manager/Workloads.antt =====
-- Which workloads the manager knows after a call of `isolate`.
use titus_isolate.Prelude.{
  ◌≡◌, refl, ap, ◌∙◌, String, true, ◌==◌, string_eq, List, [], ◌∷◌, Option, none, some,
  if◌then◌else◌, contains, IsDistinct, eq_cases, beq_ne, inl, inr, Dict, lookup, insert, erase,
  keys, lookup-insert_self, lookup-insert_ne, lookup-erase_self, lookup-erase_ne, insert-IsDistinct,
  keys-erase, Result-cases, arith,
}
use titus_isolate.Prelude.Sets.{remove-IsDistinct}
use titus_isolate.Workload.{Workload}
use titus_isolate.Manager.{Parts, WorkloadManager, isolate, new_request, pop_all, put_all}

-- The last workload of a list with a task id.
abbrev pub last_with : String → List Workload → Option Workload
last_with id [] = none
last_with id (w ∷ ws) = elim (last_with id ws) [
  | some v ↦ some v
  | none ↦ if id == w.task_id then some w else none
]

abbrev pub or_else : Option Workload → Option Workload → Option Workload
or_else none o = o
or_else (some w) o = some w

module _ (parts : Parts) where
  lookup-put_all :
      (adds : List Workload) (d : Dict String Workload) (id : String)
      → lookup id (put_all parts adds d) ≡ or_else (last_with id adds) (lookup id d)
  unfolding put_all
  lookup-put_all [] d id = refl
  lookup-put_all (w ∷ adds) d id = elim (eq_cases id w.task_id) [
    | inl same ↦
        let here : lookup id (insert w.task_id w d) ≡ some w =
          ap (λ k. lookup k (insert w.task_id w d)) same ∙ lookup-insert_self w.task_id w d in
        ground (
          arith,
          lookup-put_all adds (insert w.task_id w d) id,
          here,
          (string_eq.beq_iff id w.task_id).1 same,
        )
    | inr other ↦ ground (
      arith,
      lookup-put_all adds (insert w.task_id w d) id,
      lookup-insert_ne id w.task_id w d other,
      beq_ne id w.task_id other,
    )
  ]

  erase-IsDistinct :
      (k : String) (d : Dict String Workload) → IsDistinct (keys d) → IsDistinct (keys (erase k d))
  erase-IsDistinct k d h = rw (keys-erase k d) (remove-IsDistinct (keys d) k h)

  lookup-pop_all :
      (removes : List String) (d : Dict String Workload) (id : String)
      → IsDistinct (keys d)
      → lookup id (pop_all parts removes d) ≡ (if contains removes id then none else lookup id d)
  unfolding pop_all
  lookup-pop_all [] d id h = refl
  lookup-pop_all (r ∷ removes) d id h = elim (eq_cases id r) [
    | inl same ↦
        let gone : lookup id (erase r d) ≡ none =
          ap (λ k. lookup k (erase r d)) same ∙ lookup-erase_self r d h in
        ground (
          arith,
          lookup-pop_all removes (erase r d) id (erase-IsDistinct r d h),
          gone,
          (string_eq.beq_iff id r).1 same,
        )
    | inr other ↦ ground (
      arith,
      lookup-pop_all removes (erase r d) id (erase-IsDistinct r d h),
      lookup-erase_ne id r d other,
      beq_ne id r other,
    )
  ]

  pub pop_all-IsDistinct :
      (removes : List String) (d : Dict String Workload)
      → IsDistinct (keys d)
      → IsDistinct (keys (pop_all parts removes d))
  unfolding pop_all
  pop_all-IsDistinct [] d h = h
  pop_all-IsDistinct (r ∷ removes) d h =
      pop_all-IsDistinct removes (erase r d) (erase-IsDistinct r d h)

  pub put_all-IsDistinct :
      (adds : List Workload) (d : Dict String Workload)
      → IsDistinct (keys d)
      → IsDistinct (keys (put_all parts adds d))
  unfolding put_all
  put_all-IsDistinct [] d h = h
  put_all-IsDistinct (w ∷ adds) d h =
      put_all-IsDistinct adds (insert w.task_id w d) (insert-IsDistinct w.task_id w d h)

  module _ (adds : List Workload) (removes : List String) (m : WorkloadManager parts) where
    abbrev requested : Dict String Workload
    requested = put_all parts adds (pop_all parts removes m.workloads)

    workloads_true :
        (isolate parts adds removes m).0 ≡ true
        → (isolate parts adds removes m).1.workloads ≡ requested
    unfolding isolate
    workloads_true done =
        let request = new_request parts adds removes m in
        elim (Result-cases (parts.get_resource_usage (keys request.workloads))) [
          | inl (_, used) ↦ elim (Result-cases (parts.allocate request m.allocator).0.0) [
            | inl (response, e) ↦ ground arith
            | inr (x, e) ↦ ground arith
          ]
          | inr (x, e) ↦ ground arith
        ]

    -- If the workloads of the manager have different task ids, then after a call of isolate that
    -- returns true it knows of a task id the last workload that was added under it, or else
    -- nothing if the id was to be removed, or else what it knew before.
    pub isolate-workloads :
        (id : String)
        → IsDistinct (keys m.workloads)
        → (isolate parts adds removes m).0 ≡ true
        → lookup id (isolate parts adds removes m).1.workloads
          ≡ or_else
              (last_with id adds)
              (if contains removes id then none else lookup id m.workloads)
    isolate-workloads id h done =
        ap (lookup id) (workloads_true done)
        ∙ (lookup-put_all adds (pop_all parts removes m.workloads) id
            ∙ ap (or_else (last_with id adds)) (lookup-pop_all removes m.workloads id h))

    -- The workloads of a manager keep different task ids, whatever a call of `isolate` does.
    pub isolate-IsDistinct :
        IsDistinct (keys m.workloads) → IsDistinct (keys (isolate parts adds removes m).1.workloads)
    unfolding isolate
    isolate-IsDistinct h =
        let request = new_request parts adds removes m in
        let new : IsDistinct (keys requested) =
          put_all-IsDistinct adds (pop_all parts removes m.workloads)
            (pop_all-IsDistinct removes m.workloads h) in
        elim (Result-cases (parts.get_resource_usage (keys request.workloads))) [
          | inl (_, used) ↦ elim (Result-cases (parts.allocate request m.allocator).0.0) [
            | inl (response, e) ↦ ground (arith, new)
            | inr (x, e) ↦ ground arith
          ]
          | inr (x, e) ↦ ground arith
        ]
