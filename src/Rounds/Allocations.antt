-- ===== src/Rounds/Allocations.antt =====
-- What get_workload_allocations (titus_isolate/allocate/allocate_response.py) reads off a CPU.
use titus_isolate.Prelude.{
  ℕ, ◌≡◌, ◌≢◌, ◌⊎◌, refl, sym, ap, ◌∙◌, subst, String, true, false, List, [], ◌∷◌, length, Option,
  none, some, ltb, All, IsDistinct, contains, inl, inr, Dict, lookup, string_eq, nat_eq, beq_ne,
  eq_cases, arith,
}
use titus_isolate.Prelude.Sets.{contains-false}
use titus_isolate.Workload.{Workload}
use titus_isolate.Config.{PropertyProvider}
use titus_isolate.Processor.Cpu.{Cpu, get_thread_ids}
use titus_isolate.Allocate.Response.{
  WorkloadAllocateResponse, get_cpu_shares, get_cpu_quota, memory_flag, get_workload_response,
  get_workload_allocations,
}
use titus_isolate.Allocate.Greedy.Placement.{ids}
use titus_isolate.Manager.Updates.{workload_ids}

module _ (config_manager : Option PropertyProvider) (cpu : Cpu) where
  abbrev pub allocations : List Workload → List WorkloadAllocateResponse
  allocations ws = get_workload_allocations config_manager cpu ws

  response-none :
      (w : Workload)
      → get_thread_ids cpu w.task_id ≡ []
      → get_workload_response config_manager w cpu ≡ none
  unfolding get_workload_response
  response-none w e = rw e refl

  -- A response of just the workload's threads.
  abbrev IsOf : WorkloadAllocateResponse → String → Type 0
  IsOf a v = (a.workload_id ≡ v) × (a.thread_ids ≡ get_thread_ids cpu v)

  abbrev response_of : Workload → WorkloadAllocateResponse
  response_of w = record {
    workload_id = w.task_id;
    thread_ids = get_thread_ids cpu w.task_id;
    cpu_shares = get_cpu_shares w;
    cpu_quota = get_cpu_quota w;
    memory_migrate = memory_flag config_manager "TITUS_ISOLATE_MEMORY_MIGRATE";
    memory_spread_page = memory_flag config_manager "TITUS_ISOLATE_MEMORY_SPREAD_PAGE";
    memory_spread_slab = memory_flag config_manager "TITUS_ISOLATE_MEMORY_SPREAD_SLAB";
  }

  response-some :
      (w : Workload) (i : ℕ) (is : List ℕ)
      → get_thread_ids cpu w.task_id ≡ i ∷ is
      → (a : WorkloadAllocateResponse) × (get_workload_response config_manager w cpu ≡ some a)
        × IsOf a w.task_id
  unfolding get_workload_response
  response-some w i is e =
      let few : ltb (length (get_thread_ids cpu w.task_id)) 1 ≡ false = rw e (ground arith) in
      (response_of w, rw few refl, (refl, refl))

  -- A workload has one if it is on a thread, and else none.
  allocations-cons :
      (w : Workload) (ws : List Workload)
      → ((get_thread_ids cpu w.task_id ≡ []) × (allocations (w ∷ ws) ≡ allocations ws))
        ⊎ ((a : WorkloadAllocateResponse) × (allocations (w ∷ ws) ≡ a ∷ allocations ws)
            × IsOf a w.task_id)
  unfolding get_workload_allocations
  allocations-cons w ws = go (get_thread_ids cpu w.task_id) refl
    where
      go :
          (xs : List ℕ)
          → get_thread_ids cpu w.task_id ≡ xs
          → ((get_thread_ids cpu w.task_id ≡ []) × (allocations (w ∷ ws) ≡ allocations ws))
            ⊎ ((a : WorkloadAllocateResponse) × (allocations (w ∷ ws) ≡ a ∷ allocations ws)
                × IsOf a w.task_id)
      go [] e = inl (e, rw (get_workload_allocations, response-none w e) refl)
      go (i ∷ is) e =
          let (a, answers, of) = response-some w i is e in
          inr (a, rw (get_workload_allocations, answers) refl, of)

  allocations-absent :
      (ws : List Workload) (v : String)
      → contains (ids ws) v ≡ false
      → contains (workload_ids (allocations ws)) v ≡ false
  unfolding get_workload_allocations
  allocations-absent [] v h = refl
  allocations-absent (w ∷ ws) v h =
      let (other, rest) = contains-false v w.task_id (ids ws) h in
      let absent = allocations-absent ws v rest in
      elim (allocations-cons w ws) [
        | inl (_, e) ↦ ap (λ ls. contains (workload_ids ls) v) e ∙ absent
        | inr (a, e, of) ↦
            ap (λ ls. contains (workload_ids ls) v) e ∙ rw (of.0, beq_ne v w.task_id other) absent
      ]

  pub allocations-IsDistinct :
      (ws : List Workload) → IsDistinct (ids ws) → IsDistinct (workload_ids (allocations ws))
  unfolding get_workload_allocations
  allocations-IsDistinct [] h = tt
  allocations-IsDistinct (w ∷ ws) h =
      let rest = allocations-IsDistinct ws h.1 in
      elim (allocations-cons w ws) [
        | inl (_, e) ↦ subst (λ ls. IsDistinct (workload_ids ls)) (sym e) rest
        | inr (a, e, of) ↦
            subst (λ ls. IsDistinct (workload_ids ls)) (sym e)
              (rw of.0 (allocations-absent ws w.task_id h.0), rest)
      ]

  -- All of them have the threads that the CPU shows.
  pub allocations-IsOf :
      (ws : List Workload)
      → All
          (λ (a : WorkloadAllocateResponse). a.thread_ids ≡ get_thread_ids cpu a.workload_id)
          (allocations ws)
  unfolding get_workload_allocations
  allocations-IsOf [] = tt
  allocations-IsOf (w ∷ ws) = elim (allocations-cons w ws) [
    | inl (_, e) ↦ subst (All _) (sym e) (allocations-IsOf ws)
    | inr (a, e, of) ↦
        subst (All _) (sym e) (of.1 ∙ ap (get_thread_ids cpu) (sym of.0), allocations-IsOf ws)
  ]

  -- A workload that is on a thread is found in a dict that has them all.
  pub allocations-found :
      (ws : List Workload) (d : Dict String WorkloadAllocateResponse) (v : String)
      → All (λ (a : WorkloadAllocateResponse). lookup a.workload_id d ≡ some a) (allocations ws)
      → contains (ids ws) v ≡ true
      → get_thread_ids cpu v ≢ []
      → (a : WorkloadAllocateResponse) × (lookup v d ≡ some a)
        × (a.thread_ids ≡ get_thread_ids cpu v)
  unfolding get_workload_allocations
  allocations-found [] d v all h on = cc
  allocations-found (w ∷ ws) d v all h on = elim (eq_cases v w.task_id) [
    | inl same ↦ elim (allocations-cons w ws) [
      | inl (off, e) ↦ absurd (on (ap (get_thread_ids cpu) same ∙ off))
      | inr (a, e, of) ↦
          let found : lookup a.workload_id d ≡ some a = (subst (All _) e all).0 in
          (
            a,
            ap (λ k. lookup k d) (same ∙ sym of.0) ∙ found,
            of.1 ∙ ap (get_thread_ids cpu) (sym same),
          )
    ]
    | inr other ↦
        let behind : contains (ids ws) v ≡ true = ground (arith, beq_ne v w.task_id other, h) in
        elim (allocations-cons w ws) [
          | inl (off, e) ↦ allocations-found ws d v (subst (All _) e all) behind on
          | inr (a, e, of) ↦ allocations-found ws d v (subst (All _) e all).1 behind on
        ]
  ]
