-- ===== src/Rounds/Granted.antt =====
-- A response that is made of the CPU by get_workload_allocations.
use titus_isolate.Prelude.{
  ℕ, ◌≡◌, ◌≢◌, sym, ap, ◌∙◌, subst, String, false, List, [], ◌∷◌, map, Option, none, some, All,
  IsDistinct, contains, inl, inr, Dict, lookup, string_eq, nat_eq, Bool-cases,
}
use titus_isolate.Workload.{Workload}
use titus_isolate.Config.{PropertyProvider}
use titus_isolate.Processor.Thread.{Thread, holds}
use titus_isolate.Processor.Cpu.{Cpu, get_threads, get_thread_ids}
use titus_isolate.Allocate.Response.{AllocateResponse, WorkloadAllocateResponse}
use titus_isolate.Allocate.Greedy.Placement.{ids}
use titus_isolate.Manager.{Parts, add_allocations, allocation_dict}
use titus_isolate.Manager.Updates.{add_allocations-All}
use titus_isolate.Isolate.Reconciler.{get_workloads, sorted}
use titus_isolate.Isolate.Reconciler.Index.{extended, lookup-get_workloads}
use titus_isolate.Rounds.{Consistent, Placed}
use titus_isolate.Isolate.Reconciler.Entries.{
  id_of, kept-IsDistinct, Found, add_threads-IsDistinct, entries-Found,
}
use titus_isolate.Rounds.Allocations.{
  allocations, allocations-IsDistinct, allocations-IsOf, allocations-found,
}

extended-some : (xs ys : List ℕ) → extended none xs ≡ some ys → (xs ≡ ys) × (xs ≢ [])
extended-some [] ys e = cc
extended-some (x ∷ xs) ys e = (cc, λ nothing. cc)

module _ (parts : Parts) (config_manager : Option PropertyProvider) (cpu : Cpu) (ws : List Workload)
    (different : IsDistinct (ids ws))
    (sets : All (λ (t : Thread). IsDistinct t.workload_ids) (get_threads cpu))
    (only : (v : String) → contains (ids ws) v ≡ false → get_thread_ids cpu v ≡ []) where
  abbrev dict : Dict String WorkloadAllocateResponse
  dict = add_allocations parts (allocations config_manager cpu ws) []

  entry-Placed :
      (v : String) (t_ids : List ℕ)
      → lookup v (get_workloads cpu) ≡ some t_ids
      → (l : WorkloadAllocateResponse) × (lookup v dict ≡ some l)
        × (sorted l.thread_ids ≡ sorted t_ids)
  entry-Placed v t_ids found =
      let (same, on) =
        extended-some (get_thread_ids cpu v) t_ids
          (sym (lookup-get_workloads cpu v sets) ∙ found) in
      elim (Bool-cases (contains (ids ws) v)) [
        | inr absent ↦ absurd (on (only v absent))
        | inl present ↦
            let (a, has, shows) =
              allocations-found config_manager cpu ws dict v
                (add_allocations-All parts (allocations config_manager cpu ws) []
                  (allocations-IsDistinct config_manager cpu ws different))
                present on in
            (a, has, ap sorted (shows ∙ same))
      ]

  entries-Placed :
      (es : Dict String (List ℕ))
      → Found (get_workloads cpu) es
      → All
          (λ (entry : String × List ℕ).
            (l : WorkloadAllocateResponse) × (lookup entry.0 dict ≡ some l)
            × (sorted l.thread_ids ≡ sorted entry.1))
          es
  entries-Placed [] f = tt
  entries-Placed ((v, t_ids) ∷ es) f = (entry-Placed v t_ids f.0, entries-Placed es f.1)

  -- Every workload on a CPU that is one of `ws` has the allocation with its threads.
  allocations-Placed : Placed parts dict cpu
  unfolding get_workloads
  allocations-Placed =
      entries-Placed (get_workloads cpu)
        (entries-Found (get_workloads cpu) (add_threads-IsDistinct (get_threads cpu) [] tt))

  -- No allocation has a thread twice if the CPU has none twice.
  threads-IsDistinct :
      (ls : List WorkloadAllocateResponse)
      → IsDistinct (map id_of (get_threads cpu))
      → All (λ (a : WorkloadAllocateResponse). a.thread_ids ≡ get_thread_ids cpu a.workload_id) ls
      → All (λ (a : WorkloadAllocateResponse). IsDistinct a.thread_ids) ls
  unfolding get_thread_ids
  threads-IsDistinct [] h all = tt
  threads-IsDistinct (a ∷ ls) h all = (
    subst IsDistinct (sym all.0) (kept-IsDistinct (holds a.workload_id) (get_threads cpu) h),
    threads-IsDistinct ls h all.1,
  )

  pub allocations-Consistent :
      (response : AllocateResponse)
      → IsDistinct (map id_of (get_threads cpu))
      → response.cpu ≡ cpu
      → response.workload_allocations ≡ allocations config_manager cpu ws
      → Consistent parts response
  unfolding allocation_dict
  allocations-Consistent response h same from =
      rw (same, from)
        (
          allocations-IsDistinct config_manager cpu ws different,
          threads-IsDistinct (allocations config_manager cpu ws) h
              (allocations-IsOf config_manager cpu ws),
          allocations-Placed,
        )
