-- ===== src/Isolate/Reconciler.antt =====
-- titus_isolate/isolate/reconciler.py. The cgroup manager and the exit handler are parameters: reading
-- a cpuset may raise, and `exit` may not return, which counts as an exception here.
pub mod Index
pub mod Sorted
pub mod Entries
pub mod Verdict
use titus_isolate.Prelude.{
  ℕ, suc, String, Bool, true, false, List, [], ◌∷◌, ◌++◌, Option, none, some, ◌&&◌, if◌then◌else◌,
  leb, nat_beq, Dict, lookup, insert, string_eq, Result, ok, raise,
}
use titus_isolate.Processor.Thread.{Thread}
use titus_isolate.Processor.Cpu.{Cpu, get_threads}

-- `workloads[w_id].append(t_id)`, or a new list for a new workload.
unfoldable pub add_id : ℕ → String → Dict String (List ℕ) → Dict String (List ℕ)
add_id t_id w_id workloads = elim (lookup w_id workloads) [
  | none ↦ insert w_id (t_id ∷ []) workloads
  | some t_ids ↦ insert w_id (t_ids ++ t_id ∷ []) workloads
]

unfoldable pub add_thread : ℕ → List String → Dict String (List ℕ) → Dict String (List ℕ)
unfolding add_id
add_thread t_id [] workloads = workloads
add_thread t_id (w_id ∷ w_ids) workloads = add_thread t_id w_ids (add_id t_id w_id workloads)

unfoldable pub add_threads : List Thread → Dict String (List ℕ) → Dict String (List ℕ)
unfolding add_thread
add_threads [] workloads = workloads
add_threads (t ∷ ts) workloads = add_threads ts (add_thread t.processor_id t.workload_ids workloads)

unfoldable pub get_workloads : Cpu → Dict String (List ℕ)
unfolding add_threads
get_workloads cpu = add_threads (get_threads cpu) []

-- `sorted(ids)`
abbrev pub insert_sorted : ℕ → List ℕ → List ℕ
insert_sorted n [] = n ∷ []
insert_sorted n (m ∷ ms) = let rest = insert_sorted n ms in if leb n m then n ∷ m ∷ ms else m ∷ rest

abbrev pub sorted : List ℕ → List ℕ
sorted [] = []
sorted (n ∷ ns) = insert_sorted n (sorted ns)

abbrev pub same_ids : List ℕ → List ℕ → Bool
same_ids [] [] = true
same_ids [] (y ∷ ys) = false
same_ids (x ∷ xs) [] = false
same_ids (x ∷ xs) (y ∷ ys) = nat_beq x y && same_ids xs ys

abbrev pub reconciliation_failure_exit : ℕ
reconciliation_failure_exit = 4

pub record Reconciler : Type 0 where
  pub skip_count : ℕ
  pub success_count : ℕ

unfoldable pub new_reconciler : Reconciler
new_reconciler = record { skip_count = 0; success_count = 0 }

module _ {Cgroups Handler : Type 0} (has_pending_work : Cgroups → Bool)
    (get_cpuset : String → Cgroups → Result (List ℕ))
    (exit : ℕ → Handler → Result (Unit {0}) × Handler) where
  -- The loop over the workloads.
  unfoldable pub check_all : Dict String (List ℕ) → Cgroups → Handler → Result (Unit {0}) × Handler
  check_all [] cgroups handler = (ok tt, handler)
  check_all ((w_id, t_ids) ∷ workloads) cgroups handler =
      let (returned, after) = exit reconciliation_failure_exit handler in
      let matched = check_all workloads cgroups handler in
      let failed = check_all workloads cgroups after in
      elim (get_cpuset w_id cgroups) [
        | raise e ↦ (raise e, handler)
        | ok cpuset ↦ elim (same_ids (sorted cpuset) (sorted t_ids)) [
          | true ↦ matched
          | false ↦ elim returned [ raise e ↦ (raise e, after) | ok _ ↦ failed ]
        ]
      ]

  -- `reconcile(cpu)`
  unfoldable pub reconcile :
      Cpu → Cgroups → Handler → Reconciler → Result (Unit {0}) × Handler × Reconciler
  unfolding get_workloads check_all
  reconcile cpu cgroups handler r = elim (has_pending_work cgroups) [
    | true ↦ (ok tt, handler, record r { skip_count = suc r.skip_count })
    | false ↦
        let (result, after) = check_all (get_workloads cpu) cgroups handler in
        elim result [
          | raise e ↦ (raise e, after, r)
          | ok _ ↦ (ok tt, after, record r { success_count = suc r.success_count })
        ]
  ]
