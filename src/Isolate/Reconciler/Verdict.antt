-- ===== src/Isolate/Reconciler/Verdict.antt =====
-- When a reconciliation succeeds.
use titus_isolate.Prelude.{
  ℕ, suc, ◌≡◌, refl, String, Bool, true, false, List, [], ◌∷◌, All, Dict, Result, ok, raise, Error,
  Bool-cases, Result-cases, inl, inr, arith,
}
use titus_isolate.Processor.Cpu.{Cpu}
use titus_isolate.Isolate.Reconciler.{
  Reconciler, get_workloads, check_all, reconcile, sorted, same_ids, reconciliation_failure_exit,
}

same_ids_refl : (xs ys : List ℕ) → xs ≡ ys → same_ids xs ys ≡ true
same_ids_refl [] [] e = refl
same_ids_refl [] (y ∷ ys) e = cc
same_ids_refl (x ∷ xs) [] e = cc
same_ids_refl (x ∷ xs) (y ∷ ys) e =
    let heads : x ≡ y = cc in let tails : xs ≡ ys = cc in ground (arith, same_ids_refl xs ys tails)

same_ids_eq : (xs ys : List ℕ) → same_ids xs ys ≡ true → xs ≡ ys
same_ids_eq [] [] h = refl
same_ids_eq [] (y ∷ ys) h = cc
same_ids_eq (x ∷ xs) [] h = cc
same_ids_eq (x ∷ xs) (y ∷ ys) h =
    let heads : x ≡ y = ground arith in let tails : xs ≡ ys = same_ids_eq xs ys (ground arith) in cc

module _ {Cgroups Handler : Type 0} (has_pending_work : Cgroups → Bool)
    (get_cpuset : String → Cgroups → Result (List ℕ))
    (exit : ℕ → Handler → Result (Unit {0}) × Handler) where
  -- The cpuset of every workload can be read, and has the ids of the workload's threads.
  abbrev pub Agrees : Cgroups → Dict String (List ℕ) → Type 0
  Agrees cgroups = All (λ (entry : String × List ℕ).
      (cpuset : List ℕ) × (get_cpuset entry.0 cgroups ≡ ok cpuset)
      × (sorted cpuset ≡ sorted entry.1))

  -- `exit` ends the process.
  abbrev pub NeverReturns : Type 0
  NeverReturns = (h : Handler) → (e : Error) × ((exit reconciliation_failure_exit h).0 ≡ raise e)

  check_all-Agrees :
      (workloads : Dict String (List ℕ)) (cgroups : Cgroups) (h : Handler)
      → Agrees cgroups workloads
      → check_all has_pending_work get_cpuset exit workloads cgroups h ≡ (ok tt, h)
  unfolding check_all
  check_all-Agrees [] cgroups h a = refl
  check_all-Agrees ((w, ids) ∷ workloads) cgroups h ((cpuset, read, same), a) = ground (
    arith,
    read,
    same_ids_refl (sorted cpuset) (sorted ids) same,
    check_all-Agrees workloads cgroups h a,
  )

  check_all-ok :
      (workloads : Dict String (List ℕ)) (cgroups : Cgroups) (h : Handler)
      → NeverReturns
      → (check_all has_pending_work get_cpuset exit workloads cgroups h).0 ≡ ok tt
      → Agrees cgroups workloads
  unfolding check_all
  check_all-ok [] cgroups h ends done = tt
  check_all-ok ((w, ids) ∷ workloads) cgroups h ends done =
      elim (Result-cases (get_cpuset w cgroups)) [
        | inl (cpuset, read) ↦ elim (Bool-cases (same_ids (sorted cpuset) (sorted ids))) [
          | inl same ↦ (
            (cpuset, read, same_ids_eq (sorted cpuset) (sorted ids) same),
            check_all-ok workloads cgroups h ends (ground arith),
          )
          | inr differ ↦ absurd (let (e, ended) = ends h in ground arith)
        ]
        | inr (e, failed) ↦ absurd (ground arith)
      ]

  -- If no write is pending and the cpuset of every workload on the CPU can be read and has the ids of
  -- the workload's threads, then `reconcile` counts a success and does not call the exit handler.
  pub reconcile-Agrees :
      (cpu : Cpu) (cgroups : Cgroups) (h : Handler) (r : Reconciler)
      → has_pending_work cgroups ≡ false
      → Agrees cgroups (get_workloads cpu)
      → reconcile has_pending_work get_cpuset exit cpu cgroups h r
        ≡ (ok tt, h, record r { success_count = suc r.success_count })
  unfolding reconcile
  reconcile-Agrees cpu cgroups h r idle a =
      ground (arith, idle, check_all-Agrees (get_workloads cpu) cgroups h a)

  -- If no write is pending and the exit handler ends the process, then a call of `reconcile` that
  -- returns has found the ids of its threads in the cpuset of every workload on the CPU.
  pub reconcile-ok :
      (cpu : Cpu) (cgroups : Cgroups) (h : Handler) (r : Reconciler)
      → has_pending_work cgroups ≡ false
      → NeverReturns
      → (reconcile has_pending_work get_cpuset exit cpu cgroups h r).0 ≡ ok tt
      → Agrees cgroups (get_workloads cpu)
  unfolding reconcile
  reconcile-ok cpu cgroups h r idle ends done =
      check_all-ok (get_workloads cpu) cgroups h ends (ground (arith, idle, done))
