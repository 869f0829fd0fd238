-- ===== src/Rounds/Reconciled.antt =====
-- After every round, the reconciler succeeds.
use titus_isolate.Prelude.{
  ℕ, suc, ◌≡◌, refl, sym, ◌∙◌, subst, String, List, [], ◌∷◌, Option, none, some, All, Dict, lookup,
  string_eq, nat_eq, Result, ok,
}
use titus_isolate.Processor.Cpu.{Cpu}
use titus_isolate.Allocate.Response.{WorkloadAllocateResponse}
use titus_isolate.Cgroup.File
use titus_isolate.Cgroup.File.{Write, FileCgroupManager, release_container, has_pending_work}
use titus_isolate.Cgroup.File.Settled.{ReadsBack}
use titus_isolate.Manager.{Parts, new_manager, add_allocations, allocation_dict}
use titus_isolate.Isolate.Reconciler.{Reconciler, get_workloads, reconcile, sorted}
use titus_isolate.Isolate.Reconciler.Verdict.{reconcile-Agrees}
use titus_isolate.Rounds.{over_files, ReadsAs, Manager, Rounds}
use titus_isolate.Rounds.InSync.{last_allocations, IsFiled, InSync, Rounds-InSync}

module _ {Files : Type 0} (write : Write → Files → Option Files) (parts : Parts) where
  module _ (read : String → Files → Result (List ℕ))
      (files_back : ReadsBack write (ReadsAs read)) where
    agrees :
        (allocations : Dict String WorkloadAllocateResponse) (files : Files)
        (entries : Dict String (List ℕ))
        → ((c : String) (l : WorkloadAllocateResponse)
            → lookup c allocations ≡ some l
            → IsFiled write parts read files_back files c l)
        → All
            (λ (entry : String × List ℕ).
              (l : WorkloadAllocateResponse) × (lookup entry.0 allocations ≡ some l)
              × (sorted l.thread_ids ≡ sorted entry.1))
            entries
        → All
            (λ (entry : String × List ℕ).
              (cpuset : List ℕ) × (read entry.0 files ≡ ok cpuset)
              × (sorted cpuset ≡ sorted entry.1))
            entries
    agrees allocations files [] filed h = tt
    agrees allocations files ((c, ids) ∷ entries) filed h =
        let ((l, found, same), rest) = h in
        let (_, (cpuset, e, p)) = filed c l found in
        ((cpuset, e, p ∙ same), agrees allocations files entries filed rest)

    -- A manager whose CPU no workload is on begins; then `isolate` is called again and again, each time with
    -- the writers run to their end, none of them failing, before the next call. After any number of these
    -- rounds `reconcile` on the manager's CPU counts a success and does not call the exit handler, if
    -- a cpuset that is written is read back and other writes leave it, and if the allocator's
    -- responses have one allocation per workload, of the threads that the CPU shows, none twice.
    pub Rounds-reconcile :
        {Handler : Type 0} (exit : ℕ → Handler → Result (Unit {0}) × Handler) (cpu : Cpu)
        (files : Files) (allocator : parts.Allocator) (m : Manager write parts) (h : Handler)
        (r : Reconciler)
        → get_workloads cpu ≡ []
        → Rounds write parts
            (new_manager (over_files write parts) cpu (File.new_manager write files) allocator)
            m
        → reconcile
            (λ (s : FileCgroupManager write). (has_pending_work write s).0)
            (λ c s. read c s.files)
            exit
            m.cpu
            m.cgroup
            h
            r
          ≡ (ok tt, h, record r { success_count = suc r.success_count })
    unfolding File.new_manager new_manager has_pending_work allocation_dict add_allocations
    Rounds-reconcile exit cpu files allocator m h r empty rounds =
        let fresh =
          new_manager (over_files write parts) cpu (File.new_manager write files) allocator in
        let sync : InSync write parts read files_back fresh = (
          refl,
          λ c l e. absurd (let none_is : none ≡ some l = e in cc),
          subst
              (All (λ (entry : String × List ℕ).
                (l : WorkloadAllocateResponse) × (lookup entry.0
                    (last_allocations write parts read files_back fresh)
                  ≡ some l)
                × (sorted l.thread_ids ≡ sorted entry.1)))
              (sym empty) tt,
        ) in
        let (idle, filed, placed) = Rounds-InSync write parts read files_back rounds sync in
        reconcile-Agrees (λ (s : FileCgroupManager write). (has_pending_work write s).0)
          (λ c s. read c s.files) exit m.cpu m.cgroup h r idle
          (agrees (last_allocations write parts read files_back m) m.cgroup.files
            (get_workloads m.cpu) filed placed)
