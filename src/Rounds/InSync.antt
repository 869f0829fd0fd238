-- ===== src/Rounds/InSync.antt =====
-- Every round keeps the cpuset files as the CPU of the manager has it.
use titus_isolate.Prelude.{
  ℕ, ◌≡◌, inl, inr, refl, sym, ap, ◌∙◌, subst, String, false, List, [], ◌∷◌, Option, some, All,
  All-map, sum_by, IsDistinct, Dict, lookup, string_eq, nat_eq, Result, arith,
}
use titus_isolate.Allocate.Response.{WorkloadAllocateResponse}
use titus_isolate.Cgroup.File.{Write, FileCgroupManager, release_container, has_pending_work}
use titus_isolate.Cgroup.File.Steps.{Run}
use titus_isolate.Cgroup.File.Settled.{writes_cpuset, waits, ReadsBack, has_pending_work-waiting}
use titus_isolate.Cgroup.File.Settled.Runs.{Run-OnTheWay}
use titus_isolate.Manager.{Parts, isolate, release_all, add_allocations, allocation_dict}
use titus_isolate.Rounds.{
  over_files, ReadsAs, Placed, Manager, IsolationRound, round, Rounds, none_yet, next,
}
use titus_isolate.Rounds.Outcome.{add_allocations-found, isolate-Outcome}
use titus_isolate.Rounds.Applied.{Way, Ready, Ready-Way}
use titus_isolate.Rounds.Applied.Loop.{apply_isolation-All}

module _ {Files : Type 0} (write : Write → Files → Option Files) (parts : Parts) where
  release_all_same :
      (removes : List String) (s : FileCgroupManager write)
      → let after = release_all (over_files write parts) removes s in
        (after.threads ≡ s.threads) × (after.files ≡ s.files) × (after.fail_count ≡ s.fail_count)
  unfolding release_all release_container
  release_all_same [] s = (refl, refl, refl)
  release_all_same (c ∷ removes) s = release_all_same removes (release_container write c s)

  no_writes :
      (c : String) (wss : List (List Write))
      → All (λ ws. ws ≡ []) wss
      → All (All (λ (w : Write). writes_cpuset c w ≡ false)) wss
  no_writes c wss h =
      All-map (λ ws. ws ≡ []) (All (λ (w : Write). writes_cpuset c w ≡ false))
        (λ ws e. subst (All (λ (w : Write). writes_cpuset c w ≡ false)) (sym e) tt) wss h

  module _ (read : String → Files → Result (List ℕ))
      (files_back : ReadsBack write (ReadsAs read)) where
    abbrev pub last_allocations : Manager write parts → Dict String WorkloadAllocateResponse
    last_allocations m = allocation_dict (over_files write parts) m.last_response

    -- An allocation is in the cpuset file of its workload.
    abbrev pub IsFiled : Files → String → WorkloadAllocateResponse → Type 0
    IsFiled files c l = IsDistinct l.thread_ids × ReadsAs read c l.thread_ids files

    abbrev pub InSync : Manager write parts → Type 0
    InSync m =
        ((has_pending_work write m.cgroup).0 ≡ false)
        × ((c : String) (l : WorkloadAllocateResponse)
            → lookup c (last_allocations m) ≡ some l
            → IsFiled m.cgroup.files c l)
        × Placed (over_files write parts) (last_allocations m) m.cpu

    -- When the writers are done and none failed, the ids that were on their way have arrived.
    drained :
        {wss : List (List Write)} {s t : FileCgroupManager write} (c : String) (ids : List ℕ)
        (fails : ℕ)
        → Way write parts read files_back c ids fails s
        → Run write wss s t
        → All (λ ws. ws ≡ []) wss
        → (has_pending_work write t).0 ≡ false
        → t.fail_count ≡ fails
        → ReadsAs read c ids t.files
    drained {wss} {s} {t} c ids fails way run silent idle none_failed =
        let (_, _, state) =
          Run-OnTheWay write (ReadsAs read) files_back c ids fails run (no_writes c wss silent)
            way in
        elim state [
          | inl p ↦ absurd (omega (arith, has_pending_work-waiting write c t idle, p))
          | inr (inl r) ↦ r
          | inr (inr f) ↦ absurd (omega arith)
        ]

    released-Ready :
        (removes : List String) (m : Manager write parts) (c : String)
        → InSync m
        → Ready write parts read files_back m.cgroup.fail_count
            (last_allocations m)
            (release_all (over_files write parts) removes m.cgroup)
            c
    released-Ready removes m c (idle, filed, _) =
        let (threads, files, fails) = release_all_same removes m.cgroup in
        (
          ap (λ ts. sum_by (waits c) ts) threads ∙ has_pending_work-waiting write c m.cgroup idle,
          omega (arith, fails),
          λ l h.
              let (distinct, r) = filed c l h in
              (distinct, inl (subst (ReadsAs read c l.thread_ids) (sym files) r)),
        )

    All-Ready :
        (removes : List String) (m : Manager write parts)
        (allocations : List WorkloadAllocateResponse)
        → InSync m
        → All
            (λ (a : WorkloadAllocateResponse).
              Ready write parts read files_back m.cgroup.fail_count
                (last_allocations m)
                (release_all (over_files write parts) removes m.cgroup)
                a.workload_id)
            allocations
    All-Ready removes m [] sync = tt
    All-Ready removes m (a ∷ allocations) sync =
        (released-Ready removes m a.workload_id sync, All-Ready removes m allocations sync)

    -- A round keeps the cpuset files as the CPU of the manager has it.
    IsolationRound-InSync :
        {m after : Manager write parts}
        → IsolationRound write parts m after
        → InSync m
        → InSync after
    unfolding add_allocations allocation_dict
    IsolationRound-InSync
          (round adds removes m after wss consistent run silent idle none_failed is_after) sync =
        let over = over_files write parts in
        let called = isolate over adds removes m in
        let cpu_is : after.cpu ≡ called.1.cpu = ap (λ (x : Manager write parts). x.cpu) is_after in
        let last_is : last_allocations after ≡ last_allocations called.1 =
          ap (λ (x : Manager write parts). last_allocations x) is_after in
        elim (isolate-Outcome over adds removes m) [
          | inl (last_same, cpu_same, released) ↦
              let same : last_allocations after ≡ last_allocations m =
                last_is ∙ ap (allocation_dict over) last_same in
              (
                idle,
                λ c l h.
                    let had = sym (ap (lookup c) same) ∙ h in
                    let (distinct, r) = sync.1 c l had in
                    let ready = released-Ready removes m c sync in
                    let (_, reads) = ready.2 l had in
                    let way =
                      Ready-Way write parts read files_back m.cgroup.fail_count (last_allocations m)
                        (release_all over removes m.cgroup) c l.thread_ids ready reads in
                    (
                      distinct,
                      drained c l.thread_ids m.cgroup.fail_count
                          (subst
                            (Way write parts read files_back c l.thread_ids m.cgroup.fail_count)
                            (sym released) way)
                          run silent idle none_failed,
                    ),
                subst (λ d. Placed over d after.cpu) (sym same)
                    (subst (Placed over (last_allocations m)) (sym (cpu_is ∙ cpu_same)) sync.2),
              )
          | inr (r, answered, last_same, cpu_same, applied) ↦
              let same : last_allocations after ≡ allocation_dict over (some r) =
                last_is ∙ ap (allocation_dict over) last_same in
              let (ids, distinct, placed) = consistent r answered in
              let ways =
                apply_isolation-All write parts read files_back m.cgroup.fail_count
                  (last_allocations m) r.workload_allocations (release_all over removes m.cgroup)
                  ids distinct (All-Ready removes m r.workload_allocations sync) in
              (
                idle,
                λ c l h.
                    add_allocations-found over (IsFiled after.cgroup.files) r.workload_allocations
                      [] (arrived r.workload_allocations distinct applied ways) (λ k b e. cc) c l
                      (sym (ap (lookup c) same) ∙ h),
                subst (λ d. Placed over d after.cpu) (sym same)
                    (subst (Placed over (allocation_dict over (some r))) (sym (cpu_is ∙ cpu_same))
                      placed),
              )
        ]
      where
        arrived :
            {s : FileCgroupManager write} (allocations : List WorkloadAllocateResponse)
            → All (λ (a : WorkloadAllocateResponse). IsDistinct a.thread_ids) allocations
            → (isolate (over_files write parts) adds removes m).1.cgroup ≡ s
            → All
                (λ (a : WorkloadAllocateResponse).
                  Way write parts read files_back a.workload_id a.thread_ids m.cgroup.fail_count s)
                allocations
            → All
                (λ (a : WorkloadAllocateResponse). IsFiled after.cgroup.files a.workload_id a)
                allocations
        arrived [] d e w = tt
        arrived (a ∷ allocations) d e w = (
          (
            d.0,
            drained a.workload_id a.thread_ids m.cgroup.fail_count
                (subst
                  (Way write parts read files_back a.workload_id a.thread_ids m.cgroup.fail_count)
                  (sym e) w.0)
                run silent idle none_failed,
          ),
          arrived allocations d.1 e w.1,
        )

    pub Rounds-InSync :
        {m after : Manager write parts} → Rounds write parts m after → InSync m → InSync after
    Rounds-InSync (none_yet m) sync = sync
    Rounds-InSync (next rounds last) sync = IsolationRound-InSync last (Rounds-InSync rounds sync)
