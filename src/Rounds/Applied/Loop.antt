-- ===== src/Rounds/Applied/Loop.antt =====
-- The writes that a response asks for, on the way to the cpuset files.
use titus_isolate.Prelude.{
  ℕ, ◌≡◌, inl, inr, refl, sym, if◌then◌else◌, ◌∙◌, String, true, false, List, [], ◌∷◌, Option, none,
  some, sum_by-append, All, All-append, Bool-cases, IsDistinct, contains, Dict, lookup, beq_refl,
  beq_ne, string_eq, nat_eq, Result, arith,
}
use titus_isolate.Prelude.Sets.{contains-false}
use titus_isolate.Allocate.Response.{WorkloadAllocateResponse, eq}
use titus_isolate.Cgroup.File.{Write, starting, FileCgroupManager, start}
use titus_isolate.Cgroup.File.Settled.{writes_cpuset, waits, Carries, ReadsBack}
use titus_isolate.Cgroup.File.Settled.Runs.{Run-OnTheWay}
use titus_isolate.Manager.{Parts, apply_one, apply_isolation, is_unchanged}
use titus_isolate.Manager.Updates.{workload_ids}
use titus_isolate.Rounds.{over_files, ReadsAs}
use titus_isolate.Rounds.Applied.{
  Carries-none, eq-sorted, cpuset_write, no_cpuset, apply_one-Run, Way, Ready, Ready-Way,
  apply_one-Way, apply_one-Ready,
}

module _ {Files : Type 0} (write : Write → Files → Option Files) (parts : Parts) where
  module _ (read : String → Files → Result (List ℕ))
      (files_back : ReadsBack write (ReadsAs read)) where
    -- The calls for a container put its ids on their way.
    apply_one-here :
        (fails : ℕ) (last : Dict String WorkloadAllocateResponse) (s : FileCgroupManager write)
        (a : WorkloadAllocateResponse)
        → Ready write parts read files_back fails last s a.workload_id
        → Way write parts read files_back a.workload_id a.thread_ids fails
            (apply_one (over_files write parts) a s)
    unfolding start
    apply_one-here fails last s a (none_waits, below, _) =
        let c = a.workload_id in
        let on : writes_cpuset c (cpuset_write write parts a) ≡ true = beq_refl c in
        Run-OnTheWay write (ReadsAs read) files_back c a.thread_ids fails
          (apply_one-Run write parts a s) (no_cpuset write parts c a)
          (
            All-append (Carries c a.thread_ids) s.threads
                (starting (cpuset_write write parts a) ∷ [])
                (Carries-none c a.thread_ids s.threads none_waits) ((λ _. refl), tt),
            below,
            inl (
                ground (
                  arith,
                  on,
                  sum_by-append (waits c) s.threads (starting (cpuset_write write parts a) ∷ []),
                )),
          )

    -- The step of the loop for one allocation: its ids are on their way, written or left.
    applied-here :
        (fails : ℕ) (last : Dict String WorkloadAllocateResponse) (s : FileCgroupManager write)
        (a : WorkloadAllocateResponse)
        → IsDistinct a.thread_ids
        → Ready write parts read files_back fails last s a.workload_id
        → Way write parts read files_back a.workload_id a.thread_ids fails (
            if is_unchanged (over_files write parts) last a
            then s
            else apply_one (over_files write parts) a s)
    unfolding is_unchanged
    applied-here fails last s a da ready = go (lookup a.workload_id last) refl
      where
        same_ids :
            (l : WorkloadAllocateResponse)
            → lookup a.workload_id last ≡ some l
            → eq a l ≡ true
            → Way write parts read files_back a.workload_id a.thread_ids fails s
        same_ids l h same =
            let (dl, r) = ready.2 l h in
            let sorted_same = eq-sorted a l da dl same in
            Ready-Way write parts read files_back fails last s a.workload_id a.thread_ids ready
              (elim r [ inl (ids, e, p) ↦ inl (ids, e, p ∙ sorted_same) | inr f ↦ inr f ])

        go :
            (o : Option WorkloadAllocateResponse)
            → lookup a.workload_id last ≡ o
            → Way write parts read files_back a.workload_id a.thread_ids fails (
                if elim o [ none ↦ false | some l ↦ eq a l ]
                then s
                else apply_one (over_files write parts) a s)
        go none h = apply_one-here fails last s a ready
        go (some l) h = elim (Bool-cases (eq a l)) [
          | inl same ↦ rw same (same_ids l h same)
          | inr other ↦ rw other (apply_one-here fails last s a ready)
        ]

    applied-other :
        (P : FileCgroupManager write → Type 0) (last : Dict String WorkloadAllocateResponse)
        (s : FileCgroupManager write) (a : WorkloadAllocateResponse)
        → P s
        → P (apply_one (over_files write parts) a s)
        → P (
            if is_unchanged (over_files write parts) last a
            then s
            else apply_one (over_files write parts) a s)
    applied-other P last s a left made =
        elim (Bool-cases (is_unchanged (over_files write parts) last a)) [
          | inl same ↦ rw same left
          | inr other ↦ rw other made
        ]

    apply_isolation-Way :
        (c : String) (ids : List ℕ) (fails : ℕ) (last : Dict String WorkloadAllocateResponse)
        (allocations : List WorkloadAllocateResponse) (s : FileCgroupManager write)
        → contains (workload_ids allocations) c ≡ false
        → Way write parts read files_back c ids fails s
        → Way write parts read files_back c ids fails
            (apply_isolation (over_files write parts) last allocations s)
    unfolding apply_isolation
    apply_isolation-Way c ids fails last [] s absent way = way
    apply_isolation-Way c ids fails last (a ∷ allocations) s absent way =
        let (other, rest) = contains-false c a.workload_id (workload_ids allocations) absent in
        apply_isolation-Way c ids fails last allocations _ rest (
          applied-other (Way write parts read files_back c ids fails) last s a way (
            apply_one-Way write parts read files_back c ids fails a s (beq_ne c a.workload_id other)
              way))

    others-Ready :
        (fails : ℕ) (last : Dict String WorkloadAllocateResponse) (s : FileCgroupManager write)
        (a : WorkloadAllocateResponse) (allocations : List WorkloadAllocateResponse)
        → contains (workload_ids allocations) a.workload_id ≡ false
        → All
            (λ (b : WorkloadAllocateResponse).
              Ready write parts read files_back fails last s b.workload_id)
            allocations
        → All
            (λ (b : WorkloadAllocateResponse).
              Ready write parts read files_back fails last
                (if is_unchanged (over_files write parts) last a
                  then s
                  else apply_one (over_files write parts) a s)
                b.workload_id)
            allocations
    others-Ready fails last s a [] absent ready = tt
    others-Ready fails last s a (b ∷ allocations) absent ready =
        let (other, rest) =
          contains-false a.workload_id b.workload_id (workload_ids allocations) absent in
        (
          applied-other (λ t. Ready write parts read files_back fails last t b.workload_id) last s a
              ready.0
              (apply_one-Ready write parts read files_back fails last s b.workload_id a
                (beq_ne b.workload_id a.workload_id (λ p. other (sym p))) ready.0),
          others-Ready fails last s a allocations rest ready.1,
        )

    -- After the loop, the ids of every allocation are in its file or on their way there.
    pub apply_isolation-All :
        (fails : ℕ) (last : Dict String WorkloadAllocateResponse)
        (allocations : List WorkloadAllocateResponse) (s : FileCgroupManager write)
        → IsDistinct (workload_ids allocations)
        → All (λ (a : WorkloadAllocateResponse). IsDistinct a.thread_ids) allocations
        → All
            (λ (a : WorkloadAllocateResponse).
              Ready write parts read files_back fails last s a.workload_id)
            allocations
        → All
            (λ (a : WorkloadAllocateResponse).
              Way write parts read files_back a.workload_id a.thread_ids fails
                (apply_isolation (over_files write parts) last allocations s))
            allocations
    unfolding apply_isolation
    apply_isolation-All fails last [] s ids distinct ready = tt
    apply_isolation-All fails last (a ∷ allocations) s ids distinct ready = (
      apply_isolation-Way a.workload_id a.thread_ids fails last allocations _ ids.0
          (applied-here fails last s a distinct.0 ready.0),
      apply_isolation-All fails last allocations _ ids.1 distinct.1
          (others-Ready fails last s a allocations ids.0 ready.1),
    )
