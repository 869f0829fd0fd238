-- ===== src/Rounds/Applied.antt =====
-- The writes that one allocation asks for, on the way to the cpuset files.
pub mod Loop
use titus_isolate.Prelude.{
  ℕ, ◌+◌, ◌<◌, ◌≤◌, ◌≡◌, ◌⊎◌, inl, inr, refl, sym, if◌then◌else◌, ap, ◌∙◌, subst, String, Bool,
  true, false, ◌==◌, ◌&&◌, List, [], ◌∷◌, ◌++◌, Option, none, some, length, sum_by, sum_by-append,
  All, All-append, All-map, Bool-cases, IsDistinct, contains, Dict, lookup, beq_refl, beq_ne,
  string_eq, nat_eq, Result, ok, arith,
}
use titus_isolate.Prelude.Sets.{contains-false}
use titus_isolate.Allocate.Response.{WorkloadAllocateResponse, eq, all_ids_in}
use titus_isolate.Cgroup.File.{
  Setting, cpuset, quota, shares, memory_migrate, memory_spread_page, memory_spread_slab, Value,
  thread_ids, number, flag, Write, Writer, starting, written, added, dead, FileCgroupManager,
  advance, start, set_now, new_write,
}
use titus_isolate.Cgroup.File.Steps.{Step, start_step, set_step, Run, stay, step}
use titus_isolate.Cgroup.File.Settled.{
  writes_cpuset, waits, waiting, Carries, ReadsBack, OnTheWay, has_pending_work-waiting,
}
use titus_isolate.Cgroup.File.Settled.Runs.{Run-OnTheWay}
use titus_isolate.Manager.{Parts, apply_one, apply_isolation, is_unchanged}
use titus_isolate.Manager.Updates.{workload_ids}
use titus_isolate.Isolate.Reconciler.{sorted}
use titus_isolate.Isolate.Reconciler.Sorted.{sorted-all_ids_in}
use titus_isolate.Rounds.{over_files, ReadsAs}

pub Carries-none :
    (c : String) (ids : List ℕ) (ts : List Writer)
    → sum_by (waits c) ts ≡ 0
    → All (Carries c ids) ts
Carries-none c ids [] h = tt
Carries-none c ids (starting w ∷ ts) h =
    (λ on. absurd (ground (arith, on, h)), Carries-none c ids ts (omega arith))
Carries-none c ids (written d ∷ ts) h = (tt, Carries-none c ids ts (omega arith))
Carries-none c ids (added ∷ ts) h = (tt, Carries-none c ids ts (omega arith))
Carries-none c ids (dead ∷ ts) h = (tt, Carries-none c ids ts (omega arith))

pub eq-sorted :
    (a l : WorkloadAllocateResponse)
    → IsDistinct a.thread_ids
    → IsDistinct l.thread_ids
    → eq a l ≡ true
    → sorted l.thread_ids ≡ sorted a.thread_ids
unfolding eq
eq-sorted a l da dl same =
    let there : all_ids_in l.thread_ids a.thread_ids ≡ true = ground (arith, same) in
    let back : all_ids_in a.thread_ids l.thread_ids ≡ true = ground (arith, same) in
    sorted-all_ids_in l.thread_ids a.thread_ids dl da there back

module _ {Files : Type 0} (write : Write → Files → Option Files) where
  start-waiting :
      (c : String) (w : Write) (s : FileCgroupManager write)
      → writes_cpuset c w ≡ false
      → (waiting write c (start write w s) ≡ waiting write c s)
        × (s.fail_count ≤ (start write w s).fail_count)
  unfolding start
  start-waiting c w s other =
      (ground (arith, other, sum_by-append (waits c) s.threads (starting w ∷ [])), omega arith)

  set_now-waiting :
      (c : String) (w : Write) (s : FileCgroupManager write)
      → (waiting write c (set_now write w s) ≡ waiting write c s)
        × (s.fail_count ≤ (set_now write w s).fail_count)
  unfolding set_now advance
  set_now-waiting c w s = (ground arith, ground arith)

module _ {Files : Type 0} (write : Write → Files → Option Files) (parts : Parts) where
  abbrev pub cpuset_write : WorkloadAllocateResponse → Write
  cpuset_write a = new_write write cpuset a.workload_id (thread_ids a.thread_ids)

  abbrev pub other_writes : WorkloadAllocateResponse → List (List Write)
  other_writes a =
      (new_write write quota a.workload_id (number a.cpu_quota) ∷ [])
      ∷ (new_write write shares a.workload_id (number a.cpu_shares) ∷ [])
      ∷ (new_write write memory_migrate a.workload_id (flag a.memory_migrate) ∷ [])
      ∷ (new_write write memory_spread_page a.workload_id (flag a.memory_spread_page) ∷ [])
      ∷ (new_write write memory_spread_slab a.workload_id (flag a.memory_spread_slab) ∷ [])
      ∷ []

  pub no_cpuset :
      (c : String) (a : WorkloadAllocateResponse)
      → All (All (λ (w : Write). writes_cpuset c w ≡ false)) (other_writes a)
  no_cpuset c a = ((refl, tt), ((refl, tt), ((refl, tt), ((refl, tt), ((refl, tt), tt)))))

  -- The six calls, after the first.
  pub apply_one-Run :
      (a : WorkloadAllocateResponse) (s : FileCgroupManager write)
      → Run write
          (other_writes a)
          (start write (cpuset_write a) s)
          (apply_one (over_files write parts) a s)
  unfolding apply_one
  apply_one-Run a s =
      let s1 = start write (cpuset_write a) s in
      let s2 = start write (new_write write quota a.workload_id (number a.cpu_quota)) s1 in
      let s3 = start write (new_write write shares a.workload_id (number a.cpu_shares)) s2 in
      let s4 =
        set_now write (new_write write memory_migrate a.workload_id (flag a.memory_migrate)) s3 in
      let s5 =
        set_now write (new_write write memory_spread_page a.workload_id (flag a.memory_spread_page))
          s4 in
      step (start_step _ s1) (
        step (start_step _ s2)
          (step (set_step _ s3) (step (set_step _ s4) (step (set_step _ s5) (stay _)))))

  apply_one-waiting :
      (c : String) (a : WorkloadAllocateResponse) (s : FileCgroupManager write)
      → (c == a.workload_id) ≡ false
      → (waiting write c (apply_one (over_files write parts) a s) ≡ waiting write c s)
        × (s.fail_count ≤ (apply_one (over_files write parts) a s).fail_count)
  unfolding apply_one
  apply_one-waiting c a s other =
      let w1 = cpuset_write a in
      let w2 = new_write write quota a.workload_id (number a.cpu_quota) in
      let w3 = new_write write shares a.workload_id (number a.cpu_shares) in
      let w4 = new_write write memory_migrate a.workload_id (flag a.memory_migrate) in
      let w5 = new_write write memory_spread_page a.workload_id (flag a.memory_spread_page) in
      let w6 = new_write write memory_spread_slab a.workload_id (flag a.memory_spread_slab) in
      let s1 = start write w1 s in
      let s2 = start write w2 s1 in
      let s3 = start write w3 s2 in
      let s4 = set_now write w4 s3 in
      let s5 = set_now write w5 s4 in
      let (e1, f1) = start-waiting write c w1 s other in
      let (e2, f2) = start-waiting write c w2 s1 refl in
      let (e3, f3) = start-waiting write c w3 s2 refl in
      let (e4, f4) = set_now-waiting write c w4 s3 in
      let (e5, f5) = set_now-waiting write c w5 s4 in
      let (e6, f6) = set_now-waiting write c w6 s5 in (e6 ∙ e5 ∙ e4 ∙ e3 ∙ e2 ∙ e1, omega arith)

  module _ (read : String → Files → Result (List ℕ))
      (files_back : ReadsBack write (ReadsAs read)) where
    abbrev pub Way : String → List ℕ → ℕ → FileCgroupManager write → Type 0
    Way c ids fails s = OnTheWay write (ReadsAs read) c ids fails s

    -- No writer is to write a cpuset, and the file has the ids of the last allocation.
    abbrev pub Ready :
        ℕ → Dict String WorkloadAllocateResponse → FileCgroupManager write → String → Type 0
    Ready fails last s c =
        (waiting write c s ≡ 0)
        × (fails ≤ s.fail_count)
        × ((l : WorkloadAllocateResponse)
            → lookup c last ≡ some l
            → IsDistinct l.thread_ids
              × (ReadsAs read c l.thread_ids s.files ⊎ (fails < s.fail_count)))

    pub Ready-Way :
        (fails : ℕ) (last : Dict String WorkloadAllocateResponse) (s : FileCgroupManager write)
        (c : String) (ids : List ℕ)
        → Ready fails last s c
        → (ReadsAs read c ids s.files ⊎ (fails < s.fail_count))
        → Way c ids fails s
    Ready-Way fails last s c ids (none_waits, below, _) reads =
        (Carries-none c ids s.threads none_waits, below, inr reads)

    -- The calls for one container leave the others on their way.
    pub apply_one-Way :
        (c : String) (ids : List ℕ) (fails : ℕ) (a : WorkloadAllocateResponse)
        (s : FileCgroupManager write)
        → (c == a.workload_id) ≡ false
        → Way c ids fails s
        → Way c ids fails (apply_one (over_files write parts) a s)
    apply_one-Way c ids fails a s other way =
        Run-OnTheWay write (ReadsAs read) files_back c ids fails
          (step (start_step (cpuset_write a) s) (apply_one-Run a s)) ((other, tt), no_cpuset c a)
          way

    pub apply_one-Ready :
        (fails : ℕ) (last : Dict String WorkloadAllocateResponse) (s : FileCgroupManager write)
        (c : String) (a : WorkloadAllocateResponse)
        → (c == a.workload_id) ≡ false
        → Ready fails last s c
        → Ready fails last (apply_one (over_files write parts) a s) c
    apply_one-Ready fails last s c a other ready =
        let (same, grows) = apply_one-waiting c a s other in
        let (none_waits, below, reads) = ready in
        (
          same ∙ none_waits,
          omega arith,
          λ l h.
              let (distinct, r) = reads l h in
              let (_, _, state) =
                apply_one-Way c l.thread_ids fails a s other
                  (Ready-Way fails last s c l.thread_ids ready r) in
              (
                distinct,
                elim state [ inl p ↦ absurd (omega (arith, same, none_waits, p)) | inr r ↦ r ],
              ),
        )
