-- ===== src/Rounds/Calls.antt =====
-- The workload manager with the greedy allocator, without an assumption on the responses.
use titus_isolate.Prelude.{
  ℕ, suc, ◌≡◌, sym, ap, ◌∙◌, subst, String, false, List, [], Option, map, All, IsDistinct, keys,
  inl, inr, string_eq, nat_eq, Result, ok,
}
use titus_isolate.Workload.{Workload}
use titus_isolate.Processor.Cpu.{Cpu, get_threads}
use titus_isolate.Allocate.Response.{AllocateResponse, Env}
use titus_isolate.Allocate.Request.{AllocateRequest}
use titus_isolate.Allocate.Greedy
use titus_isolate.Cgroup.File
use titus_isolate.Cgroup.File.{Write, FileCgroupManager, has_pending_work}
use titus_isolate.Cgroup.File.Steps.{Run}
use titus_isolate.Cgroup.File.Settled.{ReadsBack}
use titus_isolate.Manager.{Parts, isolate, new_manager, new_request}
use titus_isolate.Manager.Keyed.{IsKeyed, isolate-IsKeyed, request-IsDistinct}
use titus_isolate.Manager.Workloads.{isolate-IsDistinct}
use titus_isolate.Isolate.Reconciler.{Reconciler, reconcile, get_workloads}
use titus_isolate.Rounds.{
  over_files, ReadsAs, Manager, IsolationRound, round, Rounds, none_yet, next,
}
use titus_isolate.Isolate.Reconciler.Entries.{id_of}
use titus_isolate.Rounds.Greedily.{isolate-ids, isolate-Consistent}
use titus_isolate.Rounds.Outcome.{isolate-Outcome}
use titus_isolate.Rounds.Reconciled.{Rounds-reconcile}

module _ {Files : Type 0} (write : Write → Files → Option Files) (parts : Parts) where
  -- A call of `isolate` and the writers after it, as in an IsolationRound, whatever is answered.
  pub data Call : Manager write parts → Manager write parts → Type 0 where
    called :
        (adds : List Workload) (removes : List String) (m : Manager write parts)
        (after : Manager write parts) (wss : List (List Write))
        → Run write wss (isolate (over_files write parts) adds removes m).1.cgroup after.cgroup
        → All (λ ws. ws ≡ []) wss
        → (has_pending_work write after.cgroup).0 ≡ false
        → after.cgroup.fail_count ≡ m.cgroup.fail_count
        → after
          ≡ record (isolate (over_files write parts) adds removes m).1 { cgroup = after.cgroup }
        → Call m after

  pub data Calls : Manager write parts → Manager write parts → Type 0 where
    no_call : (m : Manager write parts) → Calls m m
    one_more : {m n after : Manager write parts} → Calls m n → Call n after → Calls m after

  -- The workloads stand under different ids, their own, and the CPU has no thread twice.
  abbrev Sound : Manager write parts → Type 0
  Sound m =
      IsKeyed m.workloads
      × IsDistinct (keys m.workloads)
      × IsDistinct (map id_of (get_threads m.cpu))

  module _ (env : Env)
      (greedy : (request : AllocateRequest) (allocator : parts.Allocator)
        → (parts.allocate request allocator).0 ≡ Greedy.isolate env request) where
    answered-greedily :
        (request : AllocateRequest) (allocator : parts.Allocator) (r : AllocateResponse)
        → (parts.allocate request allocator).0.0 ≡ ok r
        → (Greedy.isolate env request).0 ≡ ok r
    answered-greedily request allocator r e = ap (λ x. x.0) (sym (greedy request allocator)) ∙ e

    isolate-threads :
        (adds : List Workload) (removes : List String) (m : Manager write parts)
        → map id_of (get_threads (isolate (over_files write parts) adds removes m).1.cpu)
          ≡ map id_of (get_threads m.cpu)
    unfolding new_request
    isolate-threads adds removes m =
        elim (isolate-Outcome (over_files write parts) adds removes m) [
          | inl (_, kept, _) ↦ ap (λ cpu. map id_of (get_threads cpu)) kept
          | inr (r, answer, _, applied, _) ↦
              let request = new_request (over_files write parts) adds removes m in
              ap (λ cpu. map id_of (get_threads cpu)) applied
              ∙ isolate-ids env request r (answered-greedily request m.allocator r answer)
        ]

    Call-Sound :
        {m after : Manager write parts}
        → Call m after
        → Sound m
        → IsolationRound write parts m after × Sound after
    unfolding new_request
    Call-Sound (called adds removes m after wss run quiet idle kept same)
          (keyed, different, threads) =
        let over = over_files write parts in
        let request = new_request over adds removes m in
        (
          round adds removes m after wss
              (λ r e.
                isolate-Consistent over env request r
                  (request-IsDistinct over adds removes m keyed different) threads
                  (answered-greedily request m.allocator r e))
              run quiet idle kept same,
          subst Sound (sym same) (
            isolate-IsKeyed over adds removes m keyed,
            isolate-IsDistinct over adds removes m different,
            subst IsDistinct (sym (isolate-threads adds removes m)) threads,
          ),
        )

    Calls-Sound :
        {m after : Manager write parts}
        → Calls m after
        → Sound m
        → Rounds write parts m after × Sound after
    Calls-Sound (no_call m) sound = (none_yet m, sound)
    Calls-Sound (one_more calls call) sound =
        let (rounds, mid) = Calls-Sound calls sound in
        let (last, end) = Call-Sound call mid in (next rounds last, end)

  module _ (env : Env)
      (greedy : (request : AllocateRequest) (allocator : parts.Allocator)
        → (parts.allocate request allocator).0 ≡ Greedy.isolate env request)
      (read : String → Files → Result (List ℕ)) (files_back : ReadsBack write (ReadsAs read)) where
    -- A manager whose CPU no workload is on and no thread of which has the id of another begins, with the
    -- greedy allocator; then `isolate` is called again and again, with any additions and removals, each
    -- time with the writers run to their end, none of them failing, before the next call. After any
    -- number of these calls `reconcile` on the manager's CPU counts a success and does not call the exit
    -- handler, if a cpuset that is written is read back and other writes leave it.
    pub Calls-reconcile :
        {Handler : Type 0} (exit : ℕ → Handler → Result (Unit {0}) × Handler) (cpu : Cpu)
        (files : Files) (allocator : parts.Allocator) (m : Manager write parts) (h : Handler)
        (r : Reconciler)
        → get_workloads cpu ≡ []
        → IsDistinct (map id_of (get_threads cpu))
        → Calls
            (new_manager (over_files write parts) cpu (File.new_manager write files) allocator)
            m
        → reconcile
            (λ (s : FileCgroupManager write). (has_pending_work write s).0)
            (λ c s. read c s.files)
            exit
            m.cpu
            m.cgroup
            h
            r
          ≡ (ok tt, h, record r { success_count = suc r.success_count })
    unfolding new_manager
    Calls-reconcile exit cpu files allocator m h r empty threads calls =
        Rounds-reconcile write parts read files_back exit cpu files allocator m h r empty
          (Calls-Sound env greedy calls (tt, tt, threads)).0
