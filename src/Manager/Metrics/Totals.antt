-- ===== src/Manager/Metrics/Totals.antt =====
-- What the counters of the registry tell, over any run of calls and reports.
use titus_isolate.Prelude.{
  ℕ, ◌+◌, ◌≡◌, String, List, [], ◌∷◌, if◌then◌else◌, Bool-cases, inl, inr, arith,
}
use titus_isolate.Workload.{Workload}
use titus_isolate.Metrics.{Registry, increment, set_gauge}
use titus_isolate.Manager.{Parts, WorkloadManager, isolate, get_success_count}
use titus_isolate.Manager.Counts.{weight, isolate-counts}
use titus_isolate.Manager.Metrics.{
  succeeded_key, failed_key, report_counts, reset_counts, report_gauges, report_metrics,
}

pub data Step : Type 0 where
  isolate_call : List Workload → List String → Step
  -- With the calls of `isolate` that end after it has read the counters and before it sets them back.
  report : List (List Workload × List String) → Step

module _ (parts : Parts)
    (report_allocator : parts.Allocator → Registry → parts.Allocator × Registry)
    (report_cgroup : parts.cgroups.State → Registry → Registry) where
  abbrev State : Type 0
  State = WorkloadManager parts × Registry

  -- Neither of the other reporters touches a counter of the manager.
  abbrev pub LeavesCounter : String → Type 0
  LeavesCounter key =
      ((a : parts.Allocator) (reg : Registry)
        → (report_allocator a reg).1.counters key ≡ reg.counters key)
      × ((s : parts.cgroups.State) (reg : Registry)
          → (report_cgroup s reg).counters key ≡ reg.counters key)

  abbrev pub calls :
      List (List Workload × List String) → WorkloadManager parts → WorkloadManager parts
  calls [] m = m
  calls ((adds, removes) ∷ cs) m = calls cs (isolate parts adds removes m).1

  abbrev pub run_step : Step → State → State
  run_step (isolate_call adds removes) (m, reg) = ((isolate parts adds removes m).1, reg)
  run_step (report between) (m, reg) =
      report_metrics parts report_allocator report_cgroup (calls between) m reg

  abbrev pub run : List Step → State → State
  run [] s = s
  run (step ∷ steps) s = run steps (run_step step s)

  -- What the calls of a run that returned true are worth, and how many returned false, but for those that
  -- end in the middle of a report.
  abbrev pub succeeded : List Step → State → ℕ
  succeeded [] s = 0
  succeeded (report between ∷ steps) s = succeeded steps (run_step (report between) s)
  succeeded (isolate_call adds removes ∷ steps) s =
      (if (isolate parts adds removes s.0).0 then weight adds removes else 0)
      + succeeded steps (run_step (isolate_call adds removes) s)

  abbrev pub failed : List Step → State → ℕ
  failed [] s = 0
  failed (report between ∷ steps) s = failed steps (run_step (report between) s)
  failed (isolate_call adds removes ∷ steps) s =
      (if (isolate parts adds removes s.0).0 then 0 else 1)
      + failed steps (run_step (isolate_call adds removes) s)

  abbrev succeeded_total : State → ℕ
  succeeded_total (m, reg) = reg.counters succeeded_key + get_success_count parts m

  abbrev failed_total : State → ℕ
  failed_total (m, reg) = reg.counters failed_key + m.error_count

  report-totals :
      (between : List (List Workload × List String)) (s : State)
      → LeavesCounter succeeded_key
      → LeavesCounter failed_key
      → (succeeded_total (run_step (report between) s) ≡ succeeded_total s)
        × (failed_total (run_step (report between) s) ≡ failed_total s)
  unfolding report_metrics report_counts reset_counts report_gauges set_gauge increment
      get_success_count
  report-totals between (m, reg) (a, c) (b, d) =
      let n = calls between m in
      (omega (arith, c n.cgroup _, a n.allocator _), omega (arith, d n.cgroup _, b n.allocator _))

  call-totals :
      (adds : List Workload) (removes : List String) (s : State)
      → (succeeded_total (run_step (isolate_call adds removes) s)
          ≡ succeeded_total s
            + (if (isolate parts adds removes s.0).0 then weight adds removes else 0))
        × (failed_total (run_step (isolate_call adds removes) s)
            ≡ failed_total s + (if (isolate parts adds removes s.0).0 then 0 else 1))
  call-totals adds removes (m, reg) =
      let (a, b) = isolate-counts parts adds removes m in
      elim (Bool-cases (isolate parts adds removes m).0) [
        | inl done ↦
            let a' = rw done at a in let b' = rw done at b in rw done (omega arith, omega arith)
        | inr not_done ↦
            let a' = rw not_done at a in
            let b' = rw not_done at b in rw not_done (omega arith, omega arith)
      ]

  -- Where the allocator and the cgroup manager report nothing under the two keys, and the update of a
  -- counter by a call is one step: after any calls of isolate and reports, in any order, each report with
  -- any calls that end between its reading of the counters and its reset, the registry's counter of
  -- successes, with what is not reported yet, has grown by what the other calls that returned true are
  -- worth, and its counter of failures by the number of the others that returned false. The calls that
  -- end in the middle of a report are lost to it, and only they; no call is counted twice.
  pub run-totals :
      (steps : List Step) (m : WorkloadManager parts) (reg : Registry)
      → LeavesCounter succeeded_key
      → LeavesCounter failed_key
      → let (after, reg_after) = run steps (m, reg) in
        (reg_after.counters succeeded_key + get_success_count parts after
          ≡ reg.counters succeeded_key + get_success_count parts m + succeeded steps (m, reg))
        × (reg_after.counters failed_key + after.error_count
            ≡ reg.counters failed_key + m.error_count + failed steps (m, reg))
  run-totals steps m reg a b = go steps (m, reg)
    where
      go :
          (steps : List Step) (s : State)
          → (succeeded_total (run steps s) ≡ succeeded_total s + succeeded steps s)
            × (failed_total (run steps s) ≡ failed_total s + failed steps s)
      go [] s = (omega arith, omega arith)
      go (report between ∷ steps) s =
          let (x, y) = go steps (run_step (report between) s) in
          let (u, v) = report-totals between s a b in (omega arith, omega arith)
      go (isolate_call adds removes ∷ steps) s =
          let (x, y) = go steps (run_step (isolate_call adds removes) s) in
          let (u, v) = call-totals adds removes s in (omega arith, omega arith)
