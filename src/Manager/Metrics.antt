-- ===== src/Manager/Metrics.antt =====
-- `report_metrics` of titus_isolate/isolate/workload_manager.py. What the allocator and the cgroup manager report
-- are parameters.
pub mod Totals
mod Tests
use titus_isolate.Prelude.{ℕ, ◌+◌, String, length}
use titus_isolate.Metrics.{Registry, increment, set_gauge}
use titus_isolate.Processor.Cpu.{Cpu}
use titus_isolate.Isolate.Detect.{get_cross_package_violations, get_shared_core_violations}
use titus_isolate.Isolate.MetricsUtils.{
  get_allocated_size, get_unallocated_size, get_oversubscribed_thread_count,
}
use titus_isolate.Manager.{Parts, WorkloadManager, get_success_count}

abbrev pub added_key : String
added_key = "titus-isolate.addedCount"

abbrev pub removed_key : String
removed_key = "titus-isolate.removedCount"

abbrev pub rebalanced_key : String
rebalanced_key = "titus-isolate.rebalancedCount"

abbrev pub succeeded_key : String
succeeded_key = "titus-isolate.succeededCount"

abbrev pub failed_key : String
failed_key = "titus-isolate.failedCount"

module _ (parts : Parts) where
  open parts use {cgroups, Allocator}

  -- The counters that grow by what was counted since the last report.
  unfoldable pub report_counts : WorkloadManager parts → Registry → Registry
  unfolding increment get_success_count
  report_counts m reg =
      let r1 = increment added_key m.added_count reg in
      let r2 = increment removed_key m.removed_count r1 in
      let r3 = increment rebalanced_key m.rebalanced_count r2 in
      let r4 = increment succeeded_key (get_success_count parts m) r3 in
      increment failed_key m.error_count r4

  unfoldable pub reset_counts : WorkloadManager parts → WorkloadManager parts
  reset_counts m = record m {
    added_count = 0;
    removed_count = 0;
    rebalanced_count = 0;
    error_count = 0;
  }

  unfoldable pub report_gauges : Cpu → Registry → Registry
  unfolding set_gauge get_cross_package_violations get_shared_core_violations get_allocated_size
      get_unallocated_size get_oversubscribed_thread_count
  report_gauges cpu reg =
      let r1 =
        set_gauge "titus-isolate.crossPackageViolations" (length (get_cross_package_violations cpu))
          reg in
      let r2 =
        set_gauge "titus-isolate.sharedCoreViolations" (length (get_shared_core_violations cpu))
          r1 in
      let r3 = set_gauge "titus-isolate.allocatedSize" (get_allocated_size cpu) r2 in
      let r4 = set_gauge "titus-isolate.unallocatedSize" (get_unallocated_size cpu) r3 in
      set_gauge "titus-isolate.oversubscribedThreads" (get_oversubscribed_thread_count cpu) r4

  module _ (report_allocator : Allocator → Registry → Allocator × Registry)
      (report_cgroup : cgroups.State → Registry → Registry) where
    -- `report_metrics` up to the counters, which are read one after the other.
    unfoldable pub report_first : WorkloadManager parts → Registry → Registry
    unfolding report_counts set_gauge
    report_first m reg =
        let r1 = set_gauge "titus-isolate.running" 1 reg in
        let r2 = set_gauge "titus-isolate.workloadCount" (length m.workloads) r1 in
        report_counts m r2

    -- And from the reset of the counters on; the CPU was copied at the start.
    unfoldable pub report_rest :
        Cpu → WorkloadManager parts → Registry → WorkloadManager parts × Registry
    unfolding reset_counts report_gauges
    report_rest cpu m reg =
        let fresh = reset_counts m in
        let (allocator, r3) = report_allocator m.allocator (report_gauges cpu reg) in
        (record fresh { allocator = allocator }, report_cgroup m.cgroup r3)

    -- `report_metrics(tags)`. It takes no lock: `between` is what calls of `isolate` in other threads make
    -- of the manager after the counters are read and before they are set back.
    unfoldable pub report_metrics :
        (WorkloadManager parts → WorkloadManager parts)
        → WorkloadManager parts
        → Registry
        → WorkloadManager parts × Registry
    unfolding report_first report_rest
    report_metrics between m reg = report_rest m.cpu (between m) (report_first m reg)
