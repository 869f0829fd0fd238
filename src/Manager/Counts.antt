-- ===== src/Manager/Counts.antt =====
-- How a call of `isolate` changes the counters, and with them the success and error metrics.
use titus_isolate.Prelude.{
  ℕ, suc, ◌+◌, ◌≡◌, String, ◌&&◌, List, nat_beq, length, if◌then◌else◌, arith,
}
use titus_isolate.Workload.{Workload}
use titus_isolate.Manager.{Parts, WorkloadManager, isolate, isolate_locked, get_success_count}

-- How much a successful call counts: each workload added or removed, or one rebalance.
abbrev pub weight : List Workload → List String → ℕ
weight adds removes =
    length adds
    + length removes
    + (if nat_beq (length adds) 0 && nat_beq (length removes) 0 then 1 else 0)

module _ (parts : Parts) (adds : List Workload) (removes : List String)
    (m : WorkloadManager parts) where
  abbrev locked : WorkloadManager parts
  locked = (isolate_locked parts adds removes m).1

  locked_counts :
      (locked.added_count ≡ m.added_count)
      × (locked.removed_count ≡ m.removed_count)
      × (locked.rebalanced_count ≡ m.rebalanced_count)
      × (locked.error_count ≡ m.error_count)
  unfolding isolate_locked
  locked_counts = ground arith

  -- A call of `isolate` that returns true raises the success count by one for each workload added or
  -- removed, or by one where there are none, and leaves the error count; a call that returns false
  -- raises the error count by one and leaves the success count.
  pub isolate-counts :
      let (done, after) = isolate parts adds removes m in
      (get_success_count parts after ≡ (
        if done
        then get_success_count parts m + weight adds removes
        else get_success_count parts m))
      × (after.error_count ≡ (if done then m.error_count else suc m.error_count))
  unfolding isolate get_success_count
  isolate-counts = ground arith
