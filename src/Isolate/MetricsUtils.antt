-- ===== src/Isolate/MetricsUtils.antt =====
-- titus_isolate/isolate/metrics_utils.py
pub mod Totals
use titus_isolate.Prelude.{ℕ, ◌+◌, ◌-◌, List, [], ◌∷◌, not, if◌then◌else◌, ltb, length, keep_if}
use titus_isolate.Processor.Thread.{Thread, is_claimed}
use titus_isolate.Processor.Cpu.{Cpu, get_threads}

unfoldable pub get_allocated_size : Cpu → ℕ
unfolding get_threads is_claimed
get_allocated_size cpu = length (keep_if is_claimed (get_threads cpu))

unfoldable pub get_unallocated_size : Cpu → ℕ
unfolding get_threads is_claimed
get_unallocated_size cpu = length (keep_if (λ t. not (is_claimed t)) (get_threads cpu))

-- The loop of `get_oversubscribed_thread_count`, its counter as an accumulator.
unfoldable pub oversubscribed_from : ℕ → List Thread → ℕ
oversubscribed_from count [] = count
oversubscribed_from count (t ∷ ts) =
    let on_thread = length t.workload_ids in
    oversubscribed_from (if ltb 1 on_thread then count + (on_thread - 1) else count) ts

unfoldable pub get_oversubscribed_thread_count : Cpu → ℕ
unfolding oversubscribed_from get_threads
get_oversubscribed_thread_count cpu = oversubscribed_from 0 (get_threads cpu)
