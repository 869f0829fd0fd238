-- ===== src/Isolate/MetricsUtils/Totals.antt =====
-- How the three sizes that are reported of a CPU are related.
use titus_isolate.Prelude.{
  ℕ, ◌+◌, ◌-◌, ◌≡◌, ◌≤◌, ◌↔◌, List, [], ◌∷◌, length, sum_by, keep_if, not, arith,
}
use titus_isolate.Processor.Thread.{Thread, is_claimed}
use titus_isolate.Processor.Cpu.{Cpu, get_threads}
use titus_isolate.Processor.Everywhere.{Exclusive}
use titus_isolate.Isolate.MetricsUtils.{
  get_allocated_size, get_unallocated_size, oversubscribed_from, get_oversubscribed_thread_count,
}

split_length :
    (ts : List Thread)
    → length (keep_if is_claimed ts) + length (keep_if (λ t. not (is_claimed t)) ts) ≡ length ts
split_length [] = omega arith
split_length (t ∷ ts) = ground (arith, split_length ts)

-- Every thread of a CPU is counted once, as allocated or as unallocated.
pub allocated_add_unallocated :
    (cpu : Cpu) → get_allocated_size cpu + get_unallocated_size cpu ≡ length (get_threads cpu)
unfolding get_allocated_size get_unallocated_size
allocated_add_unallocated cpu = split_length (get_threads cpu)

-- How many claims the threads of a list bear.
abbrev pub claims : List Thread → ℕ
claims = sum_by (λ (t : Thread). length t.workload_ids)

oversubscribed_sum :
    (count : ℕ) (ts : List Thread)
    → oversubscribed_from count ts + length (keep_if is_claimed ts) ≡ count + claims ts
unfolding oversubscribed_from is_claimed
oversubscribed_sum count [] = omega arith
oversubscribed_sum count (t ∷ ts) = ground (
  arith,
  oversubscribed_sum count ts,
  oversubscribed_sum (count + (length t.workload_ids - 1)) ts,
)

-- The oversubscribed count and the allocated size together are the number of claims of workloads on
-- threads.
pub oversubscribed_add_allocated :
    (cpu : Cpu)
    → get_oversubscribed_thread_count cpu + get_allocated_size cpu ≡ claims (get_threads cpu)
unfolding get_oversubscribed_thread_count get_allocated_size
oversubscribed_add_allocated cpu = omega (arith, oversubscribed_sum 0 (get_threads cpu))

claims-Exclusive : (ts : List Thread) → (claims ts ≡ length (keep_if is_claimed ts)) ↔ Exclusive ts
unfolding is_claimed
claims-Exclusive ts = (to ts, from ts)
  where
    allocated_le : (ts : List Thread) → length (keep_if is_claimed ts) ≤ claims ts
    allocated_le [] = omega arith
    allocated_le (t ∷ ts) = ground (arith, allocated_le ts)

    to : (ts : List Thread) → claims ts ≡ length (keep_if is_claimed ts) → Exclusive ts
    to [] e = tt
    to (t ∷ ts) e = ground (arith, to ts, allocated_le ts)

    from : (ts : List Thread) → Exclusive ts → claims ts ≡ length (keep_if is_claimed ts)
    from [] x = omega arith
    from (t ∷ ts) x = ground (arith, from ts x.1)

-- The oversubscribed count of a CPU is zero just where no thread is claimed by two workloads.
oversubscribed-Exclusive :
    (cpu : Cpu) → (get_oversubscribed_thread_count cpu ≡ 0) ↔ Exclusive (get_threads cpu)
unfolding get_allocated_size
oversubscribed-Exclusive cpu = (
  λ e. (claims-Exclusive (get_threads cpu)).0 (omega (arith, oversubscribed_add_allocated cpu)),
  λ x. omega (arith, oversubscribed_add_allocated cpu, (claims-Exclusive (get_threads cpu)).1 x),
)
