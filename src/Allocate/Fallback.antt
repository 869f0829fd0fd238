-- ===== src/Allocate/Fallback.antt =====
-- titus_isolate/allocate/fall_back_cpu_allocator.py. The two allocators are arguments; both work on
-- the one request, so the secondary allocator meets the CPU as a failed primary call left it.
pub mod Answers
use titus_isolate.Prelude.{ℕ, suc, ◌+◌, Bool, true, false, Option, none, some, leb, ok, raise}
use titus_isolate.Allocate.Request.{AllocateRequest, Isolated}

abbrev pub Allocator : Type 0
Allocator = AllocateRequest → Isolated

-- The counters of a FallbackCpuAllocator; those for free and rebalance are never raised.
pub record Counts : Type 0 where
  pub primary_assign_threads_call_count : ℕ
  pub primary_free_threads_call_count : ℕ
  pub primary_rebalance_call_count : ℕ
  pub secondary_assign_threads_call_count : ℕ
  pub secondary_free_threads_call_count : ℕ
  pub secondary_rebalance_call_count : ℕ
  pub queue_depth_fallback_count : ℕ

unfoldable pub get_fallback_allocator_calls_count : Counts → ℕ
get_fallback_allocator_calls_count c =
    c.secondary_assign_threads_call_count + c.secondary_free_threads_call_count
    + c.secondary_rebalance_call_count

-- `report_metrics` sets every counter back to zero after it has reported them.
unfoldable pub reset_counts : Counts → Counts
reset_counts c = record {
  primary_assign_threads_call_count = 0;
  primary_free_threads_call_count = 0;
  primary_rebalance_call_count = 0;
  secondary_assign_threads_call_count = 0;
  secondary_free_threads_call_count = 0;
  secondary_rebalance_call_count = 0;
  queue_depth_fallback_count = 0;
}

-- The test of `__should_fallback_immediately`; there is no queue before the event manager is set.
unfoldable pub should_fallback_immediately : ℕ → Option ℕ → Bool
should_fallback_immediately fallback_queue_depth none = false
should_fallback_immediately fallback_queue_depth (some queue_depth) =
    leb fallback_queue_depth queue_depth

abbrev count_secondary : Counts → Counts
count_secondary c = record c {
  secondary_assign_threads_call_count = suc c.secondary_assign_threads_call_count;
}

module _ (primary secondary : Allocator) (fallback_queue_depth : ℕ) where
  -- The `try` block and its handler.
  unfoldable pub isolate : Option ℕ → AllocateRequest → Counts → Isolated × Counts
  unfolding should_fallback_immediately
  isolate queue_depth request c =
      let called = record c {
        primary_assign_threads_call_count = suc c.primary_assign_threads_call_count;
      } in
      elim (should_fallback_immediately fallback_queue_depth queue_depth) [
        | true ↦ (
          secondary request,
          count_secondary (record called {
            queue_depth_fallback_count = suc called.queue_depth_fallback_count;
          }),
        )
        | false ↦
            let (result, cpu) = primary request in
            elim result [
              | ok response ↦ ((ok response, cpu), called)
              | raise _ ↦ (secondary (record request { cpu = cpu }), count_secondary called)
            ]
      ]
