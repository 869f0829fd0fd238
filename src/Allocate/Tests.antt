-- ===== src/Allocate/Tests.antt =====
-- The allocators on small inputs, and their theorems there.
use titus_isolate.Prelude.{
  ◌≡◌, refl, ok, none, string_eq, true, if◌then◌else◌, length, [], ◌++◌, ◌∷◌, arith,
}
use titus_isolate.Processor.Cpu.{get_threads, get_thread_ids}
use titus_isolate.Processor.Thread.{is_claimed, claim}
use titus_isolate.Processor.Utils.{refs_from}
use titus_isolate.Allocate.Response.{AllocateResponse}
use titus_isolate.Allocate.Greedy
use titus_isolate.Allocate.Greedy.{assign_threads}
use titus_isolate.Allocate.Greedy.Claiming.{Granted, assign_threads_lem}
use titus_isolate.Allocate.Greedy.Isolation.{IsIsolated, isolate-IsIsolated}
use titus_isolate.Allocate.Naive
use titus_isolate.Allocate.Naive.Kept.{isolate-kept, isolate-dropped}
use titus_isolate.Allocate.Fallback
use titus_isolate.Allocate.Fallback.{
  Allocator, Counts, get_fallback_allocator_calls_count, should_fallback_immediately,
}
use titus_isolate.Allocate.Fallback.Answers.{falls_back, isolate-Answers}
use titus_isolate.Samples.{cpu8, two, workload, too_many, request, env}

abbrev greedy : Allocator
greedy = Greedy.isolate env

abbrev naive : Allocator
naive = Naive.isolate (λ calls ts. ts) env

abbrev no_counts : Counts
no_counts = record {
  primary_assign_threads_call_count = 0;
  primary_free_threads_call_count = 0;
  primary_rebalance_call_count = 0;
  secondary_assign_threads_call_count = 0;
  secondary_free_threads_call_count = 0;
  secondary_rebalance_call_count = 0;
  queue_depth_fallback_count = 0;
}

assign_threads_lem_example : Granted "b" 3 cpu8 (assign_threads 4 "b" 3 cpu8)
assign_threads_lem_example = assign_threads_lem 4 "b" 3 cpu8 (omega arith)

isolate-IsIsolated_example :
    (response : AllocateResponse) × (Greedy.isolate env (request cpu8 two)
      ≡ (ok response, response.cpu))
    × IsIsolated two cpu8 response.cpu
unfolding get_threads
isolate-IsIsolated_example =
    isolate-IsIsolated env (request cpu8 two) (refl, (refl, tt)) (omega arith)

-- "a" goes to the emptiest package and fills its first core first.
greedy_places : get_thread_ids (Greedy.isolate env (request cpu8 two)).1 "a" ≡ 0 ∷ 4 ∷ 1 ∷ []
unfolding Greedy.isolate get_thread_ids refs_from is_claimed claim
greedy_places = refl

isolate-Answers_example :
    let (answer, after) = Fallback.isolate greedy naive 3 none (request cpu8 too_many) no_counts in
    ((response : AllocateResponse) × (answer.0 ≡ ok response))
    × (after.primary_assign_threads_call_count ≡ 1)
    × (get_fallback_allocator_calls_count after
        ≡ (if falls_back greedy naive 3 none (request cpu8 too_many) then 1 else 0))
unfolding get_fallback_allocator_calls_count Naive.isolate
isolate-Answers_example =
    isolate-Answers greedy naive 3 none (request cpu8 too_many) no_counts (λ r. (_, refl))

-- The greedy allocator cannot place nine threads on eight, and the naive one answers in its place.
fallen_back : falls_back greedy naive 3 none (request cpu8 too_many) ≡ true
unfolding Greedy.isolate should_fallback_immediately get_threads refs_from is_claimed claim
fallen_back = refl

-- The naive allocator starts from what the greedy one claimed before it failed: "b" asks for six threads
-- and keeps the five that were left, where the naive allocator alone gives it six.
partial_placement :
    (length (
        get_thread_ids
          (Fallback.isolate greedy naive 3 none (request cpu8 too_many) no_counts).0.1
          "b")
      ≡ 5)
    × (length (get_thread_ids (naive (request cpu8 too_many)).1 "b") ≡ 6)
unfolding Fallback.isolate Naive.isolate Greedy.isolate should_fallback_immediately get_threads
    refs_from is_claimed claim get_thread_ids
partial_placement = (refl, refl)

abbrev backwards : Naive.Shuffle
backwards calls [] = []
backwards calls (t ∷ ts) = backwards calls ts ++ t ∷ []

isolate-kept_example :
    get_thread_ids (Naive.isolate backwards env (request cpu8 two)).1 "a" ≡ get_thread_ids cpu8 "a"
unfolding get_thread_ids get_threads
isolate-kept_example =
    isolate-kept backwards env (request cpu8 two) "a"
      ((refl, tt), (tt, ((refl, tt), (tt, (tt, (tt, (tt, (tt, tt)))))))) refl (λ e. cc e)

isolate-dropped_example :
    get_thread_ids (Naive.isolate backwards env (request cpu8 (workload "b" 4 ∷ []))).1 "a" ≡ []
unfolding get_threads
isolate-dropped_example =
    isolate-dropped backwards env (request cpu8 (workload "b" 4 ∷ [])) "a"
      ((refl, tt), (tt, ((refl, tt), (tt, (tt, (tt, (tt, (tt, tt)))))))) refl refl
