-- ===== src/Manager/Tests.antt =====
-- A manager over a greedy or a no-op allocator, with a cgroup manager that keeps a log of its calls.
use titus_isolate.Prelude.{
  ◌≡◌, ◌⊎◌, refl, ok, raise, index_error, String, [], ◌∷◌, Option, none, some, lookup, string_eq,
  if◌then◌else◌, contains,
}
use titus_isolate.Processor.Thread.{is_claimed, claim}
use titus_isolate.Processor.Utils.{refs_from}
use titus_isolate.Allocate.Response.{AllocateResponse}
use titus_isolate.Allocate.Greedy
use titus_isolate.Manager.{WorkloadManager, new_manager, isolate, new_request, release_all}
use titus_isolate.Manager.Failure.{IsUntouched, IsApplied, Raises, isolate-false}
use titus_isolate.Manager.Workloads.{last_with, or_else, isolate-workloads}
use titus_isolate.Manager.Updates.{isolate-cgroup}
use titus_isolate.Manager.Samples.{greedy_parts, fresh}
use titus_isolate.Samples.{cpu8, core, thread, workload}
use titus_isolate.Processor.Cpu.{get_threads}
use titus_isolate.Processor.Package
use titus_isolate.Processor.Visualize.{visualize}

abbrev running : WorkloadManager greedy_parts
running = (isolate greedy_parts (workload "a" 2 ∷ workload "b" 3 ∷ []) [] fresh).1

-- Nine threads are too many.
isolate-false_example :
    let after = (isolate greedy_parts (workload "c" 9 ∷ []) ("a" ∷ []) fresh).1 in
    IsUntouched greedy_parts (workload "c" 9 ∷ []) ("a" ∷ []) fresh after
    ⊎ ((r : AllocateResponse) × ((greedy_parts.allocate
            (new_request greedy_parts (workload "c" 9 ∷ []) ("a" ∷ []) fresh)
            fresh.allocator).0.0
          ≡ ok r)
        × IsApplied greedy_parts (workload "c" 9 ∷ []) ("a" ∷ []) fresh r after
        × Raises greedy_parts (workload "c" 9 ∷ []) ("a" ∷ []) fresh r)
unfolding isolate Greedy.isolate new_manager refs_from is_claimed claim
isolate-false_example = isolate-false greedy_parts (workload "c" 9 ∷ []) ("a" ∷ []) fresh refl

-- A package of three threads has two places in its picture.
no_picture :
    visualize (record {
      packages =
          record {
            identifier = 0;
            cores =
                core 0 (thread 0 ("a" ∷ [])) (thread 1 [])
                ∷ record { identifier = 1; threads = thread 2 ("a" ∷ []) ∷ [] }
                ∷ [];
          }
          ∷ [];
    })
    ≡ raise index_error
unfolding visualize get_threads Package.get_threads is_claimed
no_picture = refl

isolate-workloads_example :
    lookup "b" (isolate greedy_parts (workload "c" 2 ∷ []) ("b" ∷ []) running).1.workloads
    ≡ or_else
        (last_with "b" (workload "c" 2 ∷ []))
        (if contains {A = String} ("b" ∷ []) "b" then none else lookup "b" running.workloads)
unfolding isolate Greedy.isolate new_manager refs_from is_claimed claim
isolate-workloads_example =
    isolate-workloads greedy_parts (workload "c" 2 ∷ []) ("b" ∷ []) running "b" (refl, (refl, tt))
      refl

abbrev last_of : Option AllocateResponse → AllocateResponse
last_of none = record { cpu = cpu8; workload_allocations = []; metadata = [] }
last_of (some response) = response

-- The greedy allocator places the same workloads again as it did before.
isolate-cgroup_example :
    (isolate greedy_parts [] [] running).1.cgroup ≡ release_all greedy_parts [] running.cgroup
unfolding isolate Greedy.isolate new_manager refs_from is_claimed claim
isolate-cgroup_example =
    isolate-cgroup greedy_parts [] [] running (last_of running.last_response)
      (last_of (isolate greedy_parts [] [] running).1.last_response) refl (refl, (refl, tt)) refl
      refl
