-- ===== src/Allocate/Remote/Tests.antt =====
-- An answer of the service for a CPU of four threads, whose ids are not in order.
use titus_isolate.Prelude.{
  ◌≡◌, refl, ℕ, some, get_elem?, String, false, [], ◌∷◌, ok, raise, key_error, arith,
}
use titus_isolate.Processor.Thread.{Thread, holds}
use titus_isolate.Processor.Cpu.{Cpu, get_threads}
use titus_isolate.Processor.Package
use titus_isolate.Allocate.Response.{AllocateResponse}
use titus_isolate.Allocate.Remote.{
  Cpuset, deser, original_ids, Layout, build_layout, original2natural_from,
  get_natural_indexing_2_original_indexing,
}
use titus_isolate.Allocate.Remote.Layouts.{marks, places, layout_pb_threads, build_layout-places}
use titus_isolate.Allocate.Remote.Claims.{named, allocations_of, deser-claims}
use titus_isolate.Samples.{thread, core, pair, env}

abbrev cpu4 : Cpu
cpu4 = record {
  packages = pair 0 (core 0 (thread 0 []) (thread 4 [])) (core 1 (thread 1 []) (thread 5 [])) ∷ [];
}

abbrev cpuset : Cpuset
cpuset = record {
  thread_ids = 1 ∷ 2 ∷ [];
  shares = 200;
  quota_us = 200000;
  memory_migrate = false;
  memory_spread_page = false;
  memory_spread_slab = false;
}

deser-claims_example :
    (r : AllocateResponse) × (deser env cpu4 (("a", cpuset) ∷ []) ≡ ok r)
    × (r.workload_allocations ≡ allocations_of (0 ∷ 4 ∷ 1 ∷ 5 ∷ []) (("a", cpuset) ∷ []))
    × ((i : ℕ) (t : Thread) (w : String)
        → get_elem? (get_threads r.cpu) i ≡ some t
        → holds w t ≡ named (("a", cpuset) ∷ []) i w)
unfolding get_threads Package.get_threads
deser-claims_example =
    deser-claims env cpu4 (("a", cpuset) ∷ []) (refl, (refl, (refl, (refl, tt))))
      (refl, (refl, (refl, (refl, tt)))) ((omega arith, (omega arith, tt)), tt)

abbrev busy4 : Cpu
busy4 = record {
  packages =
      pair 0 (core 0 (thread 0 []) (thread 4 [])) (core 1 (thread 1 ("a" ∷ [])) (thread 5 [])) ∷ [];
}

build_layout-places_example :
    (layout : Layout) × (build_layout
        (original2natural_from 0 (get_natural_indexing_2_original_indexing busy4) [])
        busy4
      ≡ ok layout)
    × (places (get_natural_indexing_2_original_indexing busy4) (layout_pb_threads layout.packages)
        ≡ marks (get_threads busy4))
build_layout-places_example = build_layout-places busy4

no_such_thread : original_ids (0 ∷ 4 ∷ []) (2 ∷ []) ≡ raise key_error
unfolding original_ids
no_such_thread = refl
