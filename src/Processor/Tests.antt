-- ===== src/Processor/Tests.antt =====
-- The CPU of a machine on small inputs.
use titus_isolate.Prelude.{
  [], ◌∷◌, refl, raise, index_error, ℕ, List, String, ◌<◌, ◌*◌, ◌≡◌, map, length, All, IsDistinct,
  nat_eq, ok, arith,
}
use titus_isolate.Processor.Cpu.{Cpu, get_threads}
use titus_isolate.Processor.Thread.{is_claimed}
use titus_isolate.Processor.Core.{Core}
use titus_isolate.Processor.Package.{Package}
use titus_isolate.Processor.Package
use titus_isolate.Processor.Visualize.{visualize_cpu_comparison}
use titus_isolate.Processor.Visualize.Pictured.{visualize_cpu_comparison-last}
use titus_isolate.Processor.Config.{get_cpu}
use titus_isolate.Processor.Config.Ids.{id_of, get_cpu_ids}

get_cpu_ids_example :
    (cpu : Cpu) × (get_cpu 2 2 2 ≡ ok cpu)
    × (length (map id_of (get_threads cpu)) ≡ 2 * 2 * 2)
    × IsDistinct (map id_of (get_threads cpu))
    × All (λ i. i < 2 * 2 * 2) (map id_of (get_threads cpu))
get_cpu_ids_example = get_cpu_ids 2 2 2 (omega arith) (omega arith) (omega arith)

-- A package of three cores of one thread, the last of which is claimed in the new CPU.
abbrev single : ℕ → List String → Core
single i on = record {
  identifier = i;
  threads = record { workload_ids = on; processor_id = i } ∷ [];
}

abbrev three : List String → Cpu
three on = record {
  packages =
      record { identifier = 0; cores = single 0 ("a" ∷ []) ∷ single 1 [] ∷ single 2 on ∷ [] } ∷ [];
}

visualize_cpu_comparison-last_example :
    visualize_cpu_comparison (three []) (three ("b" ∷ [])) ≡ raise index_error
unfolding is_claimed Package.get_threads
visualize_cpu_comparison-last_example =
    visualize_cpu_comparison-last 3 (three []) (three ("b" ∷ [])) (omega arith) (omega arith)
      (refl, tt) (refl, tt)
