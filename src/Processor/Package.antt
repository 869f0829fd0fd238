-- ===== src/Processor/Package.antt =====
-- titus_isolate/model/processor/package.py, and the functions of utils.py on a package.
use titus_isolate.Prelude.{
  ℕ, suc, String, Bool, List, [], ◌∷◌, map, ltb, if◌then◌else◌, length, keep_if, concat_map, modify,
  Result, ok, raise, value_error,
}
use titus_isolate.Processor.Thread.{Thread, holds}
use titus_isolate.Processor.Core.{Core}
use titus_isolate.Processor.Core
use titus_isolate.Processor.Utils

pub record Package : Type 0 where
  pub identifier : ℕ
  pub cores : List Core

-- `Package(identifier, cores)`
unfoldable pub new_package : ℕ → List Core → Result Package
new_package identifier [] = raise value_error
new_package identifier (c ∷ cs) = ok (record { identifier = identifier; cores = c ∷ cs })

unfoldable pub get_threads : Package → List Thread
get_threads pack = concat_map (λ (core : Core). core.threads) pack.cores

unfoldable pub get_empty_threads : Package → List ℕ
unfolding get_threads Utils.get_empty_threads
get_empty_threads pack = Utils.get_empty_threads (get_threads pack)

-- The loop of `get_emptiest_core` and `get_emptiest_package`: `best` is the position with the
-- greatest count so far, `i` the position of the next element.
unfoldable pub emptiest_from : (best count i : ℕ) → List ℕ → ℕ
emptiest_from best count i [] = best
emptiest_from best count i (n ∷ ns) =
    emptiest_from (if ltb count n then i else best) (if ltb count n then n else count) (suc i) ns

-- The position of the first greatest count; the constructors leave no list empty.
unfoldable pub emptiest : List ℕ → ℕ
unfolding emptiest_from
emptiest [] = 0
emptiest (n ∷ ns) = emptiest_from 0 n 1 ns

unfoldable pub empty_count : Core → ℕ
unfolding Core.get_empty_threads
empty_count core = length (Core.get_empty_threads core)

-- `utils.get_emptiest_core(package)`
unfoldable pub get_emptiest_core : Package → ℕ
unfolding emptiest empty_count
get_emptiest_core pack = emptiest (map empty_count pack.cores)

-- `utils.get_threads_with_workload` of a package
unfoldable pub get_threads_with_workload : Package → String → List Thread
unfolding get_threads
get_threads_with_workload pack workload_id = keep_if (holds workload_id) (get_threads pack)

-- `utils.is_on_package(package, workload_id)`
unfoldable pub is_on_package : Package → String → Bool
unfolding get_threads_with_workload
is_on_package pack workload_id = ltb 0 (length (get_threads_with_workload pack workload_id))

unfoldable pub modify_core : Package → ℕ → (Core → Core) → Package
modify_core pack i f = record pack { cores = modify pack.cores i f }
