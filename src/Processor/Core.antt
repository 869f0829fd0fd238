-- ===== src/Processor/Core.antt =====
-- titus_isolate/model/processor/core.py
use titus_isolate.Prelude.{ℕ, String, List, [], ◌∷◌, Result, ok, raise, value_error}
use titus_isolate.Processor.Thread.{Thread}
use titus_isolate.Processor.Utils

pub record Core : Type 0 where
  pub identifier : ℕ
  pub threads : List Thread

-- `Core(identifier, threads)`
unfoldable pub new_core : ℕ → List Thread → Result Core
new_core identifier [] = raise value_error
new_core identifier (t ∷ ts) = ok (record { identifier = identifier; threads = t ∷ ts })

-- References are positions in the core's list of threads.
unfoldable pub get_empty_threads : Core → List ℕ
unfolding Utils.get_empty_threads
get_empty_threads core = Utils.get_empty_threads core.threads

-- The threads of the core that a list of references names are claimed for a workload.
unfoldable pub claim_threads : Core → String → List ℕ → Core
unfolding Utils.claim_all
claim_threads core workload_id refs = record core {
  threads = Utils.claim_all workload_id refs core.threads;
}
