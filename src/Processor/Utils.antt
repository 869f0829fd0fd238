-- ===== src/Processor/Utils.antt =====
-- titus_isolate/model/processor/utils.py, its functions on lists of threads. A list of threads that
-- the source filters holds references to them: here it is the list of their positions.
use titus_isolate.Prelude.{ℕ, suc, String, Bool, List, [], ◌∷◌, not, if◌then◌else◌, modify}
use titus_isolate.Processor.Thread.{Thread, is_claimed, claim}

-- The positions, counted from `i`, of the threads that pass a test.
unfoldable pub refs_from : ℕ → (Thread → Bool) → List Thread → List ℕ
refs_from i p [] = []
refs_from i p (t ∷ ts) = let rest = refs_from (suc i) p ts in if p t then i ∷ rest else rest

unfoldable pub get_empty_threads : List Thread → List ℕ
get_empty_threads threads = refs_from 0 (λ t. not (is_claimed t)) threads

unfoldable pub get_claimed_threads : List Thread → List ℕ
get_claimed_threads threads = refs_from 0 is_claimed threads

-- `for t in refs: t.claim(workload_id)`
unfoldable pub claim_all : String → List ℕ → List Thread → List Thread
claim_all workload_id [] threads = threads
claim_all workload_id (i ∷ refs) threads =
    claim_all workload_id refs (modify threads i (λ t. claim t workload_id))
