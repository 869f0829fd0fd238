-- ===== src/Processor/Thread.antt =====
-- titus_isolate/model/processor/thread.py. The constructor's `__workload_ids` is a Python list
-- that `claim` passes through `set`, so it is kept as a list without repetition.
use titus_isolate.Prelude.{
  ℕ, String, Bool, true, List, [], ◌∷◌, ◌++◌, ◌&&◌, if◌then◌else◌, ltb, length, contains, distinct,
  remove, ◌==◌, string_eq, nat_eq, Result, ok, raise, value_error, ℤ, pos, negsuc,
}

pub record Thread : Type 0 where
  pub workload_ids : List String
  pub processor_id : ℕ

-- `Thread(processor_id)`
unfoldable pub new_thread : ℤ → Result Thread
new_thread (pos n) = ok (record { workload_ids = []; processor_id = n })
new_thread (negsuc n) = raise value_error

unfoldable pub claim : Thread → String → Thread
claim t workload_id = record t { workload_ids = distinct (t.workload_ids ++ workload_id ∷ []) }

unfoldable pub free : Thread → String → Thread
free t workload_id =
    if contains t.workload_ids workload_id
    then record t { workload_ids = remove t.workload_ids workload_id }
    else t

unfoldable pub clear : Thread → Thread
clear t = record t { workload_ids = [] }

unfoldable pub is_claimed : Thread → Bool
is_claimed t = ltb 0 (length t.workload_ids)

-- `workload_id in thread.get_workload_ids()`
abbrev pub holds : String → Thread → Bool
holds workload_id t = contains t.workload_ids workload_id

-- `set(xs) == set(ys)`
abbrev pub all_in : List String → List String → Bool
all_in [] ys = true
all_in (x ∷ xs) ys = contains ys x && all_in xs ys

unfoldable pub eq : Thread → Thread → Bool
eq t other =
    (t.processor_id == other.processor_id)
    && (all_in t.workload_ids other.workload_ids && all_in other.workload_ids t.workload_ids)
