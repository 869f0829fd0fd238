-- ===== src/Allocate/Greedy/Isolation.antt =====
-- The greedy allocator as a whole.
use titus_isolate.Prelude.{
  ◌≤◌, ◌<◌, ◌≡◌, ap, ◌∙◌, String, List, [], ◌∷◌, map, length, All, keep_if, length-map, IsDistinct,
  string_eq, values, ok, raise, value_error, arith,
}
use titus_isolate.Workload.{Workload}
use titus_isolate.Processor.Thread.{Thread, holds}
use titus_isolate.Processor.Claims.{held}
use titus_isolate.Processor.Cpu.{Cpu, get_threads, clear_cpu, get_thread_ids}
use titus_isolate.Allocate.Response.{AllocateResponse, Env, get_workload_allocations, new_response}
use titus_isolate.Allocate.Request.{AllocateRequest}
use titus_isolate.Allocate.Greedy.{assign_all, isolate}
use titus_isolate.Allocate.Greedy.Placement.{
  wanted, ids, assign_all_enough, assign_all_short, Placed-held, Placed-ids, Placed-Exclusive,
}
use titus_isolate.Processor.Everywhere.{
  Exclusive, clear_cpu-Exclusive, empties-clear_cpu, held-clear_cpu, ids-clear_cpu,
}

abbrev pub granted_response : Env → AllocateRequest → Cpu → AllocateResponse
granted_response env request after =
    new_response env after
      (get_workload_allocations env.config_manager after (values request.workloads))
      "GreedyCpuAllocator" []

pub isolate-ok :
    (env : Env) (request : AllocateRequest) (after : Cpu)
    → assign_all (values request.workloads) (clear_cpu request.cpu) ≡ (ok tt, after)
    → isolate env request ≡ (ok (granted_response env request after), after)
unfolding isolate
isolate-ok env request after e = ground arith

isolate-raise :
    (env : Env) (request : AllocateRequest) (after : Cpu)
    → assign_all (values request.workloads) (clear_cpu request.cpu) ≡ (raise value_error, after)
    → isolate env request ≡ (raise value_error, after)
unfolding isolate
isolate-raise env request after e = ground arith

-- A placement that gives each of the workloads all the threads it asks for, and no thread to two.
pub record IsIsolated (workloads : List Workload) (before after : Cpu) : Type 0 where
  pub granted :
      All (λ (w : Workload). length (get_thread_ids after w.task_id) ≡ w.thread_count) workloads
  pub exclusive : Exclusive (get_threads after)
  pub same_threads :
      map (λ (t : Thread). t.processor_id) (get_threads after)
      ≡ map (λ (t : Thread). t.processor_id) (get_threads before)

pub length-get_thread_ids :
    (cpu : Cpu) (w : String) → length (get_thread_ids cpu w) ≡ held w (get_threads cpu)
unfolding get_thread_ids
length-get_thread_ids cpu w = length-map (keep_if (holds w) (get_threads cpu)) _

-- If the workloads of a request have different task ids and ask for no more threads together than the
-- CPU has, `isolate` of the greedy allocator returns a response: in the CPU of the response, which is
-- the request's, each workload is on exactly as many threads as it asks for, no thread is claimed by
-- two workloads, and the threads are those of the request's CPU, whatever was claimed there before.
pub isolate-IsIsolated :
    (env : Env) (request : AllocateRequest)
    → IsDistinct (ids (values request.workloads))
    → wanted (values request.workloads) ≤ length (get_threads request.cpu)
    → (response : AllocateResponse) × (isolate env request ≡ (ok response, response.cpu))
      × IsIsolated (values request.workloads) request.cpu response.cpu
unfolding new_response
isolate-IsIsolated env request different fits =
    let ws = values request.workloads in
    let cleared = clear_cpu request.cpu in
    let (after, e, p) =
      assign_all_enough ws cleared (omega (arith, empties-clear_cpu request.cpu)) in
    (
      granted_response env request after,
      isolate-ok env request after e,
      record {
        granted =
            granted_all ws after
              (Placed-held ws _ _ different (λ v _. held-clear_cpu v request.cpu) p);
        exclusive = Placed-Exclusive ws _ _ p (clear_cpu-Exclusive request.cpu);
        same_threads = Placed-ids ws _ _ p ∙ ids-clear_cpu request.cpu;
      },
    )
  where
    granted_all :
        (ws : List Workload) (after : Cpu)
        → All (λ (w : Workload). held w.task_id (get_threads after) ≡ w.thread_count) ws
        → All (λ (w : Workload). length (get_thread_ids after w.task_id) ≡ w.thread_count) ws
    granted_all [] after a = tt
    granted_all (w ∷ ws) after a =
        (length-get_thread_ids after w.task_id ∙ a.0, granted_all ws after a.1)

-- If the workloads of a request ask for more threads together than the CPU has, `isolate` of the greedy
-- allocator raises ValueError.
pub isolate-raise_full :
    (env : Env) (request : AllocateRequest)
    → length (get_threads request.cpu) < wanted (values request.workloads)
    → (isolate env request).0 ≡ raise value_error
isolate-raise_full env request over =
    let (after, e) =
      assign_all_short (values request.workloads) (clear_cpu request.cpu)
        (omega (arith, empties-clear_cpu request.cpu)) in
    ap (λ r. r.0) (isolate-raise env request after e)
