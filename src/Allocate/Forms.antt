-- ===== src/Allocate/Forms.antt =====
-- The dicts that are sent and kept: titus_isolate/model/processor/cpu.py, titus_isolate/allocate/utils.py,
-- workload_allocate_response.py, allocate_response.py, and titus_isolate/model/legacy_workload.py.
pub mod RoundTrip
mod Tests
use titus_isolate.Prelude.{
  ℕ, String, Bool, false, List, [], ◌∷◌, Option, none, some, Dict, lookup, insert, string_eq,
  Result, ok, raise, key_error, ◌>>=◌, pos,
}
use titus_isolate.Json.{
  Json, number, text, flag, array, object, Items, nil, cons, end, entry, as_number, as_text,
  as_flag, as_object, get_field, get_or, each, read_items, read_each, text_fields, read_texts,
}
use titus_isolate.Workload.{Workload}
use titus_isolate.Processor.Thread.{Thread, new_thread, claim}
use titus_isolate.Processor.Core.{Core, new_core}
use titus_isolate.Processor.Package.{Package, new_package}
use titus_isolate.Processor.Cpu.{Cpu, new_cpu}
use titus_isolate.Allocate.Response.{WorkloadAllocateResponse, AllocateResponse, Env, new_response}

abbrev thread_dict : Thread → Json
thread_dict t = object (
    entry "id" (number t.processor_id) (entry "workload_id" (array (each text t.workload_ids)) end))

abbrev core_dict : Core → Json
core_dict c =
    object
      (entry "id" (number c.identifier) (entry "threads" (array (each thread_dict c.threads)) end))

abbrev package_dict : Package → Json
package_dict p =
    object (entry "id" (number p.identifier) (entry "cores" (array (each core_dict p.cores)) end))

-- `cpu.to_dict()`
unfoldable pub cpu_dict : Cpu → Json
cpu_dict cpu = object (entry "packages" (array (each package_dict cpu.packages)) end)

-- `cpu.to_array()`
unfoldable pub cpu_array : Cpu → Json
cpu_array cpu = array (
    each
      (λ (p : Package). array (
        each
          (λ (c : Core). array (each (λ (t : Thread). array (each text t.workload_ids)) c.threads))
          p.cores))
      cpu.packages)

-- `for w_id in t["workload_id"]: thread.claim(w_id)`
unfoldable pub claim_each : List String → Thread → Thread
unfolding claim
claim_each [] thread = thread
claim_each (w_id ∷ ids) thread = claim_each ids (claim thread w_id)

abbrev parse_thread : Json → Result Thread
parse_thread t = get_field "id" t >>= λ id. as_number id >>= λ n. new_thread (pos n) >>= λ thread.
    get_field "workload_id" t >>= λ ids.
    read_each as_text ids >>= λ w_ids. ok (claim_each w_ids thread)

abbrev parse_core : Json → Result Core
parse_core c = get_field "threads" c >>= λ ts. read_each parse_thread ts >>= λ threads.
    get_field "id" c >>= λ id. as_number id >>= λ n. new_core n threads

abbrev parse_package : Json → Result Package
parse_package p = get_field "cores" p >>= λ cs. read_each parse_core cs >>= λ cores.
    get_field "id" p >>= λ id. as_number id >>= λ n. new_package n cores

-- `parse_cpu(cpu_dict)`
unfoldable pub parse_cpu : Json → Result Cpu
unfolding claim_each new_thread new_core new_package new_cpu
parse_cpu cpu_dict = get_field "packages" cpu_dict >>= λ ps. read_each parse_package ps >>= new_cpu

-- `LegacyWorkload.to_dict()`
unfoldable pub workload_dict : Workload → Json
workload_dict w = object (
    entry "task_id" (text w.task_id)
      (entry "job_id" (text w.job_id) (entry "thread_count" (number w.thread_count) end)))

-- `WorkloadAllocateResponse.to_dict()`
unfoldable pub workload_response_dict : WorkloadAllocateResponse → Json
workload_response_dict a = object (
    entry "workload_id" (text a.workload_id) (
      entry "cpu_quota" (number a.cpu_quota) (
        entry "cpu_shares" (number a.cpu_shares) (
          entry "cpu_thread_ids" (array (each number a.thread_ids)) (
            entry "memory_migrate" (flag a.memory_migrate) (
              entry "memory_spread_page" (flag a.memory_spread_page)
                (entry "memory_spread_slab" (flag a.memory_spread_slab) end)))))))

unfoldable pub deserialize_workload_response : Json → Result WorkloadAllocateResponse
deserialize_workload_response body = get_field "workload_id" body >>= as_text >>= λ workload_id.
    get_field "cpu_thread_ids" body >>= read_each as_number >>= λ thread_ids.
    get_field "cpu_shares" body >>= as_number >>= λ cpu_shares.
    get_field "cpu_quota" body >>= as_number >>= λ cpu_quota.
    get_or "memory_migrate" (flag false) body >>= as_flag >>= λ memory_migrate.
    get_or "memory_spread_page" (flag false) body >>= as_flag >>= λ memory_spread_page.
    get_or "memory_spread_slab" (flag false) body >>= as_flag >>= λ memory_spread_slab. ok (record {
      workload_id = workload_id;
      thread_ids = thread_ids;
      cpu_shares = cpu_shares;
      cpu_quota = cpu_quota;
      memory_migrate = memory_migrate;
      memory_spread_page = memory_spread_page;
      memory_spread_slab = memory_spread_slab;
    })

-- `AllocateResponse.to_dict()`
unfoldable pub response_dict : AllocateResponse → Json
unfolding cpu_dict workload_response_dict cpu_array
response_dict r = object (
    entry "cpu" (cpu_dict r.cpu) (
      entry "workload_allocations" (array (each workload_response_dict r.workload_allocations)) (
        entry "cpu_array" (cpu_array r.cpu)
          (entry "metadata" (object (text_fields r.metadata)) end))))

abbrev or_unknown_cell : Option String → String
or_unknown_cell none = "unknown_cell"
or_unknown_cell (some cell) = cell

abbrev name_of : Option String → Result String
name_of none = raise key_error
name_of (some name) = ok name

-- `deserialize_response(headers, body)`
unfoldable pub deserialize_response : Env → Dict String String → Json → Result AllocateResponse
unfolding parse_cpu deserialize_workload_response new_response
deserialize_response env headers body =
    let cell = or_unknown_cell (lookup "X-Titus-Isolate-Cell" headers) in
    get_field "cpu" body >>= parse_cpu >>= λ cpu.
    get_field "metadata" body >>= as_object >>= read_texts >>= λ d.
    let metadata = insert "cell" cell d in
    name_of (lookup "cpu_allocator" metadata) >>= λ cpu_allocator_name.
    get_field "workload_allocations" body
    >>= read_each deserialize_workload_response
    >>= λ workload_allocations.
        ok (new_response env cpu workload_allocations cpu_allocator_name metadata)
