-- ===== src/Allocate/Forms/RoundTrip.antt =====
-- What is written as a dict is read back.
use titus_isolate.Prelude.{
  ℕ, ◌≡◌, ◌≢◌, refl, sym, ap, ◌∙◌, subst, String, false, List, [], ◌∷◌, ◌++◌, Option, none, some,
  All, IsDistinct, ◌==◌, Dict, lookup, insert, insert-lookup, lookup-insert_ne, lookup-insert_self,
  string_eq, ok,
}
use titus_isolate.Prelude.Sets.{distinct_from-same, IsDistinct-prefix}
use mathlib.Core.List.{append_assoc, append-nil}
use titus_isolate.Json.{
  number, text, as_number, as_text, each, read_items, read_items-each, read_texts-text_fields,
}
use titus_isolate.Processor.Thread.{Thread, new_thread, claim}
use titus_isolate.Processor.Core.{Core, new_core}
use titus_isolate.Processor.Package.{Package, new_package}
use titus_isolate.Processor.Cpu.{Cpu, new_cpu}
use titus_isolate.Allocate.Response.{
  WorkloadAllocateResponse, AllocateResponse, Env, new_response, or_unknown,
}
use titus_isolate.Allocate.Forms.{
  thread_dict, core_dict, package_dict, cpu_dict, claim_each, parse_thread, parse_core,
  parse_package, parse_cpu, workload_response_dict, deserialize_workload_response, response_dict,
  deserialize_response, or_unknown_cell,
}

claim_each-IsDistinct :
    (ids : List String) (t : Thread)
    → IsDistinct (t.workload_ids ++ ids)
    → claim_each ids t ≡ record t { workload_ids = t.workload_ids ++ ids }
unfolding claim_each claim
claim_each-IsDistinct [] t h =
    ap (λ ids. record t { workload_ids = ids }) (sym (append-nil t.workload_ids))
claim_each-IsDistinct (id ∷ ids) t h =
    let ws = t.workload_ids in
    let h' : IsDistinct ((ws ++ id ∷ []) ++ ids) =
      subst IsDistinct (sym (append_assoc ws (id ∷ []) ids)) h in
    let one = distinct_from-same [] (ws ++ id ∷ []) (IsDistinct-prefix (ws ++ id ∷ []) ids h') in
    ap (λ (us : List String). claim_each ids (record t { workload_ids = us })) one
    ∙ (claim_each-IsDistinct ids (record t { workload_ids = ws ++ id ∷ [] }) h'
        ∙ ap (λ us. record t { workload_ids = us }) (append_assoc ws (id ∷ []) ids))

-- A thread whose workload ids are a set; a core, a package and a CPU that are made of at least one.
abbrev pub ThreadIsSet : Thread → Type 0
ThreadIsSet t = IsDistinct t.workload_ids

abbrev pub CoreIsBuilt : Core → Type 0
CoreIsBuilt c = (c.threads ≢ []) × All ThreadIsSet c.threads

abbrev pub PackageIsBuilt : Package → Type 0
PackageIsBuilt p = (p.cores ≢ []) × All CoreIsBuilt p.cores

abbrev pub CpuIsBuilt : Cpu → Type 0
CpuIsBuilt cpu = (cpu.packages ≢ []) × All PackageIsBuilt cpu.packages

ids-back : (ids : List String) → read_items as_text (each text ids) ≡ ok ids
ids-back ids = read_items-each text as_text (λ x. Unit) (λ x h. refl) ids (always ids)
  where
    always : (xs : List String) → All (λ x. Unit {0}) xs
    always [] = tt
    always (x ∷ xs) = (tt, always xs)

thread-back : (t : Thread) → ThreadIsSet t → parse_thread (thread_dict t) ≡ ok t
unfolding new_thread
thread-back t h =
    rw (ids-back t.workload_ids)
      (ap ok (claim_each-IsDistinct t.workload_ids (record t { workload_ids = [] }) h))

new_core-same : (c : Core) → c.threads ≢ [] → new_core c.identifier c.threads ≡ ok c
unfolding new_core
new_core-same c h = go c.threads refl
  where
    go : (ts : List Thread) → c.threads ≡ ts → new_core c.identifier ts ≡ ok c
    go [] e = absurd (h e)
    go (t ∷ ts) e = ap (λ us. ok (record c { threads = us })) (sym e)

core-back : (c : Core) → CoreIsBuilt c → parse_core (core_dict c) ≡ ok c
core-back c h =
    rw (read_items-each thread_dict parse_thread ThreadIsSet thread-back c.threads h.1)
      (new_core-same c h.0)

new_package-same : (p : Package) → p.cores ≢ [] → new_package p.identifier p.cores ≡ ok p
unfolding new_package
new_package-same p h = go p.cores refl
  where
    go : (cs : List Core) → p.cores ≡ cs → new_package p.identifier cs ≡ ok p
    go [] e = absurd (h e)
    go (c ∷ cs) e = ap (λ us. ok (record p { cores = us })) (sym e)

package-back : (p : Package) → PackageIsBuilt p → parse_package (package_dict p) ≡ ok p
package-back p h =
    rw (read_items-each core_dict parse_core CoreIsBuilt core-back p.cores h.1)
      (new_package-same p h.0)

new_cpu-same : (cpu : Cpu) → cpu.packages ≢ [] → new_cpu cpu.packages ≡ ok cpu
unfolding new_cpu
new_cpu-same cpu h = go cpu.packages refl
  where
    go : (ps : List Package) → cpu.packages ≡ ps → new_cpu ps ≡ ok cpu
    go [] e = absurd (h e)
    go (p ∷ ps) e = ap (λ us. ok (record cpu { packages = us })) (sym e)

-- The dict of a CPU is parsed as that CPU.
pub parse_cpu-cpu_dict : (cpu : Cpu) → CpuIsBuilt cpu → parse_cpu (cpu_dict cpu) ≡ ok cpu
unfolding parse_cpu cpu_dict
parse_cpu-cpu_dict cpu h =
    rw (read_items-each package_dict parse_package PackageIsBuilt package-back cpu.packages h.1)
      (new_cpu-same cpu h.0)

numbers-back : (ids : List ℕ) → read_items as_number (each number ids) ≡ ok ids
numbers-back [] = refl
numbers-back (id ∷ ids) = rw (numbers-back ids) refl

pub deserialize_workload_response_back :
    (a : WorkloadAllocateResponse) → deserialize_workload_response (workload_response_dict a) ≡ ok a
unfolding deserialize_workload_response workload_response_dict
deserialize_workload_response_back a = rw (numbers-back a.thread_ids) refl

allocations-back :
    (allocations : List WorkloadAllocateResponse)
    → read_items deserialize_workload_response (each workload_response_dict allocations)
      ≡ ok allocations
allocations-back [] = refl
allocations-back (a ∷ allocations) =
    rw (deserialize_workload_response_back a, allocations-back allocations) refl

new_response-named :
    (env : Env) (r : AllocateResponse) (name id : String)
    → lookup "cpu_allocator" r.metadata ≡ some name
    → lookup "alloc_task_id" r.metadata ≡ some id
    → new_response env r.cpu r.workload_allocations name r.metadata ≡ r
unfolding new_response
new_response-named env r name id h i =
    let same = insert-lookup "cpu_allocator" name r.metadata h in
    rw (same, i) (ap (λ d. record r { metadata = d }) same)

keys_apart : (j k : String) → (j == k) ≡ false → j ≢ k
keys_apart j k h p = cc ((string_eq.beq_iff j k).1 p)

cpu_allocator-cell : ◌≢◌ {A = String} "cpu_allocator" "cell"
cpu_allocator-cell p = keys_apart _ _ refl p

alloc_task_id-cell : ◌≢◌ {A = String} "alloc_task_id" "cell"
alloc_task_id-cell p = keys_apart _ _ refl p

cpu_allocator-alloc_task_id : ◌≢◌ {A = String} "cpu_allocator" "alloc_task_id"
cpu_allocator-alloc_task_id p = keys_apart _ _ refl p

deserialize_response-named :
    (env : Env) (headers : Dict String String) (r : AllocateResponse) (name id : String)
    → CpuIsBuilt r.cpu
    → lookup "cpu_allocator" r.metadata ≡ some name
    → lookup "alloc_task_id" r.metadata ≡ some id
    → deserialize_response env headers (response_dict r)
      ≡ ok (record r {
        metadata =
            insert "cell" (or_unknown_cell (lookup "X-Titus-Isolate-Cell" headers)) r.metadata;
      })
unfolding deserialize_response response_dict
deserialize_response-named env headers r name id built h i =
    let cell = or_unknown_cell (lookup "X-Titus-Isolate-Cell" headers) in
    let h' : lookup "cpu_allocator" (insert "cell" cell r.metadata) ≡ some name =
      lookup-insert_ne "cpu_allocator" "cell" cell r.metadata cpu_allocator-cell ∙ h in
    let i' : lookup "alloc_task_id" (insert "cell" cell r.metadata) ≡ some id =
      lookup-insert_ne "alloc_task_id" "cell" cell r.metadata alloc_task_id-cell ∙ i in
    rw
      (
        parse_cpu-cpu_dict r.cpu built,
        read_texts-text_fields r.metadata,
        h',
        allocations-back r.workload_allocations,
      )
      (ap ok (
        new_response-named env (record r { metadata = insert "cell" cell r.metadata }) name id h'
          i'))

new_response-cpu_allocator :
    (env : Env) (cpu : Cpu) (allocations : List WorkloadAllocateResponse) (name : String)
    (metadata : Dict String String)
    → lookup "cpu_allocator" (new_response env cpu allocations name metadata).metadata ≡ some name
unfolding new_response
new_response-cpu_allocator env cpu allocations name metadata =
    let named = insert "cpu_allocator" name metadata in
    go (lookup "alloc_task_id" named) (or_unknown env.titus_task_id) named
      (lookup-insert_self "cpu_allocator" name metadata)
  where
    go :
        (o : Option String) (id : String) (named : Dict String String)
        → lookup "cpu_allocator" named ≡ some name
        → lookup "cpu_allocator"
            (elim o [ none ↦ insert "alloc_task_id" id named | some _ ↦ named ])
          ≡ some name
    go none id named h =
        lookup-insert_ne "cpu_allocator" "alloc_task_id" id named cpu_allocator-alloc_task_id ∙ h
    go (some i) id named h = h

new_response-alloc_task_id :
    (env : Env) (cpu : Cpu) (allocations : List WorkloadAllocateResponse) (name : String)
    (metadata : Dict String String)
    → (id : String) × (lookup "alloc_task_id"
          (new_response env cpu allocations name metadata).metadata
        ≡ some id)
unfolding new_response
new_response-alloc_task_id env cpu allocations name metadata =
    let named = insert "cpu_allocator" name metadata in
    go (lookup "alloc_task_id" named) (or_unknown env.titus_task_id) named refl
  where
    go :
        (o : Option String) (id : String) (named : Dict String String)
        → lookup "alloc_task_id" named ≡ o
        → (i : String) × (lookup "alloc_task_id"
              (elim o [ none ↦ insert "alloc_task_id" id named | some _ ↦ named ])
            ≡ some i)
    go none id named h = (id, lookup-insert_self "alloc_task_id" id named)
    go (some i) id named h = (i, h)

-- A response of an allocator, on a CPU that its constructors can build and whose threads keep their
-- workload ids as sets, is read back from its dict as it was, with the cell that the headers name, or
-- unknown_cell, added to its metadata.
pub deserialize_response_lem :
    (env here : Env) (cpu : Cpu) (allocations : List WorkloadAllocateResponse) (name : String)
    (metadata headers : Dict String String)
    → CpuIsBuilt cpu
    → let r = new_response env cpu allocations name metadata in
      deserialize_response here headers (response_dict r)
      ≡ ok (record r {
        metadata =
            insert "cell" (or_unknown_cell (lookup "X-Titus-Isolate-Cell" headers)) r.metadata;
      })
unfolding new_response
deserialize_response_lem env here cpu allocations name metadata headers built =
    let r = new_response env cpu allocations name metadata in
    let (id, i) = new_response-alloc_task_id env cpu allocations name metadata in
    deserialize_response-named here headers r name id built
      (new_response-cpu_allocator env cpu allocations name metadata) i
