-- ===== src/Allocate/Remote/Claims.antt =====
-- The CPU of a response of the remote allocator, against its allocations.
use titus_isolate.Prelude.{
  ℕ, zero, suc, ◌<◌, ◌≡◌, refl, sym, ap, ◌∙◌, subst, String, Bool, false, List, [], ◌∷◌, ◌++◌, ◌&&◌,
  ◌||◌, Option, none, some, ◌==◌, string_eq, nat_eq, eq_cases, beq_refl, beq_ne, IsDistinct, inl,
  inr, map, length, length-map, get_elem?, contains, All, All-get_elem?, Dict, lookup, insert,
  lookup-insert_self, lookup-insert_ne, ok, arith,
}
use titus_isolate.Prelude.Sets.{contains-append, contains-distinct}
use titus_isolate.Processor.Thread.{Thread, claim, holds}
use titus_isolate.Processor.Cpu.{Cpu, get_threads, map_threads}
use titus_isolate.Processor.Everywhere.{get_threads-map_threads}
use titus_isolate.Allocate.Response.{WorkloadAllocateResponse, AllocateResponse, Env, new_response}
use titus_isolate.Allocate.Forms.{claim_each}
use titus_isolate.Allocate.Remote.{
  Cpuset, or_empty, allocation_of, add_claims, read_cpusets, claim_listed, deser,
  get_natural_indexing_2_original_indexing,
}
use titus_isolate.Allocate.Remote.Positions.{id_at, original_ids-lt, contains-ids}

-- Whether an allocation of a workload names a thread.
abbrev pub claimed : List WorkloadAllocateResponse → ℕ → String → Bool
claimed [] id w = false
claimed (a ∷ allocations) id w =
    (w == a.workload_id && contains a.thread_ids id) || claimed allocations id w

abbrev on : ℕ → Dict ℕ (List String) → String → Bool
on id d w = contains (or_empty (lookup id d)) w

insert-on :
    (t : ℕ) (wid : String) (d : Dict ℕ (List String)) (id : ℕ) (w : String)
    → on id (insert t (or_empty (lookup t d) ++ wid ∷ []) d) w
      ≡ (on id d w || (w == wid && id == t))
insert-on t wid d id w = elim (eq_cases id t) [
  | inl same ↦
      rw (same, lookup-insert_self t (or_empty (lookup t d) ++ wid ∷ []) d, beq_refl t)
        (ground (arith, contains-append (or_empty (lookup t d)) (wid ∷ []) w))
  | inr other ↦
      rw (lookup-insert_ne id t (or_empty (lookup t d) ++ wid ∷ []) d other, beq_ne id t other)
        (ground arith)
]

add_claims-on :
    (wid : String) (tids : List ℕ) (d : Dict ℕ (List String)) (id : ℕ) (w : String)
    → on id (add_claims wid tids d) w ≡ (on id d w || (w == wid && contains tids id))
unfolding add_claims
add_claims-on wid [] d id w = ground arith
add_claims-on wid (t ∷ tids) d id w =
    let next = insert t (or_empty (lookup t d) ++ wid ∷ []) d in
    add_claims-on wid tids next id w
    ∙ (ap (λ b. b || (w == wid && contains tids id)) (insert-on t wid d id w)
        ∙ regroup (on id d w) (w == wid) (id == t) (contains tids id))
  where
    regroup : (a b c e : Bool) → ((a || (b && c)) || (b && e)) ≡ (a || (b && (c || e)))
    regroup a b c e = ground arith

claim_each-contains :
    (ids : List String) (t : Thread) (w : String)
    → contains (claim_each ids t).workload_ids w ≡ (contains t.workload_ids w || contains ids w)
unfolding claim_each claim
claim_each-contains [] t w = ground arith
claim_each-contains (id ∷ ids) t w =
    claim_each-contains ids (claim t id) w
    ∙ (ap (λ b. b || contains ids w)
          (contains-distinct (t.workload_ids ++ id ∷ []) w
            ∙ contains-append t.workload_ids (id ∷ []) w)
        ∙ ground arith)

claim_each-id : (ids : List String) (t : Thread) → (claim_each ids t).processor_id ≡ t.processor_id
unfolding claim_each claim
claim_each-id [] t = refl
claim_each-id (id ∷ ids) t = claim_each-id ids (claim t id)

-- A thread that no workload is on is claimed for just the workloads that are listed for it.
abbrev IsClaimedAs : List WorkloadAllocateResponse → Thread → Type 0
IsClaimedAs allocations t = (w : String) → holds w t ≡ claimed allocations t.processor_id w

claim_listed-IsClaimedAs :
    (allocations : List WorkloadAllocateResponse) (d : Dict ℕ (List String)) (t : Thread)
    → ((id : ℕ) (w : String) → on id d w ≡ claimed allocations id w)
    → t.workload_ids ≡ []
    → IsClaimedAs allocations (claim_listed d t)
unfolding claim_listed
claim_listed-IsClaimedAs allocations d t h empty w =
    go (lookup t.processor_id d) (h t.processor_id w)
  where
    go :
        (o : Option (List String))
        → contains (or_empty o) w ≡ claimed allocations t.processor_id w
        → let after : Thread = elim o [ none ↦ t | some workloads ↦ claim_each workloads t ] in
          holds w after ≡ claimed allocations after.processor_id w
    go none e = ap (λ (ids : List String). contains ids w) empty ∙ e
    go (some ids) e =
        claim_each-contains ids t w
        ∙ (ap (λ (us : List String). contains us w || contains ids w) empty
            ∙ (e ∙ ap (λ i. claimed allocations i w) (sym (claim_each-id ids t))))

-- Every thread of an answer is one of so many.
abbrev pub AllBelow : ℕ → Dict String Cpuset → Type 0
AllBelow n = All (λ (e : String × Cpuset). All (λ tid. tid < n) e.1.thread_ids)

or_assoc : (a b c : Bool) → ((a || b) || c) ≡ (a || (b || c))
or_assoc a b c = ground arith

-- Whether a cpuset of a workload names the thread at a position.
abbrev pub named : Dict String Cpuset → ℕ → String → Bool
named [] i w = false
named ((wid, cpuset) ∷ cpusets) i w =
    (w == wid && contains cpuset.thread_ids i) || named cpusets i w

-- The allocations that an answer gives: each cpuset with the ids of its threads.
abbrev pub allocations_of : List ℕ → Dict String Cpuset → List WorkloadAllocateResponse
allocations_of originals cpusets =
    map (λ (e : String × Cpuset). allocation_of e.0 e.1 (map (id_at originals) e.1.thread_ids))
      cpusets

claimed-named :
    (originals : List ℕ) (cpusets : Dict String Cpuset) (i : ℕ) (w : String)
    → IsDistinct originals
    → i < length originals
    → AllBelow (length originals) cpusets
    → claimed (allocations_of originals cpusets) (id_at originals i) w ≡ named cpusets i w
claimed-named originals [] i w d h below = refl
claimed-named originals ((wid, cpuset) ∷ cpusets) i w d h below =
    rw
      (
        contains-ids originals cpuset.thread_ids i d h below.0,
        claimed-named originals cpusets i w d h below.1,
      )
      refl

read_cpusets-on :
    (originals : List ℕ) (cpusets : Dict String Cpuset) (d : Dict ℕ (List String))
    → AllBelow (length originals) cpusets
    → (claims : Dict ℕ (List String)) × (read_cpusets originals cpusets d
        ≡ ok (allocations_of originals cpusets, claims))
      × ((id : ℕ) (w : String)
          → on id claims w ≡ (on id d w || claimed (allocations_of originals cpusets) id w))
unfolding read_cpusets
read_cpusets-on originals [] d h = (d, refl, λ id w. ground arith)
read_cpusets-on originals ((wid, cpuset) ∷ cpusets) d h =
    let ids = map (id_at originals) cpuset.thread_ids in
    let rest = allocations_of originals cpusets in
    let (claims, es, f) = read_cpusets-on originals cpusets (add_claims wid ids d) h.1 in
    (
      claims,
      rw (original_ids-lt originals cpuset.thread_ids h.0, es) refl,
      λ id w.
          f id w
          ∙ (ap (λ b. b || claimed rest id w) (add_claims-on wid ids d id w)
              ∙ or_assoc (on id d w) (w == wid && contains ids id) (claimed rest id w)),
    )

All-same :
    (allocations : List WorkloadAllocateResponse) (d : Dict ℕ (List String)) (ts : List Thread)
    → ((id : ℕ) (w : String) → on id d w ≡ claimed allocations id w)
    → All (λ (t : Thread). t.workload_ids ≡ []) ts
    → All (IsClaimedAs allocations) (map (claim_listed d) ts)
All-same allocations d [] h a = tt
All-same allocations d (t ∷ ts) h a =
    (claim_listed-IsClaimedAs allocations d t h a.0, All-same allocations d ts h a.1)

claim_listed-id :
    (d : Dict ℕ (List String)) (t : Thread) → (claim_listed d t).processor_id ≡ t.processor_id
unfolding claim_listed
claim_listed-id d t = go (lookup t.processor_id d)
  where
    go :
        (o : Option (List String))
        → let after : Thread = elim o [ none ↦ t | some workloads ↦ claim_each workloads t ] in
          after.processor_id ≡ t.processor_id
    go none = refl
    go (some ids) = claim_each-id ids t

-- The thread at a position keeps its id.
id_at-claimed :
    (d : Dict ℕ (List String)) (ts : List Thread) (i : ℕ) (t : Thread)
    → get_elem? (map (claim_listed d) ts) i ≡ some t
    → (i < length (map (λ (t : Thread). t.processor_id) ts))
      × (t.processor_id ≡ id_at (map (λ (t : Thread). t.processor_id) ts) i)
id_at-claimed d [] i t e = cc
id_at-claimed d (u ∷ ts) zero t e =
    let same : claim_listed d u ≡ t = cc in
    (omega arith, ap (λ (t : Thread). t.processor_id) (sym same) ∙ claim_listed-id d u)
id_at-claimed d (u ∷ ts) (suc i) t e =
    let (h, same) = id_at-claimed d ts i t e in (omega arith, same)

-- If no two threads of a CPU have the same id and no workload is on any, an answer of the service that names only
-- threads of the CPU, by their positions counted from 0, is taken as a response. It has an allocation for
-- each cpuset, with the cpuset's settings and the ids of the threads that it names; and a workload is
-- on a thread of its CPU just where a cpuset of that workload names the position of the thread.
pub deser-claims :
    (env : Env) (cpu : Cpu) (cpusets : Dict String Cpuset)
    → IsDistinct (map (λ (t : Thread). t.processor_id) (get_threads cpu))
    → All (λ (t : Thread). t.workload_ids ≡ []) (get_threads cpu)
    → AllBelow (length (get_threads cpu)) cpusets
    → (r : AllocateResponse) × (deser env cpu cpusets ≡ ok r)
      × (r.workload_allocations
          ≡ allocations_of (map (λ (t : Thread). t.processor_id) (get_threads cpu)) cpusets)
      × ((i : ℕ) (t : Thread) (w : String)
          → get_elem? (get_threads r.cpu) i ≡ some t
          → holds w t ≡ named cpusets i w)
unfolding deser get_natural_indexing_2_original_indexing new_response
deser-claims env cpu cpusets different empty below =
    let originals = get_natural_indexing_2_original_indexing cpu in
    let count : length originals ≡ length (get_threads cpu) =
      length-map (get_threads cpu) (λ (t : Thread). t.processor_id) in
    let inside : AllBelow (length originals) cpusets =
      subst (λ n. AllBelow n cpusets) (sym count) below in
    let (claims, e, f) = read_cpusets-on originals cpusets [] inside in
    let allocations = allocations_of originals cpusets in
    let threads = get_threads-map_threads (claim_listed claims) cpu in
    (
      new_response env (map_threads (claim_listed claims) cpu) allocations
          "GrpcRemoteIsolationAllocator" [],
      rw e refl,
      refl,
      λ i t w at.
          let here = ap (λ ts. get_elem? ts i) (sym threads) ∙ at in
          let (h, id) = id_at-claimed claims (get_threads cpu) i t here in
          All-get_elem? (IsClaimedAs allocations) (map (claim_listed claims) (get_threads cpu)) i
            (All-same allocations claims (get_threads cpu) f empty) here w
          ∙ (ap (λ k. claimed allocations k w) id
              ∙ claimed-named originals cpusets i w different h inside),
    )
