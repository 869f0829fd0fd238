-- ===== src/Allocate/Naive/Kept.antt =====
-- What the naive allocator keeps of the placement that it is given.
use titus_isolate.Prelude.{
  ℕ, suc, ◌≡◌, ◌≢◌, refl, sym, ap, ap₂, ◌∙◌, ◌⊎◌, inl, inr, String, Bool, true, false, ◌&&◌, ◌||◌,
  List, [], ◌∷◌, map, if◌then◌else◌, length, keep_if, concat_map, contains, All, IsDistinct,
  string_eq, ltb, Bool-cases, keys, values, arith,
}
use titus_isolate.Prelude.Sets.{
  contains-append, contains-distinct, contains-false, not-contains_lem,
}
use titus_isolate.Workload.{Workload}
use titus_isolate.Processor.Thread.{Thread, claim, holds, is_claimed}
use titus_isolate.Processor.Cpu.{Cpu, get_threads, get_thread_ids, map_threads}
use titus_isolate.Processor.Everywhere.{get_threads-map_threads}
use titus_isolate.Allocate.Response.{Env}
use titus_isolate.Allocate.Request.{AllocateRequest}
use titus_isolate.Allocate.Naive.{
  Shuffle, claim_threads, get_assign_threads, assign_new, isolated_ids, drop_unmentioned, place,
  isolate, modify_thread,
}
use titus_isolate.Allocate.Naive.Flat.{placed, placed-claim_thread, placed-drop_unmentioned}

-- Where a workload is on a CPU, thread by thread.
abbrev pub placement : String → Cpu → List (Bool × ℕ)
placement v cpu = map (placed v) (get_threads cpu)

abbrev selected : List (Bool × ℕ) → List ℕ
selected [] = []
selected ((here, id) ∷ rest) = if here then id ∷ selected rest else selected rest

abbrev anywhere : List (Bool × ℕ) → Bool
anywhere [] = false
anywhere ((here, id) ∷ rest) = here || anywhere rest

selected-placed :
    (v : String) (ts : List Thread)
    → map (λ (t : Thread). t.processor_id) (keep_if (holds v) ts) ≡ selected (map (placed v) ts)
selected-placed v [] = refl
selected-placed v (t ∷ ts) = ground (arith, selected-placed v ts)

get_thread_ids-placement :
    (v : String) (cpu : Cpu) → get_thread_ids cpu v ≡ selected (placement v cpu)
unfolding get_thread_ids
get_thread_ids-placement v cpu = selected-placed v (get_threads cpu)

anywhere-nonempty : (ps : List (Bool × ℕ)) → selected ps ≢ [] → anywhere ps ≡ true
anywhere-nonempty [] h = absurd (h refl)
anywhere-nonempty ((true, id) ∷ ps) h = refl
anywhere-nonempty ((false, id) ∷ ps) h = anywhere-nonempty ps h

contains-nonempty :
    (xs : List String) (v : String) → contains xs v ≡ true → ltb 0 (length xs) ≡ true
contains-nonempty [] v h = cc
contains-nonempty (x ∷ xs) v h = ground arith

holds-is_claimed : (v : String) (t : Thread) → holds v t ≡ true → is_claimed t ≡ true
unfolding is_claimed
holds-is_claimed v t h = contains-nonempty t.workload_ids v h

contains-claimed :
    (v : String) (ts : List Thread)
    → contains (concat_map (λ (t : Thread). t.workload_ids) (keep_if is_claimed ts)) v
      ≡ anywhere (map (placed v) ts)
contains-claimed v [] = refl
contains-claimed v (t ∷ ts) = ground (
  arith,
  contains-claimed v ts,
  holds-is_claimed v t,
  contains-append t.workload_ids
      (concat_map (λ (t : Thread). t.workload_ids) (keep_if is_claimed ts)) v,
)

contains-isolated_ids :
    (v : String) (cpu : Cpu) → contains (isolated_ids cpu) v ≡ anywhere (placement v cpu)
unfolding isolated_ids
contains-isolated_ids v cpu = contains-distinct _ v ∙ contains-claimed v (get_threads cpu)

claim_threads-placement :
    (w v : String) (refs : List ℕ) (cpu : Cpu)
    → v ≢ w
    → placement v (claim_threads w refs cpu) ≡ placement v cpu
unfolding claim_threads
claim_threads-placement w v [] cpu h = refl
claim_threads-placement w v (i ∷ refs) cpu h =
    claim_threads-placement w v refs (modify_thread cpu i (λ t. claim t w)) h
    ∙ placed-claim_thread cpu i w v h

-- The second loop leaves a workload that is isolated, or that is not in its list.
abbrev Settled : String → List String → List Workload → Type 0
Settled v isolated ws =
    (contains isolated v ≡ true) ⊎ (contains (map (λ (w : Workload). w.task_id) ws) v ≡ false)

Settled-rest :
    (v : String) (isolated : List String) (w : Workload) (ws : List Workload)
    → Settled v isolated (w ∷ ws)
    → Settled v isolated ws
Settled-rest v isolated w ws (inl known) = inl known
Settled-rest v isolated w ws (inr absent) =
    inr (contains-false v w.task_id (map (λ (w : Workload). w.task_id) ws) absent).1

Settled-differs :
    (v : String) (isolated : List String) (w : Workload) (ws : List Workload)
    → Settled v isolated (w ∷ ws)
    → contains isolated w.task_id ≡ false
    → v ≢ w.task_id
Settled-differs v isolated w ws (inl known) new = not-contains_lem isolated new known
Settled-differs v isolated w ws (inr absent) new =
    (contains-false v w.task_id (map (λ (w : Workload). w.task_id) ws) absent).0

assign_new-placement :
    (shuffle : Shuffle) (isolated : List String) (calls : ℕ) (ws : List Workload) (cpu : Cpu)
    (v : String)
    → Settled v isolated ws
    → placement v (assign_new shuffle isolated calls ws cpu) ≡ placement v cpu
unfolding assign_new
assign_new-placement shuffle isolated calls [] cpu v h = refl
assign_new-placement shuffle isolated calls (w ∷ ws) cpu v h =
    let refs = get_assign_threads shuffle calls cpu w.thread_count in
    let rest = Settled-rest v isolated w ws h in
    elim (Bool-cases (contains isolated w.task_id)) [
      | inl known ↦
          rw (assign_new, known) (assign_new-placement shuffle isolated calls ws cpu v rest)
      | inr new ↦
          rw (assign_new, new)
            (assign_new-placement shuffle isolated (suc calls) ws (claim_threads w.task_id refs cpu)
                v rest
              ∙ claim_threads-placement w.task_id v refs cpu
                  (Settled-differs v isolated w ws h new))
    ]

-- The workload ids of every thread are a set.
abbrev pub AreSets : Cpu → Type 0
AreSets cpu = All (λ (t : Thread). IsDistinct t.workload_ids) (get_threads cpu)

map-drop :
    (mentioned : List String) (ts : List Thread) (v : String)
    → All (λ (t : Thread). IsDistinct t.workload_ids) ts
    → map (placed v) (map (drop_unmentioned mentioned) ts)
      ≡ map (λ (p : Bool × ℕ). (contains mentioned v && p.0, p.1)) (map (placed v) ts)
map-drop mentioned [] v h = refl
map-drop mentioned (t ∷ ts) v h =
    ap₂ ◌∷◌ (placed-drop_unmentioned mentioned t v h.0) (map-drop mentioned ts v h.1)

dropped-placement :
    (mentioned : List String) (cpu : Cpu) (v : String)
    → AreSets cpu
    → placement v (map_threads (drop_unmentioned mentioned) cpu)
      ≡ map (λ (p : Bool × ℕ). (contains mentioned v && p.0, p.1)) (placement v cpu)
dropped-placement mentioned cpu v h =
    ap (map (placed v)) (get_threads-map_threads (drop_unmentioned mentioned) cpu)
    ∙ map-drop mentioned (get_threads cpu) v h

kept_all :
    (b : Bool) (ps : List (Bool × ℕ)) → b ≡ true → map (λ (p : Bool × ℕ). (b && p.0, p.1)) ps ≡ ps
kept_all b [] h = refl
kept_all b (p ∷ ps) h = ground (arith, kept_all b ps)

kept_none :
    (b : Bool) (ps : List (Bool × ℕ))
    → b ≡ false
    → selected (map (λ (p : Bool × ℕ). (b && p.0, p.1)) ps) ≡ []
kept_none b [] h = refl
kept_none b (p ∷ ps) h = ground (arith, kept_none b ps)

module _ (shuffle : Shuffle) (env : Env) (request : AllocateRequest) where
  abbrev mentioned : List String
  mentioned = keys request.workloads

  -- Where the workload ids of every thread are a set, however the threads are shuffled, the
  -- naive allocator leaves a workload that it is asked for and that is on some thread just on
  -- the threads that it is on.
  pub isolate-kept :
      (v : String)
      → AreSets request.cpu
      → contains mentioned v ≡ true
      → get_thread_ids request.cpu v ≢ []
      → get_thread_ids (isolate shuffle env request).1 v ≡ get_thread_ids request.cpu v
  unfolding isolate place
  isolate-kept v sets asked somewhere =
      let kept = map_threads (drop_unmentioned mentioned) request.cpu in
      let same : placement v kept ≡ placement v request.cpu =
        dropped-placement mentioned request.cpu v sets
        ∙ kept_all (contains mentioned v) (placement v request.cpu) asked in
      let there : anywhere (placement v request.cpu) ≡ true =
        anywhere-nonempty (placement v request.cpu)
          (λ e. somewhere (get_thread_ids-placement v request.cpu ∙ e)) in
      let known : contains (isolated_ids kept) v ≡ true =
        contains-isolated_ids v kept ∙ ap anywhere same ∙ there in
      get_thread_ids-placement v
        (assign_new shuffle (isolated_ids kept) 0 (values request.workloads) kept)
      ∙ ap selected (
          assign_new-placement shuffle (isolated_ids kept) 0 (values request.workloads) kept v
            (inl known)
          ∙ same)
      ∙ sym (get_thread_ids-placement v request.cpu)

  -- Where the workload ids of every thread are a set and every workload of a request stands
  -- under its task id, the naive allocator takes a workload that it is not asked for off every
  -- thread.
  pub isolate-dropped :
      (v : String)
      → AreSets request.cpu
      → mentioned ≡ map (λ (w : Workload). w.task_id) (values request.workloads)
      → contains mentioned v ≡ false
      → get_thread_ids (isolate shuffle env request).1 v ≡ []
  unfolding isolate place
  isolate-dropped v sets keyed absent =
      let kept = map_threads (drop_unmentioned mentioned) request.cpu in
      let not_asked = ap (λ ks. contains ks v) (sym keyed) ∙ absent in
      get_thread_ids-placement v
        (assign_new shuffle (isolated_ids kept) 0 (values request.workloads) kept)
      ∙ ap selected (
          assign_new-placement shuffle (isolated_ids kept) 0 (values request.workloads) kept v
            (inr not_asked))
      ∙ ap selected (dropped-placement mentioned request.cpu v sets)
      ∙ kept_none (contains mentioned v) (placement v request.cpu) absent
