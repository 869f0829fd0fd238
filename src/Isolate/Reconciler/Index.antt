-- ===== src/Isolate/Reconciler/Index.antt =====
-- What the reconciler reads off the CPU.
use titus_isolate.Prelude.{
  ℕ, ◌≡◌, ◌≢◌, refl, ap, ◌∙◌, String, List, [], ◌∷◌, ◌++◌, map, Option, none, some, if◌then◌else◌,
  keep_if, contains, All, IsDistinct, eq_cases, beq_ne, inl, inr, Dict, lookup, insert,
  lookup-insert_self, lookup-insert_ne, string_eq, Bool-cases, arith,
}
use titus_isolate.Prelude.Sets.{contains-eq}
use titus_isolate.Processor.Thread.{Thread, holds}
use titus_isolate.Processor.Cpu.{Cpu, get_threads, get_thread_ids}
use titus_isolate.Isolate.Reconciler.{add_id, add_thread, add_threads, get_workloads}

-- An entry of a dict of lists, extended; no entry is made for nothing.
abbrev pub extended : Option (List ℕ) → List ℕ → Option (List ℕ)
extended o [] = o
extended none (x ∷ xs) = some (x ∷ xs)
extended (some ys) (x ∷ xs) = some (ys ++ x ∷ xs)

append-one : (ys xs : List ℕ) (x : ℕ) → (ys ++ x ∷ []) ++ xs ≡ ys ++ x ∷ xs
append-one [] xs x = refl
append-one (y ∷ ys) xs x = ap (◌∷◌ y) (append-one ys xs x)

extended-extended :
    (o : Option (List ℕ)) (x : ℕ) (xs : List ℕ)
    → extended (extended o (x ∷ [])) xs ≡ extended o (x ∷ xs)
extended-extended none x [] = refl
extended-extended none x (y ∷ xs) = refl
extended-extended (some ys) x [] = refl
extended-extended (some ys) x (y ∷ xs) = ap some (append-one ys (y ∷ xs) x)

lookup-add_id_self :
    (id : ℕ) (w : String) (d : Dict String (List ℕ))
    → lookup w (add_id id w d) ≡ extended (lookup w d) (id ∷ [])
unfolding add_id
lookup-add_id_self id w d = go (lookup w d)
  where
    go :
        (o : Option (List ℕ))
        → lookup w
            (elim o [ none ↦ insert w (id ∷ []) d | some t_ids ↦ insert w (t_ids ++ id ∷ []) d ])
          ≡ extended o (id ∷ [])
    go none = lookup-insert_self w (id ∷ []) d
    go (some ids) = lookup-insert_self w (ids ++ id ∷ []) d

lookup-add_id_ne :
    (id : ℕ) (w v : String) (d : Dict String (List ℕ))
    → v ≢ w
    → lookup v (add_id id w d) ≡ lookup v d
unfolding add_id
lookup-add_id_ne id w v d other = go (lookup w d)
  where
    go :
        (o : Option (List ℕ))
        → lookup v
            (elim o [ none ↦ insert w (id ∷ []) d | some t_ids ↦ insert w (t_ids ++ id ∷ []) d ])
          ≡ lookup v d
    go none = lookup-insert_ne v w (id ∷ []) d other
    go (some ids) = lookup-insert_ne v w (ids ++ id ∷ []) d other

lookup-add_thread :
    (id : ℕ) (ws : List String) (v : String) (d : Dict String (List ℕ))
    → IsDistinct ws
    → lookup v (add_thread id ws d)
      ≡ (if contains ws v then extended (lookup v d) (id ∷ []) else lookup v d)
unfolding add_thread
lookup-add_thread id [] v d h = refl
lookup-add_thread id (w ∷ ws) v d h = elim (eq_cases v w) [
  | inl same ↦ ground (
    arith,
    lookup-add_thread id ws v (add_id id w d) h.1,
    (string_eq.beq_iff v w).1 same,
    contains-eq ws same,
    h.0,
    ap (λ k. lookup k (add_id id w d)) same,
    ap (λ k. lookup k d) same,
    lookup-add_id_self id w d,
  )
  | inr other ↦ ground (
    arith,
    lookup-add_thread id ws v (add_id id w d) h.1,
    beq_ne v w other,
    lookup-add_id_ne id w v d other,
  )
]

lookup-add_threads :
    (ts : List Thread) (v : String) (d : Dict String (List ℕ))
    → All (λ (t : Thread). IsDistinct t.workload_ids) ts
    → lookup v (add_threads ts d)
      ≡ extended (lookup v d) (map (λ (t : Thread). t.processor_id) (keep_if (holds v) ts))
unfolding add_threads
lookup-add_threads [] v d h = refl
lookup-add_threads (t ∷ ts) v d h =
    let ids = map (λ (t : Thread). t.processor_id) (keep_if (holds v) ts) in
    lookup-add_threads ts v (add_thread t.processor_id t.workload_ids d) h.1
    ∙ ap (λ o. extended o ids) (lookup-add_thread t.processor_id t.workload_ids v d h.0)
    ∙ elim (Bool-cases (holds v t)) [
      | inl here ↦ rw here (extended-extended (lookup v d) t.processor_id ids)
      | inr absent ↦ rw absent
    ]

-- Where the workload ids of every thread are a set, the reconciler compares the cpuset of a workload to
-- the very ids that were written to it, and it looks at no workload that is on no thread.
pub lookup-get_workloads :
    (cpu : Cpu) (v : String)
    → All (λ (t : Thread). IsDistinct t.workload_ids) (get_threads cpu)
    → lookup v (get_workloads cpu) ≡ extended none (get_thread_ids cpu v)
unfolding get_workloads get_thread_ids
lookup-get_workloads cpu v h = lookup-add_threads (get_threads cpu) v [] h
