-- ===== src/Isolate/Reconciler/Entries.antt =====
-- The entries of what the reconciler reads off the CPU.
use titus_isolate.Prelude.{
  ℕ, ◌≡◌, refl, sym, String, Bool, false, List, [], ◌∷◌, ◌++◌, map, keep_if, Option, none, some,
  All, IsDistinct, contains, inl, inr, Dict, keys, lookup, insert, string_eq, nat_eq, Bool-cases,
  insert-IsDistinct, beq_refl, beq_ne, arith,
}
use titus_isolate.Prelude.Sets.{contains-false}
use titus_isolate.Processor.Thread.{Thread}
use titus_isolate.Isolate.Reconciler.{add_id, add_thread, add_threads}

abbrev pub id_of : Thread → ℕ
id_of t = t.processor_id

-- Some of distinct ids are distinct.
ids-kept :
    (p : Thread → Bool) (ts : List Thread) (i : ℕ)
    → contains (map id_of ts) i ≡ false
    → contains (map id_of (keep_if p ts)) i ≡ false
ids-kept p [] i h = refl
ids-kept p (t ∷ ts) i h = ground (arith, ids-kept p ts i)

pub kept-IsDistinct :
    (p : Thread → Bool) (ts : List Thread)
    → IsDistinct (map id_of ts)
    → IsDistinct (map id_of (keep_if p ts))
kept-IsDistinct p [] h = tt
kept-IsDistinct p (t ∷ ts) h = elim (Bool-cases (p t)) [
  | inl here ↦ rw here (ids-kept p ts t.processor_id h.0, kept-IsDistinct p ts h.1)
  | inr absent ↦ rw absent (kept-IsDistinct p ts h.1)
]

add_id-IsDistinct :
    (id : ℕ) (w : String) (d : Dict String (List ℕ))
    → IsDistinct (keys d)
    → IsDistinct (keys (add_id id w d))
unfolding add_id
add_id-IsDistinct id w d h = go (lookup w d)
  where
    go :
        (o : Option (List ℕ))
        → IsDistinct (
            keys
              (elim o [ none ↦ insert w (id ∷ []) d | some t_ids ↦ insert w (t_ids ++ id ∷ []) d ]))
    go none = insert-IsDistinct w (id ∷ []) d h
    go (some t_ids) = insert-IsDistinct w (t_ids ++ id ∷ []) d h

add_thread-IsDistinct :
    (id : ℕ) (ws : List String) (d : Dict String (List ℕ))
    → IsDistinct (keys d)
    → IsDistinct (keys (add_thread id ws d))
unfolding add_thread
add_thread-IsDistinct id [] d h = h
add_thread-IsDistinct id (w ∷ ws) d h =
    add_thread-IsDistinct id ws (add_id id w d) (add_id-IsDistinct id w d h)

pub add_threads-IsDistinct :
    (ts : List Thread) (d : Dict String (List ℕ))
    → IsDistinct (keys d)
    → IsDistinct (keys (add_threads ts d))
unfolding add_threads
add_threads-IsDistinct [] d h = h
add_threads-IsDistinct (t ∷ ts) d h =
    add_threads-IsDistinct ts (add_thread t.processor_id t.workload_ids d)
      (add_thread-IsDistinct t.processor_id t.workload_ids d h)

-- In a dict with distinct keys every entry is what is found under its key.
abbrev pub Found : Dict String (List ℕ) → Dict String (List ℕ) → Type 0
Found d = All (λ (e : String × List ℕ). lookup e.0 d ≡ some e.1)

Found-cons :
    (k : String) (v : List ℕ) (d es : Dict String (List ℕ))
    → contains (keys es) k ≡ false
    → Found d es
    → Found ((k, v) ∷ d) es
Found-cons k v d [] h f = tt
Found-cons k v d ((j, u) ∷ es) h f =
    let (other, rest) = contains-false k j (keys es) h in
    (rw (beq_ne j k (λ e. other (sym e))) f.0, Found-cons k v d es rest f.1)

pub entries-Found : (d : Dict String (List ℕ)) → IsDistinct (keys d) → Found d d
entries-Found [] h = tt
entries-Found ((k, v) ∷ d) h = (rw (beq_refl k) refl, Found-cons k v d d h.0 (entries-Found d h.1))
