-- ===== src/Allocate/Naive/Flat.antt =====
-- What the naive allocator does to a CPU, read off the list of its threads.
use titus_isolate.Prelude.{
  ℕ, zero, suc, ◌-◌, ◌≡◌, ◌≢◌, refl, ap, ap₂, ◌∙◌, String, Bool, ◌&&◌, ◌==◌, List, [], ◌∷◌, ◌++◌,
  map, not, if◌then◌else◌, ltb, length, modify, keep_if, concat_map, contains, remove, IsDistinct,
  eq_cases, beq_ne, inl, inr, string_eq, arith,
}
use titus_isolate.Prelude.Sets.{
  contains-eq, remove-IsDistinct, contains-remove_ne, contains-remove_self,
}
use titus_isolate.Processor.Thread.{Thread, claim, free, holds}
use titus_isolate.Processor.Claims.{holds-claim}
use titus_isolate.Processor.Core.{Core}
use titus_isolate.Processor.Package
use titus_isolate.Processor.Package.{Package}
use titus_isolate.Processor.Cpu.{Cpu, get_threads}
use titus_isolate.Allocate.Naive.{
  modify_in_cores, modify_in_packages, modify_thread, free_all, drop_unmentioned,
}

-- Whether a workload is on a thread, with the thread's id.
abbrev pub placed : String → Thread → Bool × ℕ
placed v t = (holds v t, t.processor_id)

modify-append :
    (xs ys : List Thread) (i : ℕ) (f : Thread → Thread)
    → modify (xs ++ ys) i f
      ≡ (if ltb i (length xs) then modify xs i f ++ ys else xs ++ modify ys (i - length xs) f)
modify-append [] ys i f = ground arith
modify-append (x ∷ xs) ys zero f = ground arith
modify-append (x ∷ xs) ys (suc i) f = ap (◌∷◌ x) (modify-append xs ys i f) ∙ ground arith

modify_in_cores_flat :
    (cores : List Core) (i : ℕ) (f : Thread → Thread)
    → concat_map (λ (c : Core). c.threads) (modify_in_cores cores i f)
      ≡ modify (concat_map (λ (c : Core). c.threads) cores) i f
unfolding modify_in_cores
modify_in_cores_flat [] i f = refl
modify_in_cores_flat (c ∷ cores) i f = ground (
  arith,
  modify-append c.threads (concat_map (λ (c : Core). c.threads) cores) i f,
  modify_in_cores_flat cores (i - length c.threads) f,
)

free-IsDistinct :
    (t : Thread) (w : String) → IsDistinct t.workload_ids → IsDistinct (free t w).workload_ids
unfolding free
free-IsDistinct t w h = ground (arith, h, remove-IsDistinct t.workload_ids w h)

holds-free :
    (t : Thread) (w v : String)
    → IsDistinct t.workload_ids
    → holds v (free t w) ≡ (not (v == w) && holds v t)
unfolding free
holds-free t w v h = elim (eq_cases v w) [
  | inl same ↦ ground (
    arith,
    (string_eq.beq_iff v w).1 same,
    contains-eq t.workload_ids same,
    contains-eq (remove t.workload_ids w) same,
    contains-remove_self t.workload_ids w h,
  )
  | inr other ↦ ground (arith, beq_ne v w other, contains-remove_ne t.workload_ids w v other)
]

modify_in_packages_flat :
    (packs : List Package) (i : ℕ) (f : Thread → Thread)
    → concat_map Package.get_threads (modify_in_packages packs i f)
      ≡ modify (concat_map Package.get_threads packs) i f
unfolding modify_in_packages Package.get_threads
modify_in_packages_flat [] i f = refl
modify_in_packages_flat (p ∷ packs) i f = ground (
  arith,
  modify-append (Package.get_threads p) (concat_map Package.get_threads packs) i f,
  modify_in_cores_flat p.cores i f,
  modify_in_packages_flat packs (i - length (Package.get_threads p)) f,
)

-- The position of a thread in the CPU is its position in the list of the CPU's threads.
pub get_threads-modify_thread :
    (cpu : Cpu) (i : ℕ) (f : Thread → Thread)
    → get_threads (modify_thread cpu i f) ≡ modify (get_threads cpu) i f
unfolding get_threads modify_thread
get_threads-modify_thread cpu i f = modify_in_packages_flat cpu.packages i f

map-modify {ℓ} :
    {B : Type ℓ} (g : Thread → B) (ts : List Thread) (i : ℕ) (f : Thread → Thread)
    → ((t : Thread) → g (f t) ≡ g t)
    → map g (modify ts i f) ≡ map g ts
map-modify g [] i f h = refl
map-modify g (t ∷ ts) zero f h = ap (λ x. x ∷ map g ts) (h t)
map-modify g (t ∷ ts) (suc i) f h = ap (◌∷◌ (g t)) (map-modify g ts i f h)

placed-claim : (t : Thread) (w v : String) → v ≢ w → placed v (claim t w) ≡ placed v t
unfolding claim
placed-claim t w v other =
    ap (λ b. (b, t.processor_id)) (holds-claim t w v ∙ ground (arith, beq_ne v w other))

-- A claim for a workload moves no other workload.
pub placed-claim_thread :
    (cpu : Cpu) (i : ℕ) (w v : String)
    → v ≢ w
    → map (placed v) (get_threads (modify_thread cpu i (λ t. claim t w)))
      ≡ map (placed v) (get_threads cpu)
placed-claim_thread cpu i w v other =
    ap (map (placed v)) (get_threads-modify_thread cpu i (λ t. claim t w))
    ∙ map-modify (placed v) (get_threads cpu) i (λ t. claim t w) (λ t. placed-claim t w v other)

holds-free_all :
    (ws : List String) (t : Thread) (v : String)
    → IsDistinct t.workload_ids
    → holds v (free_all ws t) ≡ (not (contains ws v) && holds v t)
unfolding free_all
holds-free_all [] t v h = refl
holds-free_all (w ∷ ws) t v h =
    holds-free_all ws (free t w) v (free-IsDistinct t w h) ∙ ground (arith, holds-free t w v h)

free_all-processor_id :
    (ws : List String) (t : Thread) → (free_all ws t).processor_id ≡ t.processor_id
unfolding free_all free
free_all-processor_id [] t = refl
free_all-processor_id (w ∷ ws) t = free_all-processor_id ws (free t w) ∙ ground arith

contains-keep_if :
    (p : String → Bool) (xs : List String) (v : String)
    → contains (keep_if p xs) v ≡ (p v && contains xs v)
contains-keep_if p [] v = ground arith
contains-keep_if p (x ∷ xs) v = elim (eq_cases v x) [
  | inl same ↦ ground (arith, contains-keep_if p xs v, (string_eq.beq_iff v x).1 same, ap p same)
  | inr other ↦ ground (arith, contains-keep_if p xs v, beq_ne v x other)
]

-- The first loop takes from a thread just the workloads that are not mentioned.
pub placed-drop_unmentioned :
    (mentioned : List String) (t : Thread) (v : String)
    → IsDistinct t.workload_ids
    → placed v (drop_unmentioned mentioned t) ≡ (contains mentioned v && holds v t, t.processor_id)
unfolding drop_unmentioned
placed-drop_unmentioned mentioned t v h =
    let unmentioned = keep_if (λ w_id. not (contains mentioned w_id)) t.workload_ids in
    ap₂ (λ b n. (b, n))
      (holds-free_all unmentioned t v h
        ∙ ground (arith, contains-keep_if (λ w_id. not (contains mentioned w_id)) t.workload_ids v))
      (free_all-processor_id unmentioned t)
