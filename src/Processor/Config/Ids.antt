-- ===== src/Processor/Config/Ids.antt =====
-- The ids of the threads that `get_cpu` makes are all different, and are those below their number.
use titus_isolate.Prelude.{
  ℕ, zero, suc, ◌+◌, ◌*◌, ◌/◌, ◌%◌, ◌<◌, ◌≡◌, refl, sym, ap, ◌∙◌, true, List, [], ◌∷◌, ◌++◌, map,
  All, length, concat_map, contains, IsDistinct, nat_eq, beq_refl, subst, ok, arith,
}
use mathlib.Core.Path.{fun_ext}
use titus_isolate.Processor.Thread.{Thread}
use titus_isolate.Processor.Core.{Core}
use titus_isolate.Processor.Package
use titus_isolate.Processor.Package.{Package}
use titus_isolate.Processor.Cpu.{Cpu, get_threads}
use titus_isolate.Processor.Config.{thread_index, get_cpu}
use titus_isolate.Processor.Config.Shape.{upto, id_at, core_at, package_at, built, get_cpu-built}
use titus_isolate.Processor.Config.Blocks.{
  flat, flat_member, flat-IsDistinct, length-flat, divmod_unique,
}

abbrev pub id_of : Thread → ℕ
id_of t = t.processor_id

-- The ids, block by block.
map-concat-upto {ℓ} :
    {A : Type ℓ} (h : A → List Thread) (f : ℕ → A) (i n : ℕ)
    → map id_of (concat_map h (upto f i n)) ≡ flat (upto (λ j. map id_of (h (f j))) i n)
map-concat-upto h f i zero = refl
map-concat-upto h f i (suc n) =
    map_split (h (f i)) (concat_map h (upto f (suc i) n))
    ∙ ap (◌++◌ (map id_of (h (f i)))) (map-concat-upto h f (suc i) n)
  where
    map_split : (ts us : List Thread) → map id_of (ts ++ us) ≡ map id_of ts ++ map id_of us
    map_split [] us = refl
    map_split (t ∷ ts) us = ap (◌∷◌ (id_of t)) (map_split ts us)

map-upto :
    (f : ℕ → Thread) (i n : ℕ) → map id_of (upto f i n) ≡ flat (upto (λ j. id_of (f j) ∷ []) i n)
map-upto f i zero = refl
map-upto f i (suc n) = ap (◌∷◌ (id_of (f i))) (map-upto f (suc i) n)

module _ (P C R : ℕ) where
  abbrev core_ids : ℕ → ℕ → List ℕ
  core_ids p c = flat (upto (λ row. id_at P C R p c row ∷ []) 0 R)

  abbrev package_ids : ℕ → List ℕ
  package_ids p = flat (upto (core_ids p) 0 C)

  abbrev all_ids : List ℕ
  all_ids = flat (upto package_ids 0 P)

  built_ids : map id_of (get_threads (built P C R)) ≡ all_ids
  unfolding get_threads Package.get_threads
  built_ids =
      map-concat-upto Package.get_threads (package_at P C R) 0 P
      ∙ ap (λ (F : ℕ → List ℕ). flat (upto F 0 P))
          (fun_ext (λ p.
            map-concat-upto (λ (core : Core). core.threads) (core_at P C R p) 0 C
            ∙ ap (λ (F : ℕ → List ℕ). flat (upto F 0 C)) (fun_ext (λ c. map-upto _ 0 R))))

module _ (P C R p c row : ℕ) where
  id_by_core : id_at P C R p c row ≡ (row * P + p) * C + c
  unfolding thread_index
  id_by_core = omega arith

  id_by_row : id_at P C R p c row ≡ row * (P * C) + (p * C + c)
  unfolding thread_index
  id_by_row = omega arith

contains-one : (x a : ℕ) → contains (x ∷ []) a ≡ true → a ≡ x
contains-one x a h = ground arith

core_key :
    (P C R p c row : ℕ)
    → c < C
    → (id_at P C R p c row % C ≡ c) × (id_at P C R p c row / C ≡ row * P + p)
core_key P C R p c row h =
    let (q, r) = divmod_unique (row * P + p) C c h in
    (
      ap (λ (x : ℕ). x % C) (id_by_core P C R p c row) ∙ r,
      ap (λ (x : ℕ). x / C) (id_by_core P C R p c row) ∙ q,
    )

offset_lt : (P C p c : ℕ) → p < P → c < C → p * C + c < P * C
offset_lt P C p c h k = grind arith

row_key : (P C R p c row : ℕ) → p < P → c < C → id_at P C R p c row / (P * C) ≡ row
row_key P C R p c row h k =
    ap (λ (x : ℕ). x / (P * C)) (id_by_row P C R p c row)
    ∙ (divmod_unique row (P * C) (p * C + c) (offset_lt P C p c h k)).0

id_lt : (P C R p c row : ℕ) → p < P → c < C → row < R → id_at P C R p c row < P * C * R
id_lt P C R p c row h k l =
    let e = id_by_row P C R p c row in
    let bound : row * (P * C) + (p * C + c) < R * (P * C) =
      offset_lt R (P * C) row (p * C + c) l (offset_lt P C p c h k) in
    omega arith

module _ (P C R : ℕ) where
  core_member :
      (Q : Type 0) (p c a : ℕ)
      → ((row : ℕ) → row < R → a ≡ id_at P C R p c row → Q)
      → contains (core_ids P C R p c) a ≡ true
      → Q
  core_member Q p c a h m =
      flat_member Q (λ row. id_at P C R p c row ∷ []) a 0 R
        (λ row low high m'. h row (omega arith) (contains-one (id_at P C R p c row) a m')) m

  package_member :
      (Q : Type 0) (p a : ℕ)
      → ((c row : ℕ) → c < C → row < R → a ≡ id_at P C R p c row → Q)
      → contains (package_ids P C R p) a ≡ true
      → Q
  package_member Q p a h m =
      flat_member Q (core_ids P C R p) a 0 C
        (λ c low high m'. core_member Q p c a (λ row l e. h c row (omega arith) l e) m') m

  all_member :
      (Q : Type 0) (a : ℕ)
      → ((p c row : ℕ) → p < P → c < C → row < R → a ≡ id_at P C R p c row → Q)
      → contains (all_ids P C R) a ≡ true
      → Q
  all_member Q a h m =
      flat_member Q (package_ids P C R) a 0 P
        (λ p low high m'. package_member Q p a (λ c row k l e. h p c row (omega arith) k l e) m') m

  core-IsDistinct : (p c : ℕ) → p < P → c < C → IsDistinct (core_ids P C R p c)
  core-IsDistinct p c h k =
      flat-IsDistinct (λ row. id_at P C R p c row ∷ []) (λ a. a / (P * C)) 0 R R (omega arith)
        (λ j l. (refl, tt))
        (λ j a l m.
          ap (λ (x : ℕ). x / (P * C)) (contains-one (id_at P C R p c j) a m)
          ∙ row_key P C R p c j h k)

  package-IsDistinct : (p : ℕ) → p < P → IsDistinct (package_ids P C R p)
  package-IsDistinct p h =
      flat-IsDistinct (core_ids P C R p) (λ a. a % C) 0 C C (omega arith)
        (λ c k. core-IsDistinct p c h k)
        (λ c a k m.
          core_member (a % C ≡ c) p c a
            (λ row l e. ap (λ (x : ℕ). x % C) e ∙ (core_key P C R p c row k).0) m)

  all-IsDistinct : IsDistinct (all_ids P C R)
  all-IsDistinct =
      flat-IsDistinct (package_ids P C R) (λ a. a / C % P) 0 P P (omega arith) package-IsDistinct
        (λ p a h m.
          package_member (a / C % P ≡ p) p a
            (λ c row k l e.
              ap (λ (x : ℕ). x / C % P) e
              ∙ (ap (λ (x : ℕ). x % P) (core_key P C R p c row k).1 ∙ (divmod_unique row P p h).1))
            m)

  length-all_ids : length (all_ids P C R) ≡ P * C * R
  length-all_ids =
      let core = λ (p c : ℕ). length-flat (λ row. id_at P C R p c row ∷ []) 1 0 R (λ row. refl) in
      let of_package = λ (p : ℕ). length-flat (core_ids P C R p) (R * 1) 0 C (core p) in
      length-flat (package_ids P C R) (C * (R * 1)) 0 P of_package ∙ omega arith

  all_ids_lt : (a : ℕ) → contains (all_ids P C R) a ≡ true → a < P * C * R
  all_ids_lt a m =
      all_member (a < P * C * R) a (λ p c row h k l e. omega (arith, id_lt P C R p c row h k l)) m

All-of_contains : (Q : ℕ → Type 0) (xs : List ℕ) → ((a : ℕ) → contains xs a ≡ true → Q a) → All Q xs
All-of_contains Q [] h = tt
All-of_contains Q (x ∷ xs) h =
    (h x (rw (beq_refl x)), All-of_contains Q xs (λ a m. h a (ground (arith, m))))

-- With at least one package, core per package and thread per core, `get_cpu` returns a CPU: it has
-- package_count * cores_per_package * threads_per_core threads, no two of them with the same id, and
-- every id is below that number.
pub get_cpu_ids :
    (package_count cores_per_package threads_per_core : ℕ)
    → 0 < package_count
    → 0 < cores_per_package
    → 0 < threads_per_core
    → (cpu : Cpu) × (get_cpu package_count cores_per_package threads_per_core ≡ ok cpu)
      × (length (map id_of (get_threads cpu))
          ≡ package_count * cores_per_package * threads_per_core)
      × IsDistinct (map id_of (get_threads cpu))
      × All
          (λ i. i < package_count * cores_per_package * threads_per_core)
          (map id_of (get_threads cpu))
get_cpu_ids zero C R h k l = absurd (omega arith)
get_cpu_ids (suc P) zero R h k l = absurd (omega arith)
get_cpu_ids (suc P) (suc C) zero h k l = absurd (omega arith)
get_cpu_ids (suc P) (suc C) (suc R) h k l =
    let ids = all_ids (suc P) (suc C) (suc R) in
    let same : map id_of (get_threads (built (suc P) (suc C) (suc R))) ≡ ids =
      built_ids (suc P) (suc C) (suc R) in
    (
      built (suc P) (suc C) (suc R),
      get_cpu-built P C R,
      ap length same ∙ length-all_ids (suc P) (suc C) (suc R),
      subst IsDistinct (sym same) (all-IsDistinct (suc P) (suc C) (suc R)),
      subst (All (λ i. i < suc P * suc C * suc R)) (sym same) (
          All-of_contains (λ i. i < suc P * suc C * suc R) ids
            (all_ids_lt (suc P) (suc C) (suc R))),
    )
