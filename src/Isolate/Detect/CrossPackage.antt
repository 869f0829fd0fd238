-- ===== src/Isolate/Detect/CrossPackage.antt =====
-- Which workloads `get_cross_package_violations` reports, and what it reports of them.
use titus_isolate.Prelude.{
  ℕ, String, Bool, true, false, ◌≡◌, ◌≢◌, refl, sym, ap, ◌∙◌, inl, inr, List, [], ◌∷◌, ◌++◌, ◌&&◌,
  map, ltb, length, keep_if, concat_map, contains, string_eq, eq_cases, beq_ne, Bool-cases,
  if◌then◌else◌, none, some, Dict, lookup, insert, lookup-insert_self, lookup-insert_ne, arith,
}
use titus_isolate.Prelude.Sets.{contains-append, contains-distinct}
use titus_isolate.Processor.Thread.{Thread, holds}
use titus_isolate.Processor.Package
use titus_isolate.Processor.Package.{Package, is_on_package, get_threads_with_workload}
use titus_isolate.Processor.Cpu.{Cpu, get_threads, get_workload_ids, get_packages_with_workload}
use titus_isolate.Isolate.Detect.{add_cross_package, get_cross_package_violations}

-- The ids of the packages that a workload is on.
abbrev pub package_ids : Cpu → String → List ℕ
package_ids cpu w = map (λ (p : Package). p.identifier) (get_packages_with_workload cpu w)

abbrev pub is_spread : Cpu → String → Bool
is_spread cpu w = ltb 1 (length (get_packages_with_workload cpu w))

abbrev entry : Cpu → String → Dict String (List ℕ) → Dict String (List ℕ)
entry cpu w d = if is_spread cpu w then insert w (package_ids cpu w) d else d

lookup-entry_ne :
    (cpu : Cpu) (v w : String) (d : Dict String (List ℕ))
    → v ≢ w
    → lookup v (entry cpu w d) ≡ lookup v d
lookup-entry_ne cpu v w d ne = elim (Bool-cases (is_spread cpu w)) [
  | inl spread ↦ rw spread (lookup-insert_ne v w (package_ids cpu w) d ne)
  | inr on_one ↦ rw on_one
]

lookup-entry_self :
    (cpu : Cpu) (w : String) (d : Dict String (List ℕ))
    → lookup w (entry cpu w d) ≡ (if is_spread cpu w then some (package_ids cpu w) else lookup w d)
lookup-entry_self cpu w d = elim (Bool-cases (is_spread cpu w)) [
  | inl spread ↦ rw spread (lookup-insert_self w (package_ids cpu w) d)
  | inr on_one ↦ rw on_one
]

add_cross_package-cons :
    (cpu : Cpu) (x : String) (ws : List String) (d : Dict String (List ℕ))
    → add_cross_package cpu (x ∷ ws) d ≡ add_cross_package cpu ws (entry cpu x d)
unfolding add_cross_package
add_cross_package-cons cpu x ws d = refl

add_cross_package-nil : (cpu : Cpu) (d : Dict String (List ℕ)) → add_cross_package cpu [] d ≡ d
unfolding add_cross_package
add_cross_package-nil cpu d = refl

lookup-add_cross_package :
    (cpu : Cpu) (ws : List String) (d : Dict String (List ℕ)) (w : String)
    → lookup w (add_cross_package cpu ws d)
      ≡ (if contains ws w && is_spread cpu w then some (package_ids cpu w) else lookup w d)
lookup-add_cross_package cpu [] d w = rw (add_cross_package-nil cpu d)
lookup-add_cross_package cpu (x ∷ ws) d w = elim (eq_cases w x) [
  | inl same ↦
      let here : lookup w (entry cpu x d)
          ≡ (if is_spread cpu w then some (package_ids cpu w) else lookup w d) =
        ap (λ y. lookup w (entry cpu y d)) (sym same) ∙ lookup-entry_self cpu w d in
      rw
        (
          add_cross_package-cons cpu x ws d,
          lookup-add_cross_package cpu ws (entry cpu x d) w,
          here,
          (string_eq.beq_iff w x).1 same,
        )
        (ground arith)
  | inr other ↦ rw (
    add_cross_package-cons cpu x ws d,
    lookup-add_cross_package cpu ws (entry cpu x d) w,
    lookup-entry_ne cpu w x d other,
    beq_ne w x other,
  )
]

-- A workload that no thread names is on no package.
contains-concat_ids :
    (ts us : List Thread) (w : String)
    → contains (concat_map (λ (t : Thread). t.workload_ids) (ts ++ us)) w ≡ false
    → (contains (concat_map (λ (t : Thread). t.workload_ids) ts) w ≡ false)
      × (contains (concat_map (λ (t : Thread). t.workload_ids) us) w ≡ false)
contains-concat_ids [] us w h = (refl, h)
contains-concat_ids (t ∷ ts) us w h =
    let all =
      contains-append t.workload_ids (concat_map (λ (t : Thread). t.workload_ids) (ts ++ us)) w in
    let first = contains-append t.workload_ids (concat_map (λ (t : Thread). t.workload_ids) ts) w in
    ground (arith, all, first, contains-concat_ids ts us w)

keep_if-none :
    (ts : List Thread) (w : String)
    → contains (concat_map (λ (t : Thread). t.workload_ids) ts) w ≡ false
    → keep_if (holds w) ts ≡ []
keep_if-none [] w h = refl
keep_if-none (t ∷ ts) w h =
    let all = contains-append t.workload_ids (concat_map (λ (t : Thread). t.workload_ids) ts) w in
    ground (arith, all, keep_if-none ts w)

packages_none :
    (packs : List Package) (w : String)
    → contains
        (concat_map (λ (t : Thread). t.workload_ids) (concat_map Package.get_threads packs))
        w
      ≡ false
    → keep_if (λ pack. is_on_package pack w) packs ≡ []
unfolding is_on_package
packages_none [] w h = refl
packages_none (p ∷ ps) w h =
    let (here, there) =
      contains-concat_ids (Package.get_threads p) (concat_map Package.get_threads ps) w h in
    ground (arith, keep_if-none (Package.get_threads p) w here, packages_none ps w there)

absent_not_spread :
    (cpu : Cpu) (w : String) → contains (get_workload_ids cpu) w ≡ false → is_spread cpu w ≡ false
unfolding get_workload_ids get_packages_with_workload get_threads
absent_not_spread cpu w h =
    let ids = concat_map (λ (t : Thread). t.workload_ids) (get_threads cpu) in
    let none_there : contains ids w ≡ false = sym (contains-distinct ids w) ∙ h in
    rw (packages_none cpu.packages w none_there)

-- `get_cross_package_violations` maps a workload to the ids of the packages that it is on, in the CPU's
-- order, if these are two or more, and has no entry for any other workload.
pub lookup-get_cross_package_violations :
    (cpu : Cpu) (w : String)
    → lookup w (get_cross_package_violations cpu)
      ≡ (if is_spread cpu w then some (package_ids cpu w) else none)
lookup-get_cross_package_violations cpu w = elim (Bool-cases (contains (get_workload_ids cpu) w)) [
  | inl present ↦ via present
  | inr absent ↦ via_absent absent
]
  where
    all : lookup w (get_cross_package_violations cpu) ≡ (
        if contains (get_workload_ids cpu) w && is_spread cpu w
        then some (package_ids cpu w)
        else none)
    all =
        unfold get_cross_package_violations in
        lookup-add_cross_package cpu (get_workload_ids cpu) [] w

    via :
        contains (get_workload_ids cpu) w ≡ true
        → lookup w (get_cross_package_violations cpu)
          ≡ (if is_spread cpu w then some (package_ids cpu w) else none)
    via e = all ∙ rw e

    via_absent :
        contains (get_workload_ids cpu) w ≡ false
        → lookup w (get_cross_package_violations cpu)
          ≡ (if is_spread cpu w then some (package_ids cpu w) else none)
    via_absent e = all ∙ rw (e, absent_not_spread cpu w e)
