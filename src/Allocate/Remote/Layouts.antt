-- ===== src/Allocate/Remote/Layouts.antt =====
-- The layout of a request to the remote allocator.
use titus_isolate.Prelude.{
  ℕ, suc, ◌+◌, ◌≡◌, refl, sym, ap, ap₂, ◌∙◌, String, List, [], ◌∷◌, ◌++◌, Option, none, some,
  nat_eq, eq_cases, Bool-cases, inl, inr, if◌then◌else◌, ltb, length, map, get_elem?, keep_if,
  concat_map, All, Dict, lookup, insert, lookup-insert_self, lookup-insert_ne, ok, arith,
}
use titus_isolate.Processor.Thread.{Thread, is_claimed}
use titus_isolate.Processor.Core.{Core}
use titus_isolate.Processor.Package.{Package}
use titus_isolate.Processor.Package
use titus_isolate.Processor.Cpu.{Cpu, get_threads}
use titus_isolate.Allocate.Remote.{
  PbThread, PbCore, PbPackage, Layout, original2natural_from, layout_threads, layout_cores,
  layout_packages, build_layout, last_package, get_natural_indexing_2_original_indexing,
}

-- An index is a key of its number.
abbrev IsIndex : List ℕ → Dict ℕ ℕ → Type 0
IsIndex originals d = (v k : ℕ) → lookup v d ≡ some k → get_elem? originals k ≡ some v

insert-IsIndex :
    (originals : List ℕ) (v k : ℕ) (d : Dict ℕ ℕ)
    → get_elem? originals k ≡ some v
    → IsIndex originals d
    → IsIndex originals (insert v k d)
insert-IsIndex originals v k d e h w j l = elim (eq_cases w v) [
  | inl same ↦
      let j_is : some k ≡ some j =
        sym (lookup-insert_self v k d) ∙ (ap (λ x. lookup x (insert v k d)) (sym same) ∙ l) in
      let kj : k ≡ j = ap (λ (o : Option ℕ). elim o [ none ↦ 0 | some x ↦ x ]) j_is in
      ap (get_elem? originals) (sym kj) ∙ (e ∙ ap some (sym same))
  | inr other ↦ h w j (sym (lookup-insert_ne w v k d other) ∙ l)
]

from-IsIndex :
    (originals vs : List ℕ) (k : ℕ) (d : Dict ℕ ℕ)
    → ((i : ℕ) → get_elem? originals (k + i) ≡ get_elem? vs i)
    → IsIndex originals d
    → IsIndex originals (original2natural_from k vs d)
unfolding original2natural_from
from-IsIndex originals [] k d same h = h
from-IsIndex originals (v ∷ vs) k d same h =
    from-IsIndex originals vs (suc k) (insert v k d)
      (λ i. ap (get_elem? originals) (omega arith) ∙ same (suc i))
      (insert-IsIndex originals v k d (ap (get_elem? originals) (omega arith) ∙ same 0) h)

abbrev Has : ℕ → Dict ℕ ℕ → Type 0
Has v d = (k : ℕ) × (lookup v d ≡ some k)

insert-Has : (v w k : ℕ) (d : Dict ℕ ℕ) → Has v d → Has v (insert w k d)
insert-Has v w k d (j, e) = elim (eq_cases v w) [
  | inl same ↦ (k, ap (λ x. lookup x (insert w k d)) same ∙ lookup-insert_self w k d)
  | inr other ↦ (j, lookup-insert_ne v w k d other ∙ e)
]

from-keeps :
    (vs : List ℕ) (k : ℕ) (d : Dict ℕ ℕ) (v : ℕ) → Has v d → Has v (original2natural_from k vs d)
unfolding original2natural_from
from-keeps [] k d v h = h
from-keeps (w ∷ vs) k d v h = from-keeps vs (suc k) (insert w k d) v (insert-Has v w k d h)

from-Has : (vs : List ℕ) (k : ℕ) (d : Dict ℕ ℕ) → All (λ v. Has v (original2natural_from k vs d)) vs
unfolding original2natural_from
from-Has [] k d = tt
from-Has (v ∷ vs) k d = (
  from-keeps vs (suc k) (insert v k d) v (k, lookup-insert_self v k d),
  from-Has vs (suc k) (insert v k d),
)

All-ids :
    (P : ℕ → Type 0) (ts : List Thread)
    → All P (map (λ (t : Thread). t.processor_id) ts)
    → All (λ (t : Thread). P t.processor_id) ts
All-ids P [] h = tt
All-ids P (t ∷ ts) h = (h.0, All-ids P ts h.1)

module _ {A B : Type 0} (P : B → Type 0) (f : A → List B) where
  All-left : (xs ys : List B) → All P (xs ++ ys) → All P xs × All P ys
  All-left [] ys h = (tt, h)
  All-left (x ∷ xs) ys h = let (a, b) = All-left xs ys h.1 in ((h.0, a), b)

  All-concat_map : (xs : List A) → All P (concat_map f xs) → All (λ x. All P (f x)) xs
  All-concat_map [] h = tt
  All-concat_map (x ∷ xs) h =
      let (a, b) = All-left (f x) (concat_map f xs) h in (a, All-concat_map xs b)

-- A thread's id with its workloads, in the list of claimed threads and in the layout.
abbrev pub marks : List Thread → List (Option ℕ × List String)
marks ts = map (λ (t : Thread). (some t.processor_id, t.workload_ids)) (keep_if is_claimed ts)

abbrev pub places : List ℕ → List PbThread → List (Option ℕ × List String)
places originals ts = map (λ (t : PbThread). (get_elem? originals t.id, t.task_ids)) ts

abbrev pub core_threads : List PbCore → List PbThread
core_threads cs = concat_map (λ (c : PbCore). c.threads) cs

abbrev pub layout_pb_threads : List PbPackage → List PbThread
layout_pb_threads ps = concat_map (λ (p : PbPackage). core_threads p.cores) ps

marks-append : (ts us : List Thread) → marks (ts ++ us) ≡ marks ts ++ marks us
marks-append [] us = refl
marks-append (t ∷ ts) us = elim (Bool-cases (is_claimed t)) [
  | inl on_it ↦ rw on_it (ap (◌∷◌ (some t.processor_id, t.workload_ids)) (marks-append ts us))
  | inr off_it ↦ rw off_it (marks-append ts us)
]

places-append :
    (originals : List ℕ) (ts us : List PbThread)
    → places originals (ts ++ us) ≡ places originals ts ++ places originals us
places-append originals [] us = refl
places-append originals (t ∷ ts) us =
    ap (◌∷◌ (get_elem? originals t.id, t.task_ids)) (places-append originals ts us)

-- A core with no claimed thread is left out, and no thread with it.
abbrev with_core : ℕ → List PbThread → List PbCore → List PbCore
with_core id threads rest =
    if ltb 0 (length threads) then record { id = id; threads = threads } ∷ rest else rest

core_threads-with_core :
    (id : ℕ) (threads : List PbThread) (rest : List PbCore)
    → core_threads (with_core id threads rest) ≡ threads ++ core_threads rest
core_threads-with_core id [] rest = refl
core_threads-with_core id (t ∷ ts) rest = ground arith

module _ (originals : List ℕ) (d : Dict ℕ ℕ) (h : IsIndex originals d) where
  layout_threads-places :
      (ts : List Thread)
      → All (λ (t : Thread). Has t.processor_id d) ts
      → (pts : List PbThread) × (layout_threads d ts ≡ ok pts) × (places originals pts ≡ marks ts)
  unfolding layout_threads
  layout_threads-places [] a = ([], refl, refl)
  layout_threads-places (t ∷ ts) a =
      let (pts, e, p) = layout_threads-places ts a.1 in
      let (k, l) = a.0 in
      elim (Bool-cases (is_claimed t)) [
        | inl on_it ↦ (
          record { id = k; task_ids = t.workload_ids } ∷ pts,
          rw (on_it, l, e) refl,
          rw on_it (ap₂ (λ o r. (o, t.workload_ids) ∷ r) (h t.processor_id k l) p),
        )
        | inr off_it ↦ (pts, rw off_it e, rw off_it p)
      ]

  layout_cores-places :
      (cs : List Core)
      → All (λ (c : Core). All (λ (t : Thread). Has t.processor_id d) c.threads) cs
      → (pcs : List PbCore) × (layout_cores d cs ≡ ok pcs)
        × (places originals (core_threads pcs) ≡ marks (concat_map (λ (c : Core). c.threads) cs))
  unfolding layout_cores
  layout_cores-places [] a = ([], refl, refl)
  layout_cores-places (c ∷ cs) a =
      let (pcs, es, ps) = layout_cores-places cs a.1 in
      let (pts, e, p) = layout_threads-places c.threads a.0 in
      (
        with_core c.identifier pts pcs,
        rw (e, es) refl,
        ap (places originals) (core_threads-with_core c.identifier pts pcs)
            ∙ (places-append originals pts (core_threads pcs)
                ∙ (ap₂ (λ q r. q ++ r) p ps
                    ∙ sym (marks-append c.threads (concat_map (λ (c : Core). c.threads) cs)))),
      )

  layout_packages-places :
      (ps : List Package)
      → All (λ (p : Package). All (λ (t : Thread). Has t.processor_id d) (Package.get_threads p)) ps
      → (pps : List PbPackage) × (layout_packages d ps ≡ ok pps)
        × (places originals (layout_pb_threads pps) ≡ marks (concat_map Package.get_threads ps))
  unfolding layout_packages Package.get_threads
  layout_packages-places [] a = ([], refl, refl)
  layout_packages-places (p ∷ ps) a =
      let (pps, es, q) = layout_packages-places ps a.1 in
      let all_threads =
        All-concat_map (λ (t : Thread). Has t.processor_id d) (λ (c : Core). c.threads) p.cores
          a.0 in
      let (pcs, e, r) = layout_cores-places p.cores all_threads in
      (
        record { id = p.identifier; num_cores = length p.cores; cores = pcs } ∷ pps,
        rw (e, es) refl,
        places-append originals (core_threads pcs) (layout_pb_threads pps)
            ∙ (ap₂ (λ q r. q ++ r) r q
                ∙ sym (
                    marks-append (concat_map (λ (c : Core). c.threads) p.cores)
                      (concat_map Package.get_threads ps))),
      )

-- For every CPU, the layout of a request is built: no thread's id is missing in the index. Its threads
-- are the claimed threads of the CPU, in their order and with their workloads, and each stands under a number for
-- which the list of the CPU's ids has the id of the thread.
pub build_layout-places :
    (cpu : Cpu)
    → let originals = get_natural_indexing_2_original_indexing cpu in
      (layout : Layout) × (build_layout (original2natural_from 0 originals []) cpu ≡ ok layout)
      × (places originals (layout_pb_threads layout.packages) ≡ marks (get_threads cpu))
unfolding build_layout get_natural_indexing_2_original_indexing get_threads
build_layout-places cpu =
    let originals = get_natural_indexing_2_original_indexing cpu in
    let d = original2natural_from 0 originals [] in
    let index =
      from-IsIndex originals originals 0 [] (λ i. ap (get_elem? originals) (omega arith))
        (λ v k e. absurd (grind arith)) in
    let has = All-ids (λ v. Has v d) (get_threads cpu) (from-Has originals 0 []) in
    let all_threads =
      All-concat_map (λ (t : Thread). Has t.processor_id d) Package.get_threads cpu.packages has in
    let (pps, e, p) = layout_packages-places originals d index cpu.packages all_threads in
    (record { packages = pps; threads_per_core = last_package 0 cpu.packages }, rw e refl, p)
