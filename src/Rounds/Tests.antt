-- ===== src/Rounds/Tests.antt =====
-- Cpuset files as a dict, and a manager over the greedy allocator that a workload is added to.
use titus_isolate.Prelude.{
  ℕ, ◌≡◌, refl, sym, ap, ◌∙◌, String, true, false, ◌==◌, ◌&&◌, List, [], ◌∷◌, Option, none, some,
  All, Dict, lookup, insert, lookup-insert_self, lookup-insert_ne, eq_cases, beq_ne, inl, inr,
  string_eq, Result, ok, raise, exception, arith,
}
use titus_isolate.Processor.Cpu.{Cpu, get_threads}
use titus_isolate.Allocate.Greedy
use titus_isolate.Cgroup.File
use titus_isolate.Cgroup.File.{
  Setting, cpuset, quota, shares, memory_migrate, memory_spread_page, memory_spread_slab, Value,
  thread_ids, number, flag, Write, FileCgroupManager, run_thread, has_pending_work,
}
use titus_isolate.Cgroup.File.Steps.{Run, stay, step, thread_step}
use titus_isolate.Cgroup.File.Settled.{is_cpuset, ReadsBack}
use titus_isolate.Cgroup.File.Order.{later_first, start-later_first}
use titus_isolate.Manager.{Parts, new_manager, isolate}
use titus_isolate.Manager.Samples.{greedy_parts}
use titus_isolate.Processor.Package
use titus_isolate.Processor.Thread.{is_claimed, claim}
use titus_isolate.Processor.Utils.{refs_from}
use titus_isolate.Isolate.Reconciler.{reconcile, get_workloads}
use titus_isolate.Rounds.{over_files, ReadsAs, Manager}
use titus_isolate.Rounds.Calls.{Call, called, no_call, one_more, Calls-reconcile}
use titus_isolate.Samples.{env, thread, core, pair, workload}

abbrev Files : Type 0
Files = Dict String (List ℕ)

abbrev put_file : Setting → String → Value → Files → Files
put_file cpuset c (thread_ids ids) files = insert c ids files
put_file cpuset c (number n) files = files
put_file cpuset c (flag b) files = files
put_file quota c v files = files
put_file shares c v files = files
put_file memory_migrate c v files = files
put_file memory_spread_page c v files = files
put_file memory_spread_slab c v files = files

abbrev write : Write → Files → Option Files
write w files = some (put_file w.func w.container_name w.value files)

abbrev ids_of : Option (List ℕ) → Result (List ℕ)
ids_of none = ok []
ids_of (some ids) = ok ids

abbrev read_cpuset : String → Files → Result (List ℕ)
read_cpuset c files = ids_of (lookup c files)

put_file-cpuset :
    (c : String) (ids : List ℕ) (f : Setting) (d : String) (v : Value) (before : Files)
    → (is_cpuset f && (c == d)) ≡ true
    → v ≡ thread_ids ids
    → lookup c (put_file f d v before) ≡ some ids
put_file-cpuset c ids cpuset d v before on e = elim (eq_cases c d) [
  | inl same ↦
      ap (λ u. lookup c (put_file cpuset d u before)) e
      ∙ (ap (λ k. lookup k (insert d ids before)) same ∙ lookup-insert_self d ids before)
  | inr other ↦ absurd (ground (arith, beq_ne c d other, on))
]
put_file-cpuset c ids quota d v before on e = cc
put_file-cpuset c ids shares d v before on e = cc
put_file-cpuset c ids memory_migrate d v before on e = cc
put_file-cpuset c ids memory_spread_page d v before on e = cc
put_file-cpuset c ids memory_spread_slab d v before on e = cc

put_file-other :
    (c : String) (f : Setting) (d : String) (v : Value) (before : Files)
    → (is_cpuset f && (c == d)) ≡ false
    → lookup c (put_file f d v before) ≡ lookup c before
put_file-other c cpuset d (thread_ids ids) before off = elim (eq_cases c d) [
  | inl same ↦ absurd (ground (arith, (string_eq.beq_iff c d).1 same, off))
  | inr other ↦ lookup-insert_ne c d ids before other
]
put_file-other c cpuset d (number n) before off = refl
put_file-other c cpuset d (flag b) before off = refl
put_file-other c quota d v before off = refl
put_file-other c shares d v before off = refl
put_file-other c memory_migrate d v before off = refl
put_file-other c memory_spread_page d v before off = refl
put_file-other c memory_spread_slab d v before off = refl

from_some : Option Files → Files
from_some none = []
from_some (some f) = f

files_back : ReadsBack write (ReadsAs read_cpuset)
unfolding from_some
files_back = record {
  back = λ c ids w before after on e h.
      let is_after : put_file w.func w.container_name w.value before ≡ after = ap from_some h in
      (
        ids,
        ap (λ f. ids_of (lookup c f)) (sym is_after)
            ∙ ap ids_of (put_file-cpuset c ids w.func w.container_name w.value before on e),
        refl,
      );
  leaves = λ c ids w before after off h r.
      let is_after : put_file w.func w.container_name w.value before ≡ after = ap from_some h in
      let (found, e, p) = r in
      (
        found,
        ap (λ f. ids_of (lookup c f)) (sym is_after)
            ∙ (ap ids_of (put_file-other c w.func w.container_name w.value before off) ∙ e),
        p,
      );
}

abbrev parts : Parts
parts = over_files write greedy_parts

abbrev empty4 : Cpu
empty4 = record {
  packages = pair 0 (core 0 (thread 0 []) (thread 2 [])) (core 1 (thread 1 []) (thread 3 [])) ∷ [];
}

abbrev fresh : Manager write greedy_parts
fresh = new_manager parts empty4 (File.new_manager write []) tt

abbrev first : Manager write greedy_parts
first = (isolate parts (workload "a" 3 ∷ []) [] fresh).1

abbrev run_all : List ℕ → FileCgroupManager write → FileCgroupManager write
run_all [] s = s
run_all (i ∷ order) s = run_all order (run_thread write i s)

abbrev nothing_asked : List ℕ → List (List Write)
nothing_asked [] = []
nothing_asked (i ∷ order) = [] ∷ nothing_asked order

run_all-Run :
    (order : List ℕ) (s : FileCgroupManager write)
    → Run write (nothing_asked order) s (run_all order s)
run_all-Run [] s = stay s
run_all-Run (i ∷ order) s = step (thread_step i s) (run_all-Run order (run_thread write i s))

nothing_asked_lem : (order : List ℕ) → All (λ (ws : List Write). ws ≡ []) (nothing_asked order)
nothing_asked_lem [] = tt
nothing_asked_lem (i ∷ order) = (refl, nothing_asked_lem order)

-- The writers take turns, the last one first.
abbrev order : List ℕ
order = 2 ∷ 1 ∷ 0 ∷ 2 ∷ 1 ∷ 0 ∷ 2 ∷ 1 ∷ 0 ∷ []

abbrev after : Manager write greedy_parts
after = record first { cgroup = run_all order first.cgroup }

one_call : Call write greedy_parts fresh after
unfolding isolate Greedy.isolate new_manager refs_from is_claimed claim File.new_manager run_thread
    has_pending_work File.set_now File.start
one_call =
    called (workload "a" 3 ∷ []) [] fresh after (nothing_asked order)
      (run_all-Run order first.cgroup) (nothing_asked_lem order) refl refl refl

abbrev exit : ℕ → ℕ → Result (Unit {0}) × ℕ
exit code h = (raise exception, code)

Calls-reconcile_example :
    reconcile
      (λ (s : FileCgroupManager write). (has_pending_work write s).0)
      (λ c s. read_cpuset c s.files)
      exit
      after.cpu
      after.cgroup
      0
      (record { skip_count = 0; success_count = 0 })
    ≡ (ok tt, 0, record { skip_count = 0; success_count = 1 })
unfolding get_workloads get_threads Package.get_threads
Calls-reconcile_example =
    Calls-reconcile write greedy_parts env (λ request s. refl) read_cpuset files_back exit empty4 []
      tt after 0 (record { skip_count = 0; success_count = 0 }) refl
      (refl, (refl, (refl, (refl, tt)))) (one_more (no_call fresh) one_call)

start-later_first_example :
    ReadsAs read_cpuset "a"
      (0 ∷ 1 ∷ [])
      (later_first write
        (ReadsAs read_cpuset)
        "a"
        (0 ∷ 1 ∷ [])
        (2 ∷ 3 ∷ [])
        (File.new_manager write [])).files
unfolding File.new_manager
start-later_first_example =
    start-later_first write (ReadsAs read_cpuset) "a" (0 ∷ 1 ∷ []) (2 ∷ 3 ∷ [])
      (File.new_manager write []) (insert "a" (2 ∷ 3 ∷ []) []) (insert "a" (0 ∷ 1 ∷ []) [])
      files_back refl refl refl
