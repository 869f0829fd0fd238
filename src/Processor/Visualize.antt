-- ===== src/Processor/Visualize.antt =====
-- `==` of cores, packages and CPUs (titus_isolate/model/processor), and what
-- visualize_cpu_comparison (titus_isolate/model/processor/utils.py) raises: the text goes to the log only and is
-- left out. Every claimed thread has a footprint, since both CPUs are asked for theirs.
pub mod Pictured
use titus_isolate.Prelude.{
  ℕ, suc, ◌/◌, Bool, true, false, ◌&&◌, ◌||◌, List, [], ◌∷◌, ◌==◌, nat_eq, if◌then◌else◌, leb,
  nat_beq, length, Result, ok, raise, index_error, exception, ◌>>=◌,
}
use titus_isolate.Processor.Thread.{Thread, is_claimed}
use titus_isolate.Processor.Thread
use titus_isolate.Processor.Core.{Core}
use titus_isolate.Processor.Package.{Package}
use titus_isolate.Processor.Package
use titus_isolate.Processor.Cpu.{Cpu, get_threads}

module _ {A : Type 0} (same : A → A → Bool) where
  -- `x in ys`, and `set(xs) == set(ys)`: the hash of an object is made of what `==` compares.
  abbrev member : A → List A → Bool
  member x [] = false
  member x (y ∷ ys) = same x y || member x ys

  abbrev within : List A → List A → Bool
  within [] ys = true
  within (x ∷ xs) ys = member x ys && within xs ys

  abbrev same_set : List A → List A → Bool
  same_set xs ys = within xs ys && within ys xs

unfoldable pub core_eq : Core → Core → Bool
unfolding Thread.eq
core_eq c other = (c.identifier == other.identifier) && same_set Thread.eq c.threads other.threads

unfoldable pub package_eq : Package → Package → Bool
unfolding core_eq
package_eq p other = (p.identifier == other.identifier) && same_set core_eq p.cores other.cores

unfoldable pub cpu_eq : Cpu → Cpu → Bool
unfolding package_eq
cpu_eq cpu other = same_set package_eq cpu.packages other.packages

-- The loop over the threads of a package, from position `j` on, with the length of `S1` and `S2`.
unfoldable pub fill_rows : ℕ → ℕ → List Thread → Result (Unit {0})
unfolding is_claimed
fill_rows width j [] = ok tt
fill_rows width j (t ∷ ts) =
    let rest = fill_rows width (suc j) ts in
    if is_claimed t && leb width (j / 2) then raise index_error else rest

unfoldable pub fill_packages : ℕ → List Package → Result (Unit {0})
unfolding fill_rows Package.get_threads
fill_packages width [] = ok tt
fill_packages width (p ∷ ps) =
    fill_rows width 0 (Package.get_threads p) >>= λ u. fill_packages width ps

-- `__visualize(cpu, footprints)`
unfoldable pub visualize : Cpu → Result (Unit {0})
unfolding fill_packages get_threads
visualize cpu =
    if nat_beq (length cpu.packages) 0
    then raise exception
    else fill_packages (length (get_threads cpu) / length cpu.packages / 2) cpu.packages

unfoldable pub visualize_cpu_comparison : Cpu → Cpu → Result (Unit {0})
unfolding visualize
visualize_cpu_comparison old_cpu new_cpu = visualize old_cpu >>= λ u. visualize new_cpu

-- `if old_cpu != new_cpu: self.__report_cpu_state(old_cpu, new_cpu)`
unfoldable pub report_change : Cpu → Cpu → Result (Unit {0})
unfolding cpu_eq visualize_cpu_comparison
report_change old_cpu new_cpu =
    if cpu_eq old_cpu new_cpu then ok tt else visualize_cpu_comparison old_cpu new_cpu
