-- ===== src/Processor/Visualize/Pictured.antt =====
-- When the picture of a CPU for the log (visualize_cpu_comparison of titus_isolate/model/processor/utils.py) can
-- be made.
use titus_isolate.Prelude.{
  ℕ, suc, ◌+◌, ◌*◌, ◌/◌, ◌%◌, ◌<◌, ◌≡◌, ◌∙◌, Bool, false, ◌&&◌, ◌||◌, List, [], ◌∷◌, ◌==◌, nat_eq,
  if◌then◌else◌, length, length-append, concat_map, All, Result, ok, raise, index_error, arith,
}
use titus_isolate.Processor.Thread.{Thread, is_claimed}
use titus_isolate.Processor.Package.{Package}
use titus_isolate.Processor.Package
use titus_isolate.Processor.Cpu.{Cpu, get_threads}
use titus_isolate.Processor.Visualize.{
  fill_rows, fill_packages, visualize, visualize_cpu_comparison,
}

-- Whether the last thread is claimed.
abbrev last_claimed : List Thread → Bool
last_claimed [] = false
last_claimed (t ∷ []) = is_claimed t
last_claimed (t ∷ u ∷ ts) = last_claimed (u ∷ ts)

abbrev some_last_claimed : List Package → Bool
some_last_claimed [] = false
some_last_claimed (p ∷ ps) = last_claimed (Package.get_threads p) || some_last_claimed ps

abbrev pub HasSize : ℕ → Package → Type 0
HasSize m p = length (Package.get_threads p) ≡ m

-- What making a picture answers, if it fails just in one case.
abbrev pub fails_if : Bool → Result (Unit {0})
fails_if b = if b then raise index_error else ok tt

fill_rows-last :
    (m j : ℕ) (ts : List Thread)
    → j + length ts ≡ m
    → fill_rows (m / 2) j ts ≡ fails_if ((m % 2 == 1) && last_claimed ts)
unfolding fill_rows
fill_rows-last m j [] h = ground arith
fill_rows-last m j (t ∷ []) h = ground arith
fill_rows-last m j (t ∷ u ∷ ts) h =
    let rest = fill_rows-last m (suc j) (u ∷ ts) (omega arith) in rw rest (ground arith)

fill_packages-last :
    (m : ℕ) (ps : List Package)
    → All (HasSize m) ps
    → fill_packages (m / 2) ps ≡ fails_if ((m % 2 == 1) && some_last_claimed ps)
unfolding fill_packages
fill_packages-last m [] a = ground arith
fill_packages-last m (p ∷ ps) a =
    rw (fill_rows-last m 0 (Package.get_threads p) (here a.0), fill_packages-last m ps a.1)
      (ground arith)
  where
    here : {k : ℕ} → k ≡ m → 0 + k ≡ m
    here e = omega arith

length-get_threads :
    (m : ℕ) (ps : List Package)
    → All (HasSize m) ps
    → length (concat_map Package.get_threads ps) ≡ length ps * m
length-get_threads m [] a = omega arith
length-get_threads m (p ∷ ps) a =
    let rest = length-get_threads m ps a.1 in
    let here = a.0 in
    length-append (Package.get_threads p) (concat_map Package.get_threads ps) ∙ grind arith

share : (n m : ℕ) → 0 < n → n * m / n ≡ m
share n m h = grind arith

visualize-last :
    (m : ℕ) (cpu : Cpu)
    → 0 < length cpu.packages
    → All (HasSize m) cpu.packages
    → visualize cpu ≡ fails_if ((m % 2 == 1) && some_last_claimed cpu.packages)
unfolding visualize get_threads
visualize-last m cpu h a =
    rw
      (
        length-get_threads m cpu.packages a,
        share (length cpu.packages) m h,
        fill_packages-last m cpu.packages a,
      )
      (ground arith)

-- For two CPUs with packages, all of which have the same number of threads, the picture for the log raises
-- IndexError if this number is odd and the last thread of some package is claimed, and in no other case.
pub visualize_cpu_comparison-last :
    (m : ℕ) (old_cpu new_cpu : Cpu)
    → 0 < length old_cpu.packages
    → 0 < length new_cpu.packages
    → All (HasSize m) old_cpu.packages
    → All (HasSize m) new_cpu.packages
    → visualize_cpu_comparison old_cpu new_cpu
      ≡ fails_if (
          (m % 2 == 1)
          && (some_last_claimed old_cpu.packages || some_last_claimed new_cpu.packages))
unfolding visualize_cpu_comparison
visualize_cpu_comparison-last m old_cpu new_cpu h k a b =
    rw (visualize-last m old_cpu h a, visualize-last m new_cpu k b) (ground arith)
