-- ===== src/Processor/Config/Shape.antt =====
-- The CPU that `get_cpu` builds: its threads, package by package, and when it raises.
use titus_isolate.Prelude.{
  ℕ, zero, suc, ◌*◌, ◌≡◌, refl, List, [], ◌∷◌, Result, ok, raise, value_error, ◌⊎◌, inl, inr, arith,
}
use titus_isolate.Processor.Thread.{Thread}
use titus_isolate.Processor.Core.{Core}
use titus_isolate.Processor.Package.{Package}
use titus_isolate.Processor.Cpu.{Cpu}
use titus_isolate.Processor.Config.{
  build, thread_index, get_threads, get_core, get_package, get_cpu,
}

-- `f i, f (i + 1), …`, `n` values.
abbrev pub upto {ℓ} : {A : Type ℓ} → (ℕ → A) → ℕ → ℕ → List A
upto f i zero = []
upto f i (suc n) = f i ∷ upto f (suc i) n

build-upto {ℓ} :
    {A : Type ℓ} (make : ℕ → Result A) (f : ℕ → A)
    → ((i : ℕ) → make i ≡ ok (f i))
    → (i n : ℕ) → build make i n ≡ ok (upto f i n)
unfolding build
build-upto make f h i zero = refl
build-upto make f h i (suc n) = rw (h i, build-upto make f h (suc i) n)

abbrev pub free_thread : ℕ → Thread
free_thread i = record { workload_ids = []; processor_id = i }

module _ (packages cores rows : ℕ) where
  abbrev pub id_at : ℕ → ℕ → ℕ → ℕ
  id_at p c row = thread_index p c packages cores row

  abbrev pub threads_at : ℕ → ℕ → List Thread
  threads_at p c = upto (λ row. free_thread (id_at p c row)) 0 rows

  abbrev pub core_at : ℕ → ℕ → Core
  core_at p c = record { identifier = c; threads = threads_at p c }

  abbrev pub package_at : ℕ → Package
  package_at p = record { identifier = p; cores = upto (core_at p) 0 cores }

  abbrev pub built : Cpu
  built = record { packages = upto package_at 0 packages }

get_threads-upto :
    (p c packages cores rows : ℕ)
    → get_threads p c packages cores rows ≡ ok (threads_at packages cores rows p c)
unfolding get_threads
get_threads-upto p c packages cores rows = build-upto _ _ (λ i. refl) 0 rows

get_core-at :
    (packages cores rows p c : ℕ)
    → get_core packages cores (suc rows) p c ≡ ok (core_at packages cores (suc rows) p c)
unfolding get_core
get_core-at packages cores rows p c = rw (get_threads-upto p c packages cores (suc rows))

get_package-at :
    (packages cores rows p : ℕ)
    → get_package packages (suc cores) (suc rows) p
      ≡ ok (package_at packages (suc cores) (suc rows) p)
unfolding get_package
get_package-at packages cores rows p = rw (
    build-upto (get_core packages (suc cores) (suc rows) p) _
      (get_core-at packages (suc cores) rows p) 0 (suc cores))

pub get_cpu-built :
    (packages cores rows : ℕ)
    → get_cpu (suc packages) (suc cores) (suc rows)
      ≡ ok (built (suc packages) (suc cores) (suc rows))
unfolding get_cpu
get_cpu-built packages cores rows = rw (
    build-upto (get_package (suc packages) (suc cores) (suc rows)) _
      (get_package-at (suc packages) cores rows) 0 (suc packages))

get_package-raise :
    (packages cores rows p : ℕ)
    → (cores ≡ 0) ⊎ (rows ≡ 0)
    → get_package packages cores rows p ≡ raise value_error
unfolding get_package build
get_package-raise packages zero rows p h = refl
get_package-raise packages (suc cores) zero p h = refl
get_package-raise packages (suc cores) (suc rows) p (inl e) = absurd (omega arith)
get_package-raise packages (suc cores) (suc rows) p (inr e) = absurd (omega arith)

-- A CPU without cores in a package or threads in a core is refused with ValueError, and so is a CPU
-- without packages.
pub get_cpu-raise :
    (packages cores rows : ℕ)
    → packages * cores * rows ≡ 0
    → get_cpu packages cores rows ≡ raise value_error
unfolding get_cpu build
get_cpu-raise zero cores rows h = refl
get_cpu-raise (suc packages) cores rows h =
    rw (get_package-raise (suc packages) cores rows 0 (none_of cores rows h))
  where
    none_of : (c r : ℕ) → suc packages * c * r ≡ 0 → (c ≡ 0) ⊎ (r ≡ 0)
    none_of zero r e = inl refl
    none_of (suc c) zero e = inr refl
    none_of (suc c) (suc r) e = absurd (omega arith)
