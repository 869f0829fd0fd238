-- ===== src/Processor/Everywhere.antt =====
-- A change of every thread object of a CPU, and `clear`.
use titus_isolate.Prelude.{
  ◌≤◌, ◌≡◌, refl, sym, ap, ◌∙◌, String, false, List, [], ◌∷◌, map, length, All, concat_map,
  string_eq, ◌++◌, ap₂, arith,
}
use titus_isolate.Processor.Thread.{Thread, clear, is_claimed}
use titus_isolate.Processor.Core.{Core}
use titus_isolate.Processor.Package.{Package}
use titus_isolate.Processor.Package
use titus_isolate.Processor.Claims.{held}
use titus_isolate.Processor.Empty.{empties}
use titus_isolate.Processor.Cpu.{Cpu, get_threads, clear_cpu, map_threads}

map-append_threads :
    (f : Thread → Thread) (ts us : List Thread) → map f (ts ++ us) ≡ map f ts ++ map f us
map-append_threads f [] us = refl
map-append_threads f (t ∷ ts) us = ap (◌∷◌ (f t)) (map-append_threads f ts us)

cores_map :
    (f : Thread → Thread) (cores : List Core)
    → concat_map
        (λ (c : Core). c.threads)
        (map (λ (c : Core). record c { threads = map f c.threads }) cores)
      ≡ map f (concat_map (λ (c : Core). c.threads) cores)
cores_map f [] = refl
cores_map f (c ∷ cs) =
    ap (◌++◌ (map f c.threads)) (cores_map f cs)
    ∙ sym (map-append_threads f c.threads (concat_map (λ (c : Core). c.threads) cs))

packages_map :
    (f : Thread → Thread) (packs : List Package)
    → concat_map Package.get_threads (
        map
          (λ (p : Package). record p {
            cores = map (λ (c : Core). record c { threads = map f c.threads }) p.cores;
          })
          packs)
      ≡ map f (concat_map Package.get_threads packs)
unfolding Package.get_threads
packages_map f [] = refl
packages_map f (p ∷ ps) =
    ap₂ ◌++◌ (cores_map f p.cores) (packages_map f ps)
    ∙ sym (map-append_threads f (concat_map (λ (c : Core). c.threads) p.cores) _)

-- No thread has two workloads.
abbrev pub Exclusive : List Thread → Type 0
Exclusive = All (λ (t : Thread). length t.workload_ids ≤ 1)

-- A change of every thread object is a change of the list of threads.
pub get_threads-map_threads :
    (f : Thread → Thread) (cpu : Cpu) → get_threads (map_threads f cpu) ≡ map f (get_threads cpu)
unfolding get_threads map_threads
get_threads-map_threads f cpu = packages_map f cpu.packages

clear_not_claimed : (t : Thread) → is_claimed (clear t) ≡ false
unfolding is_claimed clear
clear_not_claimed t = refl

empties-clear : (ts : List Thread) → empties (map clear ts) ≡ length ts
empties-clear [] = refl
empties-clear (t ∷ ts) = ground (arith, clear_not_claimed t, empties-clear ts)

held-clear : (w : String) (ts : List Thread) → held w (map clear ts) ≡ 0
unfolding clear
held-clear w [] = refl
held-clear w (t ∷ ts) = held-clear w ts

ids-clear :
    (ts : List Thread)
    → map (λ (t : Thread). t.processor_id) (map clear ts) ≡ map (λ (t : Thread). t.processor_id) ts
unfolding clear
ids-clear [] = refl
ids-clear (t ∷ ts) = ap (◌∷◌ t.processor_id) (ids-clear ts)

clear_threads : (cpu : Cpu) → get_threads (clear_cpu cpu) ≡ map clear (get_threads cpu)
unfolding clear_cpu
clear_threads cpu = get_threads-map_threads clear cpu

-- After `clear` every thread is empty,
pub empties-clear_cpu :
    (cpu : Cpu) → empties (get_threads (clear_cpu cpu)) ≡ length (get_threads cpu)
empties-clear_cpu cpu = rw (clear_threads cpu) (empties-clear (get_threads cpu))

-- no workload is on any,
pub held-clear_cpu : (w : String) (cpu : Cpu) → held w (get_threads (clear_cpu cpu)) ≡ 0
held-clear_cpu w cpu = rw (clear_threads cpu) (held-clear w (get_threads cpu))

-- and the threads are those that were there.
pub ids-clear_cpu :
    (cpu : Cpu)
    → map (λ (t : Thread). t.processor_id) (get_threads (clear_cpu cpu))
      ≡ map (λ (t : Thread). t.processor_id) (get_threads cpu)
ids-clear_cpu cpu = rw (clear_threads cpu) (ids-clear (get_threads cpu))

clear-Exclusive : (ts : List Thread) → Exclusive (map clear ts)
unfolding clear
clear-Exclusive [] = tt
clear-Exclusive (t ∷ ts) = (omega arith, clear-Exclusive ts)

pub clear_cpu-Exclusive : (cpu : Cpu) → Exclusive (get_threads (clear_cpu cpu))
clear_cpu-Exclusive cpu = rw (clear_threads cpu) (clear-Exclusive (get_threads cpu))
