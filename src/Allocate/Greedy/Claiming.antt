-- ===== src/Allocate/Greedy/Claiming.antt =====
-- `__assign_threads` of the greedy allocator terminates, and claims what it should.
use titus_isolate.Prelude.{
  ℕ, zero, suc, ◌+◌, ◌-◌, ◌≤◌, ◌<◌, min, ◌≡◌, refl, ap, ◌∙◌, inl, inr, String, true, false, List,
  [], ◌∷◌, length, sum_by, sum_by-append, length-append, concat_map, leb, not, if◌then◌else◌,
  string_eq, nat_beq, Bool-cases, Result, ok, raise, value_error, arith,
}
use titus_isolate.Processor.Thread.{is_claimed}
use titus_isolate.Processor.Claims.{Claims, Claims-refl, Claims-eq, Claims-trans, Claims-modify}
use titus_isolate.Processor.Empty.{IsEmpty, empties, emptiest-pos}
use titus_isolate.Processor.Package
use titus_isolate.Processor.Package.{Package, get_emptiest_core, modify_core, emptiest, empty_count}
use titus_isolate.Processor.Cpu
use titus_isolate.Processor.Cpu.{Cpu, is_cpu_full, get_emptiest_package, modify_package}
use titus_isolate.Allocate.Greedy.{fill_package, assign_threads}
use titus_isolate.Allocate.Greedy.Rounds.{
  claim-not-IsEmpty, Claims-empties, empty_test, assign_package_lem,
}

cpu_sum :
    (packs : List Package)
    → sum_by Cpu.empty_count packs ≡ empties (concat_map Package.get_threads packs)
unfolding Cpu.empty_count
cpu_sum [] = refl
cpu_sum (p ∷ ps) = omega (
  arith,
  empty_test p,
  cpu_sum ps,
  sum_by-append (λ t. if not (is_claimed t) then 1 else 0) (Package.get_threads p)
      (concat_map Package.get_threads ps),
)

full_sum :
    (packs : List Package)
    → length (concat_map Package.get_empty_threads packs)
      ≡ empties (concat_map Package.get_threads packs)
full_sum [] = refl
full_sum (p ∷ ps) = omega (
  arith,
  empty_test p,
  full_sum ps,
  length-append (Package.get_empty_threads p) (concat_map Package.get_empty_threads ps),
  sum_by-append (λ t. if not (is_claimed t) then 1 else 0) (Package.get_threads p)
      (concat_map Package.get_threads ps),
)

-- `is_cpu_full` tells whether no thread is empty.
pub is_cpu_full_lem : (cpu : Cpu) → is_cpu_full cpu ≡ nat_beq (empties (Cpu.get_threads cpu)) 0
unfolding is_cpu_full Cpu.get_threads
is_cpu_full_lem cpu = ap (λ n. nat_beq n 0) (full_sum cpu.packages)

-- Some of the wanted threads are claimed in the emptiest package.
fill_package_lem :
    (w : String) (n : ℕ) (cpu : Cpu)
    → 0 < n
    → 0 < empties (Cpu.get_threads cpu)
    → (k : ℕ) × (after : Cpu) × (fill_package w n cpu ≡ ok (n - k, after))
      × (0 < k)
      × (k ≤ n)
      × Claims w IsEmpty k (Cpu.get_threads cpu) (Cpu.get_threads after)
unfolding fill_package Cpu.get_threads get_emptiest_package modify_package
fill_package_lem w n cpu wanted h =
    let (pack, found, some_empty) =
      emptiest-pos Cpu.empty_count cpu.packages (omega (arith, cpu_sum cpu.packages)) in
    let (k, after, e, k≤n, finished, c) = assign_package_lem (suc n) w n pack (omega arith) in
    let here : 0 < empties (Package.get_threads pack) = rw (empty_test pack) at some_empty in
    (
      k,
      modify_package cpu (get_emptiest_package cpu) (λ _. after),
      rw (found, fill_package) (rw (e, fill_package)),
      elim finished [ inl all ↦ omega arith | inr full ↦ omega (arith, Claims-empties c) ],
      k≤n,
      Claims-modify Package.get_threads cpu.packages _ _ pack found c,
    )

assign_threads-none :
    (fuel : ℕ) (w : String) (cpu : Cpu) → assign_threads (suc fuel) w 0 cpu ≡ (ok tt, cpu)
unfolding assign_threads
assign_threads-none fuel w cpu = refl

assign_threads-full :
    (fuel : ℕ) (w : String) (n : ℕ) (cpu : Cpu)
    → 0 < n
    → is_cpu_full cpu ≡ true
    → assign_threads (suc fuel) w n cpu ≡ (raise value_error, cpu)
unfolding assign_threads
assign_threads-full fuel w n cpu wanted full =
    let some_wanted : nat_beq n 0 ≡ false = ground arith in
    rw (some_wanted, assign_threads) (rw (full, assign_threads))

assign_threads-step :
    (fuel : ℕ) (w : String) (n : ℕ) (cpu : Cpu) (left : ℕ) (next : Cpu)
    → 0 < n
    → is_cpu_full cpu ≡ false
    → fill_package w n cpu ≡ ok (left, next)
    → assign_threads (suc fuel) w n cpu ≡ assign_threads fuel w left next
unfolding assign_threads
assign_threads-step fuel w n cpu left next wanted room e =
    let some_wanted : nat_beq n 0 ≡ false = ground arith in
    rw (some_wanted, assign_threads) (rw (room, assign_threads) (rw (e, assign_threads)))

abbrev empties_of : Cpu → ℕ
empties_of cpu = empties (Cpu.get_threads cpu)

-- The outcome of a request for `n` threads: as many of them as are empty are claimed, and the request
-- succeeds just where they were enough.
abbrev pub Granted : String → ℕ → Cpu → Result (Unit {0}) × Cpu → Type 0
Granted w n cpu result =
    (after : Cpu) × (result ≡ (if leb n (empties_of cpu) then ok tt else raise value_error, after))
    × Claims w IsEmpty (min n (empties_of cpu)) (Cpu.get_threads cpu) (Cpu.get_threads after)

Granted-after :
    (w : String) (n : ℕ) (cpu : Cpu) (k : ℕ) (next : Cpu) (result : Result (Unit {0}) × Cpu)
    → k ≤ n
    → Claims w IsEmpty k (Cpu.get_threads cpu) (Cpu.get_threads next)
    → Granted w (n - k) next result
    → Granted w n cpu result
Granted-after w n cpu k next result h c (after, e, d) =
    let count : empties_of next + k ≡ empties_of cpu = Claims-empties c in
    let verdict : leb (n - k) (empties_of next) ≡ leb n (empties_of cpu) = ground arith in
    (
      after,
      e ∙ ap (λ b. (if b then ok tt else raise value_error, after)) verdict,
      Claims-eq (omega arith) (Claims-trans (claim-not-IsEmpty w) c d),
    )

verdict_enough :
    (n : ℕ) (cpu : Cpu)
    → n ≤ empties_of cpu
    → ◌≡◌ {A = Result (Unit {0}) × Cpu}
        (ok tt, cpu)
        (if leb n (empties_of cpu) then ok tt else raise value_error, cpu)
verdict_enough n cpu h = let e : leb n (empties_of cpu) ≡ true = ground arith in rw e

verdict_short :
    (n : ℕ) (cpu : Cpu)
    → empties_of cpu < n
    → ◌≡◌ {A = Result (Unit {0}) × Cpu}
        (raise value_error, cpu)
        (if leb n (empties_of cpu) then ok tt else raise value_error, cpu)
verdict_short n cpu h = let e : leb n (empties_of cpu) ≡ false = ground arith in rw e

-- `__assign_threads` terminates, on any fuel above the number of threads wanted: it claims that many
-- empty threads and nothing else, or, where fewer are empty, claims these and raises ValueError.
pub assign_threads_lem :
    (fuel : ℕ) (w : String) (n : ℕ) (cpu : Cpu)
    → n < fuel
    → Granted w n cpu (assign_threads fuel w n cpu)
assign_threads_lem zero w n cpu h = absurd (omega arith)
assign_threads_lem (suc fuel) w zero cpu h = (
  cpu,
  assign_threads-none fuel w cpu ∙ verdict_enough 0 cpu (omega arith),
  Claims-eq (omega arith) (Claims-refl _),
)
assign_threads_lem (suc fuel) w (suc n) cpu h = elim (Bool-cases (is_cpu_full cpu)) [
  | inl full ↦
      let none_empty : empties_of cpu ≡ 0 = ground (arith, is_cpu_full_lem cpu) in
      (
        cpu,
        assign_threads-full fuel w (suc n) cpu (omega arith) full
            ∙ verdict_short (suc n) cpu (omega arith),
        Claims-eq (omega arith) (Claims-refl _),
      )
  | inr room ↦
      let some_empty : 0 < empties_of cpu = ground (arith, is_cpu_full_lem cpu) in
      let (k, next, e, progress, k≤n, c) =
        fill_package_lem w (suc n) cpu (omega arith) some_empty in
      rw (assign_threads-step fuel w (suc n) cpu (suc n - k) next (omega arith) room e) (
        Granted-after w (suc n) cpu k next _ k≤n c
          (assign_threads_lem fuel w (suc n - k) next (omega arith)))
]
