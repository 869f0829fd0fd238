-- ===== src/Allocate/Greedy/Rounds.antt =====
-- The greedy allocator's `while` loop within a package terminates, and what it claims.
use titus_isolate.Prelude.{
  ℕ, zero, suc, ◌+◌, ◌-◌, ◌≤◌, ◌<◌, min, ◌≡◌, refl, sym, ap, ◌∙◌, inl, inr, ◌⊎◌, String, Bool, true,
  false, ◌&&◌, List, [], ◌∷◌, length, length-take, sum_by, sum_by-append, take, concat_map, ltb,
  lt→ltb, not, if◌then◌else◌, contains, beq_refl, string_eq, Bool-cases, Result, ok, arith,
}
use titus_isolate.Processor.Thread.{Thread, claim, is_claimed, holds}
use titus_isolate.Processor.Claims.{
  Claims, done, keep, take as take_one, Claims-refl, Claims-eq, Claims-trans, Claims-modify,
  holds-claim,
}
use titus_isolate.Processor.Empty.{
  IsEmpty, empties, length-get_empty_threads, claim_first, emptiest-pos,
}
use titus_isolate.Processor.Core
use titus_isolate.Processor.Core.{Core, claim_threads}
use titus_isolate.Processor.Package
use titus_isolate.Processor.Package.{Package, get_emptiest_core, modify_core, emptiest, empty_count}
use titus_isolate.Allocate.Greedy.{claim_round, assign_package}

pos_of_contains : (xs : List String) (a : String) → contains xs a ≡ true → 0 < length xs
pos_of_contains [] a h = cc
pos_of_contains (x ∷ xs) a h = omega arith

pub claim-not-IsEmpty : (w : String) (t : Thread) → ¬ IsEmpty (claim t w)
unfolding is_claimed
claim-not-IsEmpty w t h =
    let on : holds w (claim t w) ≡ true = ground (arith, holds-claim t w w, beq_refl w) in
    cc (lt→ltb 0 (length (claim t w).workload_ids) (pos_of_contains _ w on))

pub Claims-empties :
    {w : String} {n : ℕ} {ts us : List Thread}
    → Claims w IsEmpty n ts us
    → empties us + n ≡ empties ts
Claims-empties (done e) = omega arith
Claims-empties (keep t c) = omega (arith, Claims-empties c)
Claims-empties {w} (take_one t h e c) = ground (arith, Claims-empties c, claim-not-IsEmpty w t)

empty_count-empties : (core : Core) → empty_count core ≡ empties core.threads
unfolding empty_count Core.get_empty_threads
empty_count-empties core = length-get_empty_threads core.threads

sum-empty_count :
    (cores : List Core)
    → sum_by empty_count cores ≡ empties (concat_map (λ (core : Core). core.threads) cores)
sum-empty_count [] = refl
sum-empty_count (c ∷ cs) = omega (
  arith,
  empty_count-empties c,
  sum-empty_count cs,
  sum_by-append (λ t. if not (is_claimed t) then 1 else 0) c.threads
      (concat_map (λ (core : Core). core.threads) cs),
)

-- A round of the `while` loop claims at least one thread, and as many as it counts.
claim_round_lem :
    (w : String) (n : ℕ) (pack : Package)
    → 0 < n
    → 0 < empties (Package.get_threads pack)
    → (k : ℕ) × (after : Package) × (claim_round w n pack ≡ ok (n - k, after))
      × (0 < k)
      × (k ≤ n)
      × Claims w IsEmpty k (Package.get_threads pack) (Package.get_threads after)
unfolding claim_round Package.get_threads get_emptiest_core modify_core claim_threads
claim_round_lem w n pack wanted h =
    let (core, found, some_empty) =
      emptiest-pos empty_count pack.cores (omega (arith, sum-empty_count pack.cores)) in
    let refs = take n (Core.get_empty_threads core) in
    let count : length refs ≡ min n (empties core.threads) =
      length-take n (Core.get_empty_threads core) ∙ ap (min n) (empty_count-empties core) in
    (
      length refs,
      modify_core pack (get_emptiest_core pack) (λ c. claim_threads c w refs),
      rw (found, claim_round),
      omega (arith, empty_count-empties core),
      omega arith,
      Claims-modify (λ (c : Core). c.threads) pack.cores _ _ core found
          (Claims-eq (sym count) (claim_first w n core.threads)),
    )

pub empty_test :
    (pack : Package) → length (Package.get_empty_threads pack) ≡ empties (Package.get_threads pack)
unfolding Package.get_empty_threads
empty_test pack = length-get_empty_threads (Package.get_threads pack)

abbrev goes_on : ℕ → Package → Bool
goes_on n pack = ltb 0 n && ltb 0 (length (Package.get_empty_threads pack))

assign_package-step :
    (fuel : ℕ) (w : String) (n : ℕ) (pack : Package) (left : ℕ) (next : Package)
    → goes_on n pack ≡ true
    → claim_round w n pack ≡ ok (left, next)
    → assign_package (suc fuel) w n pack ≡ assign_package fuel w left next
unfolding assign_package
assign_package-step fuel w n pack left next more e =
    rw (more, assign_package) (rw (e, assign_package))

assign_package-stop :
    (fuel : ℕ) (w : String) (n : ℕ) (pack : Package)
    → goes_on n pack ≡ false
    → assign_package (suc fuel) w n pack ≡ ok (n - 0, pack)
unfolding assign_package
assign_package-stop fuel w n pack stop =
    let e : n ≡ n - 0 = omega arith in rw (stop, assign_package) (ap (λ (i : ℕ). ok (i, pack)) e)

goes_on-true :
    (n : ℕ) (pack : Package)
    → goes_on n pack ≡ true
    → (0 < n) × (0 < empties (Package.get_threads pack))
goes_on-true n pack more = ground (arith, empty_test pack)

goes_on-false :
    (n : ℕ) (pack : Package)
    → goes_on n pack ≡ false
    → (0 ≡ n) ⊎ (empties (Package.get_threads pack) ≡ 0)
goes_on-false n pack stop = elim (Bool-cases (ltb 0 n)) [
  | inl some_wanted ↦ inr (ground (arith, empty_test pack))
  | inr none_wanted ↦ inl (ground arith)
]

-- What the loop makes of a package: `k` of `n` wanted threads are claimed.
abbrev pub Assigned : String → ℕ → Package → Result (ℕ × Package) → Type 0
Assigned w n pack result =
    (k : ℕ) × (after : Package) × (result ≡ ok (n - k, after))
    × (k ≤ n)
    × ((k ≡ n) ⊎ (empties (Package.get_threads after) ≡ 0))
    × Claims w IsEmpty k (Package.get_threads pack) (Package.get_threads after)

Assigned-after :
    (w : String) (n : ℕ) (pack : Package) (k : ℕ) (next : Package) (result : Result (ℕ × Package))
    → k ≤ n
    → Claims w IsEmpty k (Package.get_threads pack) (Package.get_threads next)
    → Assigned w (n - k) next result
    → Assigned w n pack result
Assigned-after w n pack k next result h c (j, after, e, j≤, finished, d) = (
  k + j,
  after,
  e ∙ ap (λ (i : ℕ). ok (i, after)) (omega arith),
  omega arith,
  elim finished [ inl all ↦ inl (omega arith) | inr full ↦ inr full ],
  Claims-trans (claim-not-IsEmpty w) c d,
)

-- The `while` loop ends with nothing wanted or nothing empty.
pub assign_package_lem :
    (fuel : ℕ) (w : String) (n : ℕ) (pack : Package)
    → n < fuel
    → Assigned w n pack (assign_package fuel w n pack)
assign_package_lem zero w n pack h = absurd (omega arith)
assign_package_lem (suc fuel) w n pack h = elim (Bool-cases (goes_on n pack)) [
  | inl more ↦
      let (wanted, some_empty) = goes_on-true n pack more in
      let (k, next, e, progress, k≤n, c) = claim_round_lem w n pack wanted some_empty in
      rw (assign_package-step fuel w n pack (n - k) next more e) (
        Assigned-after w n pack k next _ k≤n c
          (assign_package_lem fuel w (n - k) next (omega arith)))
  | inr stop ↦ (
    0,
    pack,
    assign_package-stop fuel w n pack stop,
    omega arith,
    goes_on-false n pack stop,
    Claims-refl (Package.get_threads pack),
  )
]
