-- ===== src/Processor/Claims.antt =====
-- What an allocator does to a list of threads, as a relation that forgets how it searched: `n`
-- threads that pass a test are claimed for a workload, and nothing else changes.
use titus_isolate.Prelude.{
  ◌||◌, ◌==◌, beq_refl, beq_ne, ℕ, zero, suc, ◌+◌, ◌≡◌, ◌≢◌, refl, ◌∙◌, subst, String, false, List,
  [], ◌∷◌, ◌++◌, map, length, keep_if, get_elem?, modify, some, concat_map, string_eq, arith,
}
use titus_isolate.Prelude.Sets.{contains-append, contains-distinct}
use titus_isolate.Processor.Thread.{Thread, claim, holds}

module _ (workload_id : String) (P : Thread → Type 0) where
  pub data Claims : ℕ → List Thread → List Thread → Type 0 where
    done : {n : ℕ} → n ≡ 0 → Claims n [] []
    keep : {n : ℕ} {ts us : List Thread} (t : Thread) → Claims n ts us → Claims n (t ∷ ts) (t ∷ us)
    take :
        {n m : ℕ} {ts us : List Thread} (t : Thread)
        → P t
        → n ≡ suc m
        → Claims m ts us
        → Claims n (t ∷ ts) (claim t workload_id ∷ us)

module _ {workload_id : String} {P : Thread → Type 0} where
  pub Claims-refl : (ts : List Thread) → Claims workload_id P 0 ts ts
  Claims-refl [] = done refl
  Claims-refl (t ∷ ts) = keep t (Claims-refl ts)

  pub Claims-eq :
      {n m : ℕ} {ts us : List Thread}
      → n ≡ m
      → Claims workload_id P n ts us
      → Claims workload_id P m ts us
  Claims-eq {ts} {us} e c = subst (λ k. Claims workload_id P k ts us) e c

  pub Claims-append :
      {n m : ℕ} {ts us vs ws : List Thread}
      → Claims workload_id P n ts us
      → Claims workload_id P m vs ws
      → Claims workload_id P (n + m) (ts ++ vs) (us ++ ws)
  Claims-append (done e) d = Claims-eq (omega arith) d
  Claims-append (keep t c) d = keep t (Claims-append c d)
  Claims-append (take t h e c) d = take t h (omega arith) (Claims-append c d)

  -- A claimed thread fails the test, so that no thread is taken twice.
  pub Claims-trans :
      {n m : ℕ} {ts us vs : List Thread}
      → ((t : Thread) → ¬ P (claim t workload_id))
      → Claims workload_id P n ts us
      → Claims workload_id P m us vs
      → Claims workload_id P (n + m) ts vs
  Claims-trans no_more (done e) d = Claims-eq (omega arith) d
  Claims-trans no_more (keep t c) (keep _ d) = keep t (Claims-trans no_more c d)
  Claims-trans no_more (keep t c) (take _ h e d) = take t h (omega arith) (Claims-trans no_more c d)
  Claims-trans no_more (take t h e c) (keep _ d) = take t h (omega arith) (Claims-trans no_more c d)
  Claims-trans no_more (take t h e c) (take _ again e' d) = absurd (no_more t again)

  -- A claim in one element of a list is one in the whole.
  pub Claims-modify {ℓ} :
      {A : Type ℓ} {n : ℕ} (threads : A → List Thread) (xs : List A) (i : ℕ) (f : A → A) (x : A)
      → get_elem? xs i ≡ some x
      → Claims workload_id P n (threads x) (threads (f x))
      → Claims workload_id P n (concat_map threads xs) (concat_map threads (modify xs i f))
  Claims-modify threads [] i f x h c = cc
  Claims-modify {n} threads (y ∷ xs) zero f x h c =
      let same : x ≡ y = cc in
      Claims-eq {n = n + 0} (omega arith) (
        Claims-append (subst (λ z. Claims workload_id P n (threads z) (threads (f z))) same c)
          (Claims-refl (concat_map threads xs)))
  Claims-modify threads (y ∷ xs) (suc i) f x h c =
      Claims-eq (omega arith)
        (Claims-append {n = 0} (Claims-refl (threads y)) (Claims-modify threads xs i f x h c))

  pub Claims-ids :
      {n : ℕ} {ts us : List Thread}
      → Claims workload_id P n ts us
      → map (λ (t : Thread). t.processor_id) us ≡ map (λ (t : Thread). t.processor_id) ts
  unfolding claim
  Claims-ids (done e) = refl
  Claims-ids (keep t c) = cc (Claims-ids c)
  Claims-ids (take t h e c) = cc (Claims-ids c)

pub holds-claim : (t : Thread) (w v : String) → holds v (claim t w) ≡ (holds v t || (v == w))
unfolding claim
holds-claim t w v =
    contains-distinct (t.workload_ids ++ w ∷ []) v
    ∙ ground (arith, contains-append t.workload_ids (w ∷ []) v)

-- How many threads of a list a workload is on.
abbrev pub held : String → List Thread → ℕ
held workload_id ts = length (keep_if (holds workload_id) ts)

module _ {workload_id : String} {P : Thread → Type 0}
    (fresh : (t : Thread) → P t → holds workload_id t ≡ false) where
  pub Claims-held :
      {n : ℕ} {ts us : List Thread}
      → Claims workload_id P n ts us
      → held workload_id us ≡ held workload_id ts + n
  Claims-held (done e) = omega arith
  Claims-held (keep t c) = ground (arith, Claims-held c)
  Claims-held (take t h e c) =
      ground (
        arith,
        Claims-held c,
        fresh t h,
        holds-claim t workload_id workload_id,
        beq_refl workload_id,
      )

module _ {workload_id : String} {P : Thread → Type 0} where
  pub Claims-held_ne :
      {n : ℕ} {ts us : List Thread} (v : String)
      → v ≢ workload_id
      → Claims workload_id P n ts us
      → held v us ≡ held v ts
  Claims-held_ne v ne (done e) = refl
  Claims-held_ne v ne (keep t c) = ground (arith, Claims-held_ne v ne c)
  Claims-held_ne v ne (take t h e c) =
      ground (arith, Claims-held_ne v ne c, holds-claim t workload_id v, beq_ne v workload_id ne)
