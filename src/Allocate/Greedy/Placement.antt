-- ===== src/Allocate/Greedy/Placement.antt =====
-- The greedy allocator's loop over the requested workloads: who is placed where.
use titus_isolate.Prelude.{
  ℕ, suc, ◌≤◌, ◌<◌, min, ◌≡◌, ◌≢◌, refl, sym, ap, ◌∙◌, subst, String, true, false, List, [], ◌∷◌,
  map, length, sum_by, All, ltb, leb, contains, IsDistinct, string_eq, beq_refl, distinct, ◌++◌,
  Result, ok, raise, value_error, arith,
}
use native.Mathlib.Decide.{dec_le}
use titus_isolate.Prelude.Sets.{not-contains_lem}
use titus_isolate.Workload.{Workload}
use titus_isolate.Processor.Thread.{Thread, claim, is_claimed, holds}
use titus_isolate.Processor.Claims.{
  Claims, done, keep, take, held, Claims-ids, Claims-held, Claims-held_ne,
}
use titus_isolate.Processor.Everywhere.{Exclusive}
use titus_isolate.Processor.Empty.{IsEmpty, empties}
use titus_isolate.Processor.Cpu.{Cpu, get_threads}
use titus_isolate.Allocate.Greedy.{assign_threads, assign_all}
use titus_isolate.Allocate.Greedy.Claiming.{Granted, assign_threads_lem}
use titus_isolate.Allocate.Greedy.Rounds.{Claims-empties}

abbrev pub wanted : List Workload → ℕ
wanted = sum_by (λ (w : Workload). w.thread_count)

abbrev pub ids : List Workload → List String
ids = map (λ (w : Workload). w.task_id)

-- Each workload of a list, in turn, claims as many empty threads as it asks for.
abbrev pub Placed : List Workload → List Thread → List Thread → Type 0
Placed [] ts us = us ≡ ts
Placed (w ∷ ws) ts us =
    (mid : List Thread) × Claims w.task_id IsEmpty w.thread_count ts mid × Placed ws mid us

abbrev pub threads_empty : Cpu → ℕ
threads_empty cpu = empties (get_threads cpu)

assign_all-step :
    (w : Workload) (ws : List Workload) (cpu after : Cpu)
    → assign_threads (suc w.thread_count) w.task_id w.thread_count cpu ≡ (ok tt, after)
    → assign_all (w ∷ ws) cpu ≡ assign_all ws after
unfolding assign_all
assign_all-step w ws cpu after e = ground arith

assign_all-raise :
    (w : Workload) (ws : List Workload) (cpu after : Cpu)
    → assign_threads (suc w.thread_count) w.task_id w.thread_count cpu ≡ (raise value_error, after)
    → assign_all (w ∷ ws) cpu ≡ (raise value_error, after)
unfolding assign_all
assign_all-raise w ws cpu after e = ground arith

Granted-ok :
    (w : Workload) (cpu : Cpu) (result : Result (Unit {0}) × Cpu)
    → w.thread_count ≤ threads_empty cpu
    → Granted w.task_id w.thread_count cpu result
    → (after : Cpu) × (result ≡ (ok tt, after))
      × Claims w.task_id IsEmpty w.thread_count (get_threads cpu) (get_threads after)
Granted-ok w cpu result h (after, e, c) =
    let enough : leb w.thread_count (threads_empty cpu) ≡ true = ground arith in
    let count : min w.thread_count (threads_empty cpu) ≡ w.thread_count = omega arith in
    (
      after,
      e ∙ rw enough,
      subst (λ n. Claims w.task_id IsEmpty n (get_threads cpu) (get_threads after)) count c,
    )

Granted-raise :
    (w : Workload) (cpu : Cpu) (result : Result (Unit {0}) × Cpu)
    → threads_empty cpu < w.thread_count
    → Granted w.task_id w.thread_count cpu result
    → (after : Cpu) × (result ≡ (raise value_error, after))
Granted-raise w cpu result h (after, e, c) =
    let short : leb w.thread_count (threads_empty cpu) ≡ false = ground arith in
    (after, e ∙ rw short)

abbrev pub Completed : List Workload → Cpu → Result (Unit {0}) × Cpu → Type 0
Completed ws cpu result =
    (after : Cpu) × (result ≡ (ok tt, after)) × Placed ws (get_threads cpu) (get_threads after)

pub assign_all_enough :
    (ws : List Workload) (cpu : Cpu)
    → wanted ws ≤ threads_empty cpu
    → Completed ws cpu (assign_all ws cpu)
unfolding assign_all
assign_all_enough [] cpu h = (cpu, refl, refl)
assign_all_enough (w ∷ ws) cpu h =
    let (mid, e, c) =
      Granted-ok w cpu _ (omega arith)
        (assign_threads_lem (suc w.thread_count) w.task_id w.thread_count cpu (omega arith)) in
    let (after, e', p) = assign_all_enough ws mid (omega (arith, Claims-empties c)) in
    (after, assign_all-step w ws cpu mid e ∙ e', (get_threads mid, c, p))

pub assign_all_short :
    (ws : List Workload) (cpu : Cpu)
    → threads_empty cpu < wanted ws
    → (after : Cpu) × (assign_all ws cpu ≡ (raise value_error, after))
assign_all_short [] cpu h = absurd (omega arith)
assign_all_short (w ∷ ws) cpu h =
    let granted =
      assign_threads_lem (suc w.thread_count) w.task_id w.thread_count cpu (omega arith) in
    elim (dec_le w.thread_count (threads_empty cpu)) [
      | yes fits ↦
          let (mid, e, c) = Granted-ok w cpu _ fits granted in
          let (after, e') = assign_all_short ws mid (omega (arith, Claims-empties c)) in
          (after, assign_all-step w ws cpu mid e ∙ e')
      | no over ↦
          let (after, e) = Granted-raise w cpu _ (omega arith) granted in
          (after, assign_all-raise w ws cpu after e)
    ]

-- Facts about a placement.
pub empty_not_held : (w : String) (t : Thread) → IsEmpty t → holds w t ≡ false
unfolding is_claimed
empty_not_held w t h = elim_nil t.workload_ids h
  where
    elim_nil : (xs : List String) → ltb 0 (length xs) ≡ false → contains xs w ≡ false
    elim_nil [] e = refl
    elim_nil (x ∷ xs) e = ground arith

pub Placed-held_other :
    (ws : List Workload) (ts us : List Thread) (v : String)
    → contains (ids ws) v ≡ false
    → Placed ws ts us
    → held v us ≡ held v ts
Placed-held_other [] ts us v h p = ap (held v) p
Placed-held_other (w ∷ ws) ts us v h (mid, c, p) =
    let apart : v ≢ w.task_id = λ e. cc ((string_eq.beq_iff v w.task_id).1 e) in
    Placed-held_other ws mid us v (ground arith) p ∙ Claims-held_ne v apart c

pub Placed-held :
    (ws : List Workload) (ts us : List Thread)
    → IsDistinct (ids ws)
    → ((v : String) → contains (ids ws) v ≡ true → held v ts ≡ 0)
    → Placed ws ts us
    → All (λ (w : Workload). held w.task_id us ≡ w.thread_count) ws
Placed-held [] ts us d z p = tt
Placed-held (w ∷ ws) ts us d z (mid, c, p) = (
  Placed-held_other ws mid us w.task_id d.0 p
      ∙ (Claims-held (empty_not_held w.task_id) c ∙ omega (arith, z w.task_id here)),
  Placed-held ws mid us d.1
      (λ v on. Claims-held_ne v (not-contains_lem (ids ws) d.0 on) c ∙ z v (ground (arith, on))) p,
)
  where
    here : contains (ids (w ∷ ws)) w.task_id ≡ true
    here = rw (beq_refl w.task_id)

pub Placed-ids :
    (ws : List Workload) (ts us : List Thread)
    → Placed ws ts us
    → map (λ (t : Thread). t.processor_id) us ≡ map (λ (t : Thread). t.processor_id) ts
Placed-ids [] ts us p = ap (map (λ (t : Thread). t.processor_id)) p
Placed-ids (w ∷ ws) ts us (mid, c, p) = Placed-ids ws mid us p ∙ Claims-ids c

claim-one : (w : String) (t : Thread) → IsEmpty t → length (claim t w).workload_ids ≤ 1
unfolding claim is_claimed
claim-one w t h = one t.workload_ids h
  where
    one : (xs : List String) → ltb 0 (length xs) ≡ false → length (distinct (xs ++ w ∷ [])) ≤ 1
    one [] e = omega arith
    one (x ∷ xs) e = ground arith

Claims-Exclusive :
    {w : String} {n : ℕ} {ts us : List Thread}
    → Claims w IsEmpty n ts us
    → Exclusive ts
    → Exclusive us
Claims-Exclusive (done e) x = tt
Claims-Exclusive (keep t c) x = (x.0, Claims-Exclusive c x.1)
Claims-Exclusive {w} (take t h e c) x = (claim-one w t h, Claims-Exclusive c x.1)

pub Placed-Exclusive :
    (ws : List Workload) (ts us : List Thread) → Placed ws ts us → Exclusive ts → Exclusive us
Placed-Exclusive [] ts us p x = subst Exclusive (sym p) x
Placed-Exclusive (w ∷ ws) ts us (mid, c, p) x = Placed-Exclusive ws mid us p (Claims-Exclusive c x)
