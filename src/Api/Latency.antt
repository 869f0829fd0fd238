-- ===== src/Api/Latency.antt =====
-- What the latency of an isolation is measured from.
use titus_isolate.Prelude.{
  ℕ, ◌≡◌, refl, sym, ap, ap₂, ◌∙◌, String, Bool, true, false, List, [], ◌∷◌, ◌++◌, Option, none,
  some, ◌==◌, string_eq, beq_refl, beq_ne, eq_cases, Bool-cases, inl, inr, if◌then◌else◌, Dict,
  lookup, keys, contains, lookup-insert_self, lookup-insert_ne, lookup-none,
}
use titus_isolate.Api.{Latencies, isolate_workload, from_start}

-- A call that finds a workload not isolated: its times, its id, whether there is a metrics manager.
pub record Poll : Type 0 where
  pub has_metrics_manager : Bool
  pub start_time : ℕ
  pub now : ℕ
  pub workload_id : String

abbrev pub poll : Poll → Latencies → Latencies
poll p s = (isolate_workload true false p.has_metrics_manager p.start_time p.now p.workload_id s).1

abbrev pub run_polls : List Poll → Latencies → Latencies
run_polls [] s = s
run_polls (p ∷ polls) s = run_polls polls (poll p s)

-- When a workload was first found not isolated.
abbrev pub first_poll : String → List Poll → Option ℕ
first_poll id [] = none
first_poll id (p ∷ polls) =
    let rest = first_poll id polls in if id == p.workload_id then some p.now else rest

abbrev pub or_else : Option ℕ → Option ℕ → Option ℕ
or_else none b = b
or_else (some t) b = some t

or_else-none : (o : Option ℕ) → or_else o none ≡ o
or_else-none none = refl
or_else-none (some t) = refl

abbrev latency : String → Latencies → Option ℕ
latency id s = lookup id s.isolate_latency

keys-lookup :
    (id : String) (d : Dict String ℕ)
    → contains (keys d) id ≡ true
    → (t : ℕ) × (lookup id d ≡ some t)
keys-lookup id [] h = absurd (cc)
keys-lookup id ((k, t) ∷ d) h = elim (Bool-cases (id == k)) [
  | inl same ↦ (t, rw same refl)
  | inr other ↦ let (u, e) = keys-lookup id d (rw other at h) in (u, rw other e)
]

poll-latency :
    (id : String) (p : Poll) (s : Latencies)
    → latency id (poll p s)
      ≡ or_else (latency id s) (if id == p.workload_id then some p.now else none)
unfolding isolate_workload
poll-latency id p s =
    let w = p.workload_id in
    let d = s.isolate_latency in
    elim (Bool-cases (contains (keys d) w)) [
      | inl known ↦ rw known (elim (eq_cases id w) [
        | inl same ↦ let (t, e) = keys-lookup w d known in rw (same, e) refl
        | inr other ↦ rw (beq_ne id w other) (sym (or_else-none (lookup id d)))
      ])
      | inr unknown ↦ rw unknown (elim (eq_cases id w) [
        | inl same ↦
            rw (same, lookup-insert_self w p.now d, lookup-none w d unknown, beq_refl w) refl
        | inr other ↦
            rw (beq_ne id w other, lookup-insert_ne id w p.now d other)
              (sym (or_else-none (lookup id d)))
      ])
    ]

or_else-choice :
    (o : Option ℕ) (b : Bool) (t : ℕ) (r : Option ℕ)
    → or_else (or_else o (if b then some t else none)) r ≡ or_else o (if b then some t else r)
or_else-choice none true t r = refl
or_else-choice none false t r = refl
or_else-choice (some u) b t r = refl

run_polls-recorded : (polls : List Poll) (s : Latencies) → (run_polls polls s).recorded ≡ s.recorded
unfolding isolate_workload
run_polls-recorded [] s = refl
run_polls-recorded (p ∷ polls) s =
    run_polls-recorded polls (poll p s)
    ∙ (elim (Bool-cases (contains (keys s.isolate_latency) p.workload_id)) [
      | inl known ↦ rw known refl
      | inr unknown ↦ rw unknown refl
    ])

run_polls-latency :
    (id : String) (polls : List Poll) (s : Latencies)
    → latency id (run_polls polls s) ≡ or_else (latency id s) (first_poll id polls)
run_polls-latency id [] s = sym (or_else-none (latency id s))
run_polls-latency id (p ∷ polls) s =
    run_polls-latency id polls (poll p s)
    ∙ (ap (λ o. or_else o (first_poll id polls)) (poll-latency id p s)
        ∙ or_else-choice (latency id s) (id == p.workload_id) p.now (first_poll id polls))

-- After any calls that found workloads not isolated, where the API knew no time for a workload before: the
-- call that finds it isolated answers 200, and with a metrics manager it records the duration from the
-- time at which the workload was first found not isolated, or, if it never was, from its own start.
pub isolate_workload-latency :
    (polls : List Poll) (id : String) (start_time stop_time : ℕ) (s : Latencies)
    → lookup id s.isolate_latency ≡ none
    → let (answer, after) =
        isolate_workload true true true start_time stop_time id (run_polls polls s) in
      (answer.code ≡ 200)
      × (after.recorded
          ≡ s.recorded ++ (from_start (first_poll id polls) start_time, stop_time) ∷ [])
unfolding isolate_workload
isolate_workload-latency polls id start_time stop_time s h =
    let e = run_polls-latency id polls s ∙ ap (λ o. or_else o (first_poll id polls)) h in
    (
      refl,
      ap₂ (λ r o. r ++ (from_start o start_time, stop_time) ∷ []) (run_polls-recorded polls s) e,
    )
