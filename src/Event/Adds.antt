-- ===== src/Event/Adds.antt =====
-- What the handler of container batches makes of the start events.
use titus_isolate.Prelude.{
  ◌+◌, ◌≡◌, inl, inr, String, ◌==◌, List, [], ◌∷◌, Option, none, some, length, string_eq,
  Bool-cases, Result, Result-cases, ok, arith,
}
use titus_isolate.Workload.{Workload}
use titus_isolate.Event.{Event, get_container_name}
use titus_isolate.Event.Handlers.{EventHandler, get_adds, ignored_event}

-- Where the workloads of a batch can be built, each of its start events is counted as ignored or gives a
-- workload to add.
get_adds-counts :
    (get_workload : String → Result (Option Workload)) (starts : List Event)
    (h after : EventHandler) (ws : List Workload)
    → get_adds get_workload starts h ≡ (ok ws, after)
    → after.ignored_event_count + length ws ≡ h.ignored_event_count + length starts
unfolding get_adds ignored_event
get_adds-counts get_workload [] h after ws e = ground (arith, e)
get_adds-counts get_workload (start ∷ starts) h after ws e =
    let skipped = get_adds-counts get_workload starts (ignored_event h) after ws in
    elim (Result-cases (get_container_name start)) [
      | inl (name, named) ↦ elim (Bool-cases (name == "")) [
        | inl empty ↦ ground (arith, e, named, empty, skipped)
        | inr full ↦ elim (Result-cases (get_workload name)) [
          | inl (none, none_built) ↦ ground (arith, e, named, full, none_built, skipped)
          | inl (some w, built) ↦ elim (Result-cases (get_adds get_workload starts h).0) [
            | inl (vs, rest) ↦ ground (
              arith,
              e,
              named,
              full,
              built,
              rest,
              get_adds-counts get_workload starts h (get_adds get_workload starts h).1 vs,
            )
            | inr (x, failed) ↦ absurd (ground (arith, e, named, full, built, failed))
          ]
          | inr (x, failed) ↦ absurd (ground (arith, e, named, full, failed))
        ]
      ]
      | inr (x, failed) ↦ absurd (ground (arith, e, failed))
    ]
