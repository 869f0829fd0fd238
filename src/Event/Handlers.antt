-- ===== src/Event/Handlers.antt =====
-- titus_isolate/event/event_handler.py, container_batch_event_handler.py and rebalance_event_handler.py.
-- The construction of a workload from its container's files is a parameter.
use titus_isolate.Prelude.{
  ℕ, suc, String, true, false, List, [], ◌∷◌, Option, none, some, ◌==◌, string_eq, Result, ok,
  raise, ◌>>=◌,
}
use titus_isolate.Workload.{Workload}
use titus_isolate.Manager.{Parts, WorkloadManager, isolate}
use titus_isolate.Event.{Event, get_container_name}
use titus_isolate.Event.Queue.{Task, container_batch, internal}

pub record EventHandler : Type 0 where
  pub ignored_event_count : ℕ
  pub handled_event_count : ℕ

unfoldable pub ignored_event : EventHandler → EventHandler
ignored_event h = record h { ignored_event_count = suc h.ignored_event_count }

unfoldable pub handled_event : EventHandler → EventHandler
handled_event h = record h { handled_event_count = suc h.handled_event_count }

module _ (get_workload : String → Result (Option Workload)) where
  -- The loop over the start events: the workloads to add.
  unfoldable pub get_adds : List Event → EventHandler → Result (List Workload) × EventHandler
  unfolding get_container_name ignored_event
  get_adds [] h = (ok [], h)
  get_adds (start ∷ starts) h =
      let skipped = get_adds starts (ignored_event h) in
      let (rest, after) = get_adds starts h in
      elim (get_container_name start) [
        | raise e ↦ (raise e, h)
        | ok name ↦ elim (name == "") [
          | true ↦ skipped
          | false ↦ elim (get_workload name) [
            | raise e ↦ (raise e, h)
            | ok none ↦ skipped
            | ok (some w) ↦ (do ws ← rest; ok (w ∷ ws), after)
          ]
        ]
      ]

  -- The loop over the die events.
  unfoldable pub get_removes : List Event → Result (List String)
  unfolding get_container_name
  get_removes [] = ok []
  get_removes (die ∷ dies) = do
    workload_id ← get_container_name die
    rest ← get_removes dies
    ok (workload_id ∷ rest)

  module _ (parts : Parts) where
    -- `ContainerBatchEventHandler.handle(event)`
    unfoldable pub handle_container_batch :
        Task
        → EventHandler × WorkloadManager parts
        → Result (Unit {0}) × EventHandler × WorkloadManager parts
    unfolding get_adds get_removes ignored_event handled_event
    handle_container_batch (internal e) (h, m) = (ok tt, ignored_event h, m)
    handle_container_batch (container_batch starts dies) (h, m) =
        let (adds, counted) = get_adds starts h in
        elim adds [
          | raise e ↦ (raise e, counted, m)
          | ok ws ↦ elim (get_removes dies) [
            | raise e ↦ (raise e, counted, m)
            | ok ids ↦ (ok tt, handled_event counted, (isolate parts ws ids m).1)
          ]
        ]

module _ (parts : Parts) where
  -- `RebalanceEventHandler.handle(event)`
  unfoldable pub handle_rebalance :
      Task
      → EventHandler × WorkloadManager parts
      → Result (Unit {0}) × EventHandler × WorkloadManager parts
  unfolding ignored_event handled_event
  handle_rebalance (container_batch starts dies) (h, m) = (ok tt, ignored_event h, m)
  handle_rebalance (internal e) (h, m) = elim (e.action == "rebalance") [
    | false ↦ (ok tt, ignored_event h, m)
    | true ↦ (ok tt, handled_event h, (isolate parts [] [] m).1)
  ]
