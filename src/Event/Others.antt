-- ===== src/Event/Others.antt =====
-- titus_isolate/event/reconcile_event_handler.py and predict_usage_event_handler.py. The publisher is a parameter.
use titus_isolate.Prelude.{
  ℕ, suc, ◌+◌, ◌≡◌, String, Bool, true, false, List, ◌==◌, string_eq, if◌then◌else◌, Result, ok,
  raise, Bool-cases, inl, inr, arith,
}
use titus_isolate.Processor.Cpu.{Cpu}
use titus_isolate.Isolate.Reconciler.{Reconciler, reconcile}
use titus_isolate.Event.Queue.{Task, container_batch, internal}
use titus_isolate.Event.Handlers.{EventHandler, ignored_event, handled_event}

abbrev pub has_action : String → Task → Bool
has_action action (container_batch starts dies) = false
has_action action (internal e) = e.action == action

module _ {Cgroups Handler : Type 0} (has_pending_work : Cgroups → Bool)
    (get_cpuset : String → Cgroups → Result (List ℕ))
    (exit : ℕ → Handler → Result (Unit {0}) × Handler) where
  -- `ReconcileEventHandler.handle(event)`, for the CPU of the workload manager.
  unfoldable pub handle_reconcile :
      Task
      → Cpu
      → Cgroups
      → EventHandler × Handler × Reconciler
      → Result (Unit {0}) × EventHandler × Handler × Reconciler
  unfolding reconcile ignored_event handled_event
  handle_reconcile event cpu cgroups (h, handler, r) = elim (has_action "reconcile" event) [
    | false ↦ (ok tt, ignored_event h, handler, r)
    | true ↦
        let (result, after, reconciler) =
          reconcile has_pending_work get_cpuset exit cpu cgroups handler r in
        elim result [
          | raise e ↦ (raise e, h, after, reconciler)
          | ok _ ↦ (ok tt, handled_event h, after, reconciler)
        ]
  ]

module _ {Publisher : Type 0} (publish : Publisher → Result (Unit {0}) × Publisher) where
  pub record PredictionHandler : Type 0 where
    pub handler : EventHandler
    pub publish_success_count : ℕ
    pub publish_failure_count : ℕ
    pub publisher : Publisher

  abbrev published : Result (Unit {0}) → PredictionHandler → PredictionHandler
  published (ok _) s = record s { publish_success_count = suc s.publish_success_count }
  published (raise e) s = record s { publish_failure_count = suc s.publish_failure_count }

  -- `_handle(event)`, in a thread of its own: `__relevant` counts an event that is not relevant as
  -- ignored, and so does its caller.
  unfoldable pub handle_prediction : Task → PredictionHandler → PredictionHandler
  unfolding ignored_event
  handle_prediction event s = elim (has_action "predict_usage" event) [
    | false ↦ record s { handler = ignored_event (ignored_event s.handler) }
    | true ↦
        let (result, publisher) = publish s.publisher in
        published result (record s { publisher = publisher })
  ]

  -- An event is published, or counted as a failure, or ignored; one that is ignored counts twice.
  pub handle_prediction-counts :
      (event : Task) (s : PredictionHandler)
      → let after = handle_prediction event s in
        (after.publish_success_count + after.publish_failure_count
          ≡ s.publish_success_count
            + s.publish_failure_count
            + (if has_action "predict_usage" event then 1 else 0))
        × (after.handler.ignored_event_count
            ≡ s.handler.ignored_event_count + (if has_action "predict_usage" event then 0 else 2))
  unfolding handle_prediction ignored_event
  handle_prediction-counts event s = elim (Bool-cases (has_action "predict_usage" event)) [
    | inl relevant ↦
        rw (handle_prediction, relevant)
          (sent (publish s.publisher).0 (record s { publisher = (publish s.publisher).1 }))
    | inr other ↦ rw (handle_prediction, other) (omega arith, omega arith)
  ]
    where
      sent :
          (r : Result (Unit {0})) (t : PredictionHandler)
          → ((published r t).publish_success_count + (published r t).publish_failure_count
              ≡ t.publish_success_count + t.publish_failure_count + 1)
            × ((published r t).handler.ignored_event_count ≡ t.handler.ignored_event_count + 0)
      sent (ok u) t = (omega arith, omega arith)
      sent (raise e) t = (omega arith, omega arith)
