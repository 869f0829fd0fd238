-- ===== src/Event/Batches.antt =====
-- No event is lost between the queue and the handlers.
use titus_isolate.Prelude.{
  ℕ, suc, ◌+◌, ◌≡◌, refl, sym, ap, ◌∙◌, subst, inl, inr, String, true, false, ◌==◌, List, [], ◌∷◌,
  ◌++◌, map, if◌then◌else◌, ltb, length, keep_if, concat_map, sum_by, sum_by-append, contains, All,
  All-append, eq_cases, string_eq, beq_ne, Bool-cases, Result-cases, ok, arith,
}
use titus_isolate.Event.{Event, is_container, is_internal, handled_actions, should_handle}
use titus_isolate.Event.Queue.{
  put_event, get_batch, dequeue_event, dequeue_more, Task, container_batch, internal, has_action,
  get_tasks, get_container_batch_event, Handler, Outcomes, handle_all, process_tasks, process_batch,
}

abbrev pub IsHandled : Event → Type 0
IsHandled e = contains handled_actions e.action ≡ true

pub should_handle-true : (e : Event) → should_handle e ≡ ok true → IsHandled e
unfolding should_handle
should_handle-true e h = elim (Bool-cases (contains handled_actions e.action)) [
  | inl known ↦ known
  | inr unknown ↦ absurd (ground (arith, unknown, h))
]

-- Where the queue has only events with a handled action, it has only such events after put_event.
put_event-IsHandled :
    (e : Event) (q after : List Event)
    → All IsHandled q
    → put_event e q ≡ ok after
    → All IsHandled after
unfolding put_event
put_event-IsHandled e q after h done = elim (Result-cases (should_handle e)) [
  | inl (true, taken) ↦
      let put : q ++ e ∷ [] ≡ after = ground (arith, taken, done) in
      subst (All IsHandled) put (All-append IsHandled q (e ∷ []) h (should_handle-true e taken, tt))
  | inl (false, left) ↦
      let same : q ≡ after = ground (arith, left, done) in subst (All IsHandled) same h
  | inr (x, failed) ↦ absurd (ground (arith, failed, done))
]

pub dequeue_more-all : (q : List Event) → dequeue_more (length q) q ≡ (q, [])
unfolding dequeue_more
dequeue_more-all [] = refl
dequeue_more-all (e ∷ q) = rw (dequeue_more-all q)

-- A batch from a queue that is not empty is the whole queue, in order, with what arrived while its first
-- event was taken.
pub get_batch-all :
    (e : Event) (q arrived : List Event) → get_batch (e ∷ q) arrived ≡ (e ∷ (q ++ arrived), [])
unfolding get_batch dequeue_event
get_batch-all e q arrived = rw (dequeue_more-all (q ++ arrived))

abbrev pub events_of : Task → List Event
events_of (container_batch starts dies) = starts ++ dies
events_of (internal e) = e ∷ []

-- What an event adds to the three lists that a batch is divided into.
abbrev shares : String → ℕ → ℕ
shares a n =
    let container = contains ("start" ∷ "die" ∷ []) a in
    (if container then (if a == "start" then n else 0) + (if a == "die" then n else 0) else 0)
    + (if contains ("rebalance" ∷ "reconcile" ∷ "predict_usage" ∷ []) a then n else 0)

shares-once : (a : String) (n : ℕ) → contains handled_actions a ≡ true → shares a n ≡ n
shares-once a n h = elim (eq_cases a "start") [
  | inl p ↦ subst (λ s. shares s n ≡ n) (sym p) (omega arith)
  | inr not_start ↦ elim (eq_cases a "die") [
    | inl p ↦ subst (λ s. shares s n ≡ n) (sym p) (omega arith)
    | inr not_die ↦ ground (arith, beq_ne a "start" not_start, beq_ne a "die" not_die, h)
  ]
]

divided :
    (f : Event → ℕ) (batch : List Event)
    → All IsHandled batch
    → sum_by f (keep_if (has_action "start") (keep_if is_container batch))
        + sum_by f (keep_if (has_action "die") (keep_if is_container batch))
        + sum_by f (keep_if is_internal batch)
      ≡ sum_by f batch
divided f [] h = refl
divided f (e ∷ batch) h = ground (arith, divided f batch h.1, shares-once e.action (f e) h.0)

tasks_lem :
    (f : Event → ℕ) (batch : List Event)
    → sum_by f (concat_map events_of (get_tasks batch))
      ≡ sum_by f (keep_if (has_action "start") (keep_if is_container batch))
        + sum_by f (keep_if (has_action "die") (keep_if is_container batch))
        + sum_by f (keep_if is_internal batch)
unfolding get_tasks get_container_batch_event
tasks_lem f batch = go (keep_if is_container batch) (keep_if is_internal batch)
  where
    internals : (es : List Event) → sum_by f (concat_map events_of (map internal es)) ≡ sum_by f es
    internals [] = refl
    internals (e ∷ es) = omega (arith, internals es)

    go :
        (cs es : List Event)
        → sum_by f (
            concat_map events_of (
              if ltb 0 (length cs)
              then container_batch (keep_if (has_action "start") cs) (keep_if (has_action "die") cs)
                ∷ map internal es
              else map internal es))
          ≡ sum_by f (keep_if (has_action "start") cs)
            + sum_by f (keep_if (has_action "die") cs)
            + sum_by f es
    go [] es = omega (arith, internals es)
    go (c ∷ cs) es =
        let starts = keep_if (has_action "start") (c ∷ cs) in
        let dies = keep_if (has_action "die") (c ∷ cs) in
        let some_container : ltb 0 (length (c ∷ cs)) ≡ true = ground arith in
        rw some_container (
          omega (
            arith,
            sum_by-append f (starts ++ dies) (concat_map events_of (map internal es)),
            sum_by-append f starts dies,
            internals es,
          ))

-- The events of a batch with handled actions are divided over the tasks: each is given to the handlers
-- in one task, once, as every measure of events tells.
pub get_tasks-events :
    (f : Event → ℕ) (batch : List Event)
    → All IsHandled batch
    → sum_by f (concat_map events_of (get_tasks batch)) ≡ sum_by f batch
get_tasks-events f batch h = tasks_lem f batch ∙ divided f batch h

kinds-once :
    (e : Event)
    → IsHandled e
    → (if is_internal e then 1 else 0) + (if is_container e then 1 else 0) ≡ 1
kinds-once e h = elim (eq_cases e.action "start") [
  | inl p ↦ once p refl
  | inr not_start ↦ elim (eq_cases e.action "die") [
    | inl p ↦ once p refl
    | inr not_die ↦
        ground (arith, beq_ne e.action "start" not_start, beq_ne e.action "die" not_die, h)
  ]
]
  where
    kinds : String → ℕ
    kinds a =
        (if contains ("rebalance" ∷ "reconcile" ∷ "predict_usage" ∷ []) a then 1 else 0)
        + (if contains ("start" ∷ "die" ∷ []) a then 1 else 0)

    once : {a : String} → e.action ≡ a → kinds a ≡ 1 → kinds e.action ≡ 1
    once p one = ap kinds p ∙ one

kinds_length :
    (batch : List Event)
    → All IsHandled batch
    → length (keep_if is_internal batch) + length (keep_if is_container batch) ≡ length batch
kinds_length [] h = omega arith
kinds_length (e ∷ batch) h = ground (arith, kinds_length batch h.1, kinds-once e h.0)

module _ {State : Type 0} (handlers : List (Handler State)) where
  handle_all-tried :
      (hs : List (Handler State)) (task : Task) (o : Outcomes) (s : State)
      → let after = (handle_all hs task (o, s)).0 in
        after.succeeded + after.failed ≡ o.succeeded + o.failed + length hs
  unfolding handle_all
  handle_all-tried [] task o s = omega arith
  handle_all-tried (handler ∷ hs) task o s = elim (Result-cases (handler task s).0) [
    | inl (_, e) ↦
        let count = record o { succeeded = suc o.succeeded } in
        rw (handle_all, e) (omega (arith, handle_all-tried hs task count (handler task s).1))
    | inr (x, e) ↦
        let count = record o { failed = suc o.failed } in
        rw (handle_all, e) (omega (arith, handle_all-tried hs task count (handler task s).1))
  ]

  process_tasks-tried :
      (tasks : List Task) (o : Outcomes) (s : State)
      → let after = (process_tasks handlers tasks (o, s)).0 in
        after.succeeded + after.failed
        ≡ o.succeeded + o.failed + sum_by (λ (_ : Task). length handlers) tasks
  unfolding process_tasks
  process_tasks-tried [] o s = omega arith
  process_tasks-tried (task ∷ tasks) o s =
      let (o1, s1) = handle_all handlers task (o, s) in
      omega (arith, process_tasks-tried tasks o1 s1, handle_all-tried handlers task o s)

  -- For a batch of events with handled actions, a round counts one success or failure for each
  -- task of the batch and each handler, whatever the handlers raise, and counts each event of
  -- the batch as processed.
  pub process_batch-counts :
      (batch : List Event) (processed_count : ℕ) (o : Outcomes) (s : State)
      → All IsHandled batch
      → let (processed, after, _) = process_batch handlers batch processed_count (o, s) in
        (after.succeeded + after.failed
          ≡ o.succeeded + o.failed + sum_by (λ (_ : Task). length handlers) (get_tasks batch))
        × (processed ≡ processed_count + length batch)
  unfolding process_batch
  process_batch-counts batch processed_count o s h =
      (process_tasks-tried (get_tasks batch) o s, omega (arith, kinds_length batch h))
