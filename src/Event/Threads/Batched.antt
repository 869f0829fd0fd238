-- ===== src/Event/Threads/Batched.antt =====
-- The history of an event manager's queue, and the steps that add to it.
use titus_isolate.Prelude.{
  ℕ, ◌≡◌, refl, sym, ap, ap₂, ◌∙◌, true, false, List, [], ◌∷◌, ◌++◌, Option, none, some, concat_map,
  Error, ◌⊎◌, ok, raise, Result-cases, Bool-cases, inl, inr, arith,
}
use mathlib.Core.List.{append_assoc, append-nil}
use titus_isolate.Event.{Event, should_handle}
use titus_isolate.Event.Queue.{put_event, dequeue_event, Handler, Outcomes, process_batch}
use titus_isolate.Event.Batches.{dequeue_more-all}
use titus_isolate.Event.Threads.{
  Processing, not_started, checking, getting, ended, holding, handling, EventManager, put,
  pull_next, process_from, accepted, accepted_next,
}

-- The events that were taken off the queue and are not processed yet.
abbrev pub in_hand : Processing → List Event
in_hand not_started = []
in_hand checking = []
in_hand getting = []
in_hand ended = []
in_hand (holding e) = e ∷ []
in_hand (handling batch) = batch

abbrev pub all_of : List (List Event) → List Event
all_of batches = concat_map (λ (b : List Event). b) batches

all_of-append :
    (batches : List (List Event)) (b : List Event)
    → all_of (batches ++ b ∷ []) ≡ all_of batches ++ b
all_of-append [] b = append-nil b
all_of-append (c ∷ batches) b =
    ap (λ es. c ++ es) (all_of-append batches b) ∙ sym (append_assoc c (all_of batches) b)

module _ {State : Type 0} (handlers : List (Handler State)) where
  -- Batches that are processed one after the other, without threads.
  abbrev pub process_all : List (List Event) → ℕ × Outcomes × State → ℕ × Outcomes × State
  process_all [] x = x
  process_all (b ∷ batches) (n, o, s) = process_all batches (process_batch handlers b n (o, s))

  process_all-append :
      (batches : List (List Event)) (b : List Event) (x y : ℕ × Outcomes × State)
      → process_all batches x ≡ y
      → process_all (batches ++ b ∷ []) x ≡ process_batch handlers b y.0 (y.1, y.2)
  process_all-append [] b x y e =
      ap (λ (z : ℕ × Outcomes × State). process_batch handlers b z.0 (z.1, z.2)) e
  process_all-append (c ∷ batches) b (n, o, s) y e =
      process_all-append batches b (process_batch handlers c n (o, s)) y e

  abbrev pub progress : EventManager State → ℕ × Outcomes × State
  progress m = (m.processed_count, m.outcomes, m.shared)

  -- The queue's history: what was put is in finished batches, in hand, or in the queue, in order.
  abbrev pub IsBatched : ℕ × Outcomes × State → List Event → EventManager State → Type 0
  IsBatched from given m =
      (batches : List (List Event)) × (given ≡ all_of batches ++ (in_hand m.processing ++ m.q))
      × (process_all batches from ≡ progress m)

  put_event-accepted :
      (e : Event) (q after : List Event) → put_event e q ≡ ok after → after ≡ q ++ accepted e
  unfolding put_event
  put_event-accepted e q after h = elim (Result-cases (should_handle e)) [
    | inl (true, known) ↦ ground (arith, known, h)
    | inl (false, known) ↦ ground (arith, known, h, append-nil q)
    | inr (x, known) ↦ absurd (ground (arith, known, h))
  ]

  put_event-cases :
      (e : Event) (q : List Event)
      → (put_event e q ≡ ok (q ++ accepted e))
        ⊎ ((x : Error) × (put_event e q ≡ raise x) × (accepted e ≡ []))
  unfolding put_event
  put_event-cases e q = elim (Result-cases (should_handle e)) [
    | inl (true, known) ↦ inl (ground (arith, known))
    | inl (false, known) ↦ inl (ground (arith, known, append-nil q))
    | inr (x, known) ↦ inr (x, ground (arith, known), ground (arith, known))
  ]

  -- More at the end of the queue.
  put_more :
      (from : ℕ × Outcomes × State) (given es : List Event) (m n : EventManager State)
      → n.processing ≡ m.processing
      → n.q ≡ m.q ++ es
      → progress n ≡ progress m
      → IsBatched from given m
      → IsBatched from (given ++ es) n
  put_more from given es m n same_place longer same (batches, e, p) = (
    batches,
    rw (same_place, longer)
        (ap (λ u. u ++ es) e
          ∙ (append_assoc (all_of batches) (in_hand m.processing ++ m.q) es
              ∙ ap (λ u. all_of batches ++ u) (append_assoc (in_hand m.processing) m.q es))),
    p ∙ sym same,
  )

  pub no_more :
      (from : ℕ × Outcomes × State) (given es : List Event) (m n : EventManager State)
      → es ≡ []
      → in_hand n.processing ++ n.q ≡ in_hand m.processing ++ m.q
      → progress n ≡ progress m
      → IsBatched from given m
      → IsBatched from (given ++ es) n
  no_more from given es m n nothing same_events same (batches, e, p) = (
    batches,
    rw (nothing, append-nil given) (e ∙ ap (λ u. all_of batches ++ u) (sym same_events)),
    p ∙ sym same,
  )

  pub put-IsBatched :
      (from : ℕ × Outcomes × State) (given : List Event) (e : Event)
      (m failed left : EventManager State)
      → (failed.processing ≡ m.processing) × (failed.q ≡ m.q) × (progress failed ≡ progress m)
      → (left.processing ≡ m.processing) × (left.q ≡ m.q) × (progress left ≡ progress m)
      → IsBatched from given m
      → IsBatched from (given ++ accepted e) (put (put_event e m.q) failed left)
  put-IsBatched from given e m failed left (f1, f2, f3) (l1, l2, l3) b =
      elim (put_event-cases e m.q) [
        | inl took ↦ rw took (
            put_more from given (accepted e) m (record left { q = m.q ++ accepted e }) l1 refl l3 b)
        | inr (x, raised, nothing) ↦ rw raised (
            no_more from given (accepted e) m failed nothing (ap₂ (λ p q. in_hand p ++ q) f1 f2) f3
              b)
      ]

  pub pull_next-IsBatched :
      (from : ℕ × Outcomes × State) (given : List Event) (incoming : List (Option Event))
      (m : EventManager State)
      → IsBatched from given m
      → IsBatched from (given ++ accepted_next incoming) (pull_next incoming m)
  unfolding pull_next
  pull_next-IsBatched from given [] m h =
      no_more from given [] m (record m { pulling = false }) refl refl refl h
  pull_next-IsBatched from given (none ∷ incoming) m h =
      no_more from given [] m (record m { pulling = false; incoming = incoming }) refl refl refl h
  pull_next-IsBatched from given (some e ∷ incoming) m h =
      put-IsBatched from given e m _ _ (refl, refl, refl) (refl, refl, refl) h

  pub process-IsBatched :
      (from : ℕ × Outcomes × State) (given : List Event) (p : Processing) (m : EventManager State)
      → m.registry ≡ true
      → m.processing ≡ p
      → IsBatched from given m
      → IsBatched from given (process_from handlers p m)
  unfolding process_from
  process-IsBatched from given not_started m registered at h = h
  process-IsBatched from given checking m registered at (batches, e, p) =
      elim (Bool-cases m.stopped) [
        | inl stop ↦ rw stop (batches, rw at at e, p)
        | inr go_on ↦ rw go_on (batches, rw at at e, p)
      ]
  process-IsBatched from given getting m registered at (batches, e, p) = first m.q refl
    where
      first :
          (q : List Event)
          → m.q ≡ q
          → let (first, rest) = dequeue_event q in
            IsBatched from given (elim first [
              | none ↦ record m { processing = checking }
              | some e ↦ record m { processing = holding e; q = rest }
            ])
      first [] is_q = (batches, rw at at e, p)
      first (e1 ∷ q) is_q = (batches, rw at at (rw is_q at e), p)
  process-IsBatched from given (holding e1) m registered at (batches, e, p) =
      rw (dequeue_more-all m.q)
        (batches, rw at at e ∙ ap (λ u. all_of batches ++ e1 ∷ u) (sym (append-nil m.q)), p)
  process-IsBatched from given (handling batch) m registered at (batches, e, p) = rw registered (
    batches ++ batch ∷ [],
    rw at at e
        ∙ (sym (append_assoc (all_of batches) batch m.q)
            ∙ ap (λ u. u ++ m.q) (sym (all_of-append batches batch))),
    process_all-append batches batch from (progress m) p,
  )
  process-IsBatched from given ended m registered at h = h
