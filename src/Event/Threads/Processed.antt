-- ===== src/Event/Threads/Processed.antt =====
-- The threads of an event manager do what batches, one after the other, do.
use titus_isolate.Prelude.{
  ℕ, ◌+◌, ◌≡◌, refl, sym, ap, ◌∙◌, subst, Bool, true, false, List, [], ◌∷◌, ◌++◌, Option, none,
  some, if◌then◌else◌, length, length-append, All, All-append, Result-cases, inl, inr, arith,
}
use titus_isolate.Event.{Event, should_handle}
use titus_isolate.Event.Queue.{Handler, Outcomes, process_batch}
use titus_isolate.Event.Batches.{IsHandled, should_handle-true, process_batch-counts}
use titus_isolate.Event.Threads.{
  EventManager, new_event_manager, set_registry, accepted, accepted_next, Step, registry_step,
  start_step, stop_step, tick_step, pull_step, process_step, Run, begin, next,
}
use titus_isolate.Event.Threads.Batched.{in_hand, all_of, process_all, progress}
use titus_isolate.Event.Threads.Kept.{Run-IsBatched}

module _ {State : Type 0} (handlers : List (Handler State)) where
  accepted-IsHandled : (e : Event) → All IsHandled (accepted e)
  accepted-IsHandled e = elim (Result-cases (should_handle e)) [
    | inl (true, known) ↦ rw known (should_handle-true e known, tt)
    | inl (false, known) ↦ rw known tt
    | inr (x, known) ↦ rw known tt
  ]

  Step-IsHandled :
      {es : List Event} {m n : EventManager State} → Step handlers es m n → All IsHandled es
  Step-IsHandled (registry_step m) = tt
  Step-IsHandled (start_step m) = tt
  Step-IsHandled (stop_step m) = tt
  Step-IsHandled (tick_step e m) = accepted-IsHandled e
  Step-IsHandled (pull_step m) = alive m.pulling m.incoming
    where
      alive :
          (b : Bool) (incoming : List (Option Event))
          → All IsHandled (if b then accepted_next incoming else [])
      alive true [] = tt
      alive true (none ∷ incoming) = tt
      alive true (some e ∷ incoming) = accepted-IsHandled e
      alive false incoming = tt
  Step-IsHandled (process_step m) = tt

  Run-IsHandled :
      {m0 : EventManager State} {given : List Event} {m : EventManager State}
      → Run handlers m0 given m
      → All IsHandled given
  Run-IsHandled begin = tt
  Run-IsHandled (next {before} {es} run s is_after) =
      subst (All IsHandled) (sym is_after)
        (All-append IsHandled before es (Run-IsHandled run) (Step-IsHandled s))

  All-left : (xs ys : List Event) → All IsHandled (xs ++ ys) → All IsHandled xs × All IsHandled ys
  All-left [] ys h = (tt, h)
  All-left (x ∷ xs) ys h = let (a, b) = All-left xs ys h.1 in ((h.0, a), b)

  process_all-count :
      (batches : List (List Event)) (n : ℕ) (o : Outcomes) (s : State)
      → All IsHandled (all_of batches)
      → (process_all handlers batches (n, o, s)).0 ≡ n + length (all_of batches)
  process_all-count [] n o s h = omega arith
  process_all-count (b ∷ batches) n o s h =
      let (here, rest) = All-left b (all_of batches) h in
      let (n1, o1, s1) = process_batch handlers b n (o, s) in
      omega (
        arith,
        process_all-count batches n1 o1 s1 rest,
        (process_batch-counts handlers b n o s here).1,
        length-append b (all_of batches),
      )

  -- In every run of an event manager with a registry, whatever the order of its threads, its callers and
  -- the scheduler: all events that were put into the queue are, in order, those of the batches that
  -- are processed, those in hand and those in the queue. What the manager counted and what the handlers
  -- made of their state are as if the batches had been processed one after the other, and as many
  -- events are counted as processed as the batches have.
  pub Run-batches :
      (incoming : List (Option Event)) (shared : State) {given : List Event}
      {m : EventManager State}
      → Run handlers (set_registry (new_event_manager incoming shared)) given m
      → (batches : List (List Event)) × (given ≡ all_of batches ++ (in_hand m.processing ++ m.q))
        × (process_all handlers batches (0, record { succeeded = 0; failed = 0 }, shared)
            ≡ progress handlers m)
        × (m.processed_count ≡ length (all_of batches))
  unfolding set_registry new_event_manager
  Run-batches incoming shared {given} {m} run =
      let (_, _, (batches, e, p)) = Run-IsBatched handlers run refl (λ _. refl) ([], refl, refl) in
      let (handled, _) =
        All-left (all_of batches) (in_hand m.processing ++ m.q)
          (subst (All IsHandled) e (Run-IsHandled run)) in
      let count =
        process_all-count batches 0 (record { succeeded = 0; failed = 0 }) shared handled in
      (batches, e, p, ap (λ (x : ℕ × Outcomes × State). x.0) (sym p) ∙ (count ∙ omega arith))
