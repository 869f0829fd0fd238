-- ===== src/Event/Threads/Kept.antt =====
-- Every step of an event manager keeps the history of its queue.
use titus_isolate.Prelude.{
  ℕ, ◌≡◌, refl, sym, ap, ◌∙◌, subst, Bool, true, false, List, [], ◌∷◌, ◌++◌, Option, none, some,
  if◌then◌else◌, Result, ok, raise, arith,
}
use mathlib.Core.List.{append-nil}
use titus_isolate.Event.{Event}
use titus_isolate.Event.Queue.{put_event, dequeue_event, Handler, Outcomes}
use titus_isolate.Event.Threads.{
  Processing, not_started, checking, getting, ended, holding, handling, EventManager, set_registry,
  start_processing_events, stop_processing_events, put, tick, pull_next, pull, process_from,
  process, accepted_next, Step, registry_step, start_step, stop_step, tick_step, pull_step,
  process_step, Run, begin, next,
}
use titus_isolate.Event.Threads.Batched.{
  in_hand, progress, IsBatched, no_more, put-IsBatched, pull_next-IsBatched, process-IsBatched,
}

module _ {State : Type 0} (handlers : List (Handler State)) where
  registered-still :
      {es : List Event} {m n : EventManager State}
      → Step handlers es m n
      → m.registry ≡ true
      → n.registry ≡ true
  unfolding set_registry start_processing_events stop_processing_events tick pull pull_next process
      process_from dequeue_event
  registered-still (registry_step m) h = refl
  registered-still (start_step m) h = ground (arith, h)
  registered-still (stop_step m) h = h
  registered-still (tick_step e m) h = ground (arith, h)
  registered-still (pull_step m) h = go m.incoming
    where
      go :
          (incoming : List (Option Event))
          → (if m.pulling then pull_next incoming m else m).registry ≡ true
      go [] = ground (arith, h)
      go (none ∷ incoming) = ground (arith, h)
      go (some e ∷ incoming) = ground (arith, h)
  registered-still (process_step m) h = go m.processing
    where
      first :
          (q : List Event) → (process_from handlers getting (record m { q = q })).registry ≡ true
      first [] = h
      first (e ∷ q) = h

      go : (p : Processing) → (process_from handlers p m).registry ≡ true
      go not_started = h
      go checking = ground (arith, h)
      go getting = first m.q
      go (holding e) = h
      go (handling batch) = ground (arith, h)
      go ended = h

  Step-IsBatched :
      {es : List Event} {m n : EventManager State} (from : ℕ × Outcomes × State)
      (given : List Event)
      → Step handlers es m n
      → m.registry ≡ true
      → (m.started ≡ false → m.processing ≡ not_started)
      → IsBatched handlers from given m
      → IsBatched handlers from (given ++ es) n
  unfolding set_registry start_processing_events stop_processing_events tick pull process
  Step-IsBatched from given (registry_step m) h fresh b =
      no_more handlers from given [] m (set_registry m) refl refl refl b
  Step-IsBatched from given (start_step m) h fresh b = go m.started fresh
    where
      go :
          (started : Bool)
          → (started ≡ false → m.processing ≡ not_started)
          → IsBatched handlers from (given ++ []) (
              if started
              then m
              else record m { processing = checking; pulling = true; started = true })
      go true f = no_more handlers from given [] m m refl refl refl b
      go false f =
          no_more handlers from given [] m
            (record m { processing = checking; pulling = true; started = true }) refl
            (ap (λ p. in_hand p ++ m.q) (sym (f refl))) refl b
  Step-IsBatched from given (stop_step m) h fresh b =
      no_more handlers from given [] m (stop_processing_events m) refl refl refl b
  Step-IsBatched from given (tick_step e m) h fresh b =
      put-IsBatched handlers from given e m m m (refl, refl, refl) (refl, refl, refl) b
  Step-IsBatched from given (pull_step m) h fresh b = go m.pulling
    where
      go :
          (alive : Bool)
          → IsBatched handlers from
              (given ++ (if alive then accepted_next m.incoming else []))
              (if alive then pull_next m.incoming m else m)
      go true = pull_next-IsBatched handlers from given m.incoming m b
      go false = no_more handlers from given [] m m refl refl refl b
  Step-IsBatched from given (process_step m) h fresh b =
      subst (λ es. IsBatched handlers from es (process_from handlers m.processing m))
        (sym (append-nil given)) (process-IsBatched handlers from given m.processing m h refl b)

  -- Until the threads are started, the processing thread does nothing.
  abbrev Waits : EventManager State → Type 0
  Waits m = m.started ≡ false → m.processing ≡ not_started

  Step-Waits :
      {es : List Event} {m n : EventManager State} → Step handlers es m n → Waits m → Waits n
  unfolding set_registry start_processing_events stop_processing_events tick pull pull_next process
      process_from dequeue_event
  Step-Waits (registry_step m) h = h
  Step-Waits (start_step m) h = go m.started h
    where
      go :
          (started : Bool)
          → (started ≡ false → m.processing ≡ not_started)
          → Waits (
              if started
              then m
              else record m { processing = checking; pulling = true; started = true })
      go true f = h
      go false f = λ e. cc
  Step-Waits (stop_step m) h = h
  Step-Waits (tick_step e m) h = go (put_event e m.q)
    where
      go : (r : Result (List Event)) → Waits (put r m m)
      go (raise x) = h
      go (ok q) = h
  Step-Waits (pull_step m) h = alive m.pulling
    where
      go_put :
          (left : EventManager State)
          → Waits left
          → (r : Result (List Event)) → Waits (put r (record left { pulling = false }) left)
      go_put left w (raise x) = w
      go_put left w (ok q) = w

      go : (incoming : List (Option Event)) → Waits (pull_next incoming m)
      go [] = h
      go (none ∷ incoming) = h
      go (some e ∷ incoming) = go_put (record m { incoming = incoming }) h (put_event e m.q)

      alive : (b : Bool) → Waits (if b then pull_next m.incoming m else m)
      alive true = go m.incoming
      alive false = h
  Step-Waits (process_step m) h = λ not_yet.
      subst (λ p. (process_from handlers p m).processing ≡ not_started)
        (sym (h (begun m.processing not_yet))) (h (begun m.processing not_yet))
    where
      first :
          (q : List Event)
          → (process_from handlers getting (record m { q = q })).started ≡ m.started
      first [] = refl
      first (e ∷ q) = refl

      same : (p : Processing) → (process_from handlers p m).started ≡ m.started
      same not_started = refl
      same checking = ground arith
      same getting = first m.q
      same (holding e) = refl
      same (handling batch) = ground arith
      same ended = refl

      begun : (p : Processing) → (process_from handlers p m).started ≡ false → m.started ≡ false
      begun p e = sym (same p) ∙ e

  pub Run-IsBatched :
      {m0 : EventManager State} {given : List Event} {m : EventManager State}
      → Run handlers m0 given m
      → m0.registry ≡ true
      → Waits m0
      → IsBatched handlers (progress handlers m0) [] m0
      → (m.registry ≡ true) × Waits m × IsBatched handlers (progress handlers m0) given m
  Run-IsBatched begin h w b = (h, w, b)
  Run-IsBatched {m0} (next {before} {n = n} run s is_after) h w b =
      let (h1, w1, b1) = Run-IsBatched run h w b in
      (
        registered-still s h1,
        Step-Waits s w1,
        subst (λ es. IsBatched handlers (progress handlers m0) es n) (sym is_after)
            (Step-IsBatched (progress handlers m0) before s h1 w1 b1),
      )
