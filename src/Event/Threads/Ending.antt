-- ===== src/Event/Threads/Ending.antt =====
-- The processing thread ends after a stop.
use titus_isolate.Prelude.{
  ℕ, ◌+◌, ◌-◌, ◌≤◌, ◌≡◌, ◌≢◌, refl, ap, Bool, true, false, List, [], ◌∷◌, Option, none, some,
  if◌then◌else◌, Result, ok, raise, arith,
}
use titus_isolate.Event.{Event}
use titus_isolate.Event.Queue.{put_event, dequeue_event, Handler}
use titus_isolate.Event.Threads.{
  Processing, not_started, checking, getting, ended, holding, handling, EventManager, set_registry,
  start_processing_events, stop_processing_events, put, tick, pull_next, pull, process_from,
  process, Step, registry_step, start_step, stop_step, tick_step, pull_step, process_step, Run,
  begin, next,
}

-- How many steps the thread is from its end, once the manager is stopped.
abbrev to_go : Processing → ℕ
to_go ended = 0
to_go checking = 1
to_go (handling batch) = 2
to_go (holding e) = 3
to_go getting = 4
to_go not_started = 5

module _ {State : Type 0} (handlers : List (Handler State)) where
  -- The steps of the processing thread.
  abbrev pub turn : {es : List Event} {m n : EventManager State} → Step handlers es m n → ℕ
  turn (registry_step m) = 0
  turn (start_step m) = 0
  turn (stop_step m) = 0
  turn (tick_step e m) = 0
  turn (pull_step m) = 0
  turn (process_step m) = 1

  abbrev pub turns :
      {m0 : EventManager State} {given : List Event} {m : EventManager State}
      → Run handlers m0 given m
      → ℕ
  turns begin = 0
  turns (next run s is_after) = turn s + turns run

  -- A manager that is started and stopped, with at most so many steps to go.
  abbrev Stops : ℕ → EventManager State → Type 0
  Stops k m = (m.started ≡ true) × (m.stopped ≡ true) × (to_go m.processing ≤ k)

  Step-Stops :
      {es : List Event} {m n : EventManager State} (k : ℕ) (s : Step handlers es m n)
      → k ≤ 4
      → Stops k m
      → Stops (k - turn s) n
  unfolding set_registry start_processing_events stop_processing_events tick pull pull_next process
      process_from dequeue_event
  Step-Stops k (registry_step m) small (a, b, c) = (a, b, omega arith)
  Step-Stops k (start_step m) small (a, b, c) =
      (ground (arith, a), ground (arith, a, b), ground (arith, a, c))
  Step-Stops k (stop_step m) small (a, b, c) = (a, refl, omega arith)
  Step-Stops k (tick_step e m) small (a, b, c) = go (put_event e m.q)
    where
      go : (r : Result (List Event)) → Stops (k - 0) (put r m m)
      go (raise x) = (a, b, omega arith)
      go (ok q) = (a, b, omega arith)
  Step-Stops k (pull_step m) small (a, b, c) = alive m.pulling
    where
      go_put :
          (left : EventManager State)
          → Stops (k - 0) left
          → (r : Result (List Event)) → Stops (k - 0) (put r (record left { pulling = false }) left)
      go_put left w (raise x) = w
      go_put left w (ok q) = w

      go : (incoming : List (Option Event)) → Stops (k - 0) (pull_next incoming m)
      go [] = (a, b, omega arith)
      go (none ∷ incoming) = (a, b, omega arith)
      go (some e ∷ incoming) =
          go_put (record m { incoming = incoming }) (a, b, omega arith) (put_event e m.q)

      alive : (p : Bool) → Stops (k - 0) (if p then pull_next m.incoming m else m)
      alive true = go m.incoming
      alive false = (a, b, omega arith)
  Step-Stops k (process_step m) small (a, b, c) = go m.processing c refl
    where
      first :
          (q : List Event)
          → 4 ≤ k
          → Stops (k - 1) (process_from handlers getting (record m { q = q }))
      first [] h = (a, b, omega arith)
      first (e ∷ q) h = (a, b, omega arith)

      go :
          (p : Processing)
          → to_go p ≤ k
          → m.processing ≡ p
          → Stops (k - 1) (process_from handlers p m)
      go not_started h at = absurd (omega arith)
      go checking h at = (ground (arith, a), ground (arith, b), ground (arith, b))
      go getting h at = first m.q h
      go (holding e) h at = (a, b, omega arith)
      go (handling batch) h at = (ground (arith, a), ground (arith, b), ground (arith, h))
      go ended h at = (a, b, omega (arith, ap to_go at))

  Run-Stops :
      {m0 : EventManager State} {given : List Event} {m : EventManager State}
      (run : Run handlers m0 given m)
      → Stops 4 m0
      → Stops (4 - turns run) m
  Run-Stops begin h = h
  Run-Stops (next {n = n} run s is_after) h =
      let (a, b, c) = Step-Stops (4 - turns run) s (omega arith) (Run-Stops run h) in
      (a, b, omega arith)

  ended_lem : (p : Processing) → to_go p ≤ 0 → p ≡ ended
  ended_lem ended h = refl
  ended_lem checking h = absurd (omega arith)
  ended_lem (handling batch) h = absurd (omega arith)
  ended_lem (holding e) h = absurd (omega arith)
  ended_lem getting h = absurd (omega arith)
  ended_lem not_started h = absurd (omega arith)

  -- If an event manager's threads run, then after stop_processing_events the processing thread takes at most
  -- four more steps and ends, whatever the other thread, the scheduler and callers do in between.
  pub stop_processing_events-ended :
      (m0 m : EventManager State) {given : List Event}
      → m0.started ≡ true
      → m0.processing ≢ not_started
      → (run : Run handlers (stop_processing_events m0) given m) → 4 ≤ turns run
      → m.processing ≡ ended
  unfolding stop_processing_events
  stop_processing_events-ended m0 m running begun run enough =
      let (_, _, c) = Run-Stops run (running, refl, within m0.processing begun) in
      ended_lem m.processing (omega arith)
    where
      within : (p : Processing) → p ≢ not_started → to_go p ≤ 4
      within ended h = omega arith
      within checking h = omega arith
      within (handling batch) h = omega arith
      within (holding e) h = omega arith
      within getting h = omega arith
      within not_started h = absurd (h refl)
