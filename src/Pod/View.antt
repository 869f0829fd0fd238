-- ===== src/Pod/View.antt =====
-- What the pod manager promises: of each name, the pod of the last event about it.
use titus_isolate.Prelude.{
  ◌≡◌, refl, sym, ◌∙◌, String, Bool, true, false, List, [], ◌∷◌, Option, none, some, ◌==◌, ◌||◌,
  string_eq, beq_refl, beq_ne, eq_cases, inl, inr, if◌then◌else◌, keys, insert, erase, IsDistinct,
  lookup-insert_self, lookup-insert_ne, lookup-erase_self, lookup-erase_ne, insert-IsDistinct,
  keys-erase, subst, Result, ok, raise,
}
use titus_isolate.Prelude.Sets.{remove-IsDistinct}
use titus_isolate.Pod.{V1Pod}
use titus_isolate.Pod.PodManager.{
  Event, PodCache, get_pod, store_pod, delete_pod, handle_event, watch_once, watch,
}

-- The pods by name, with no order and no representation.
abbrev pub View : Type 0
View = String → Option V1Pod

abbrev pub put : String → Option V1Pod → View → View
put name o view n = if n == name then o else view n

abbrev pub put_pod : Option V1Pod → View → Option View
put_pod none view = none
put_pod (some pod) view = some (put pod.name (some pod) view)

abbrev pub drop_pod : Option V1Pod → View → Option View
drop_pod none view = none
drop_pod (some pod) view = some (put pod.name none view)

-- What an event does to a view; an event without a pod that should have one ends the watch.
abbrev pub view_step : Event → View → Option View
view_step event view = elim event.type_of [
  | none ↦ some view
  | some event_type ↦
      if event_type == "ADDED" || event_type == "MODIFIED"
      then put_pod event.object_of view
      else if event_type == "DELETED"
      then drop_pod event.object_of view
      else some view
]

abbrev pub view_once : List Event → View → View
view_once [] view = view
view_once (event ∷ events) view = elim (view_step event view) [
  | none ↦ view
  | some after ↦ view_once events after
]

abbrev pub view_watch : List (List Event) → View → View
view_watch [] view = view
view_watch (stream ∷ streams) view = view_watch streams (view_once stream view)

-- A cache stands for a view: it has a name once, and for each name the pod of the view.
abbrev pub Represents : PodCache → View → Type 0
Represents cache view = IsDistinct (keys cache) × ((n : String) → get_pod cache n ≡ view n)

insert-Represents :
    (pod : V1Pod) (cache : PodCache) (view : View)
    → Represents cache view
    → Represents (insert pod.name pod cache) (put pod.name (some pod) view)
unfolding get_pod
insert-Represents pod cache view (d, r) = (
  insert-IsDistinct pod.name pod cache d,
  λ n. elim (eq_cases n pod.name) [
    | inl same ↦ rw (same, beq_refl pod.name) (lookup-insert_self pod.name pod cache)
    | inr other ↦ rw (beq_ne n pod.name other) (lookup-insert_ne n pod.name pod cache other ∙ r n)
  ],
)

erase-Represents :
    (name : String) (cache : PodCache) (view : View)
    → Represents cache view
    → Represents (erase name cache) (put name none view)
unfolding get_pod
erase-Represents name cache view (d, r) = (
  subst IsDistinct (sym (keys-erase name cache)) (remove-IsDistinct (keys cache) name d),
  λ n. elim (eq_cases n name) [
    | inl same ↦ rw (same, beq_refl name) (lookup-erase_self name cache d)
    | inr other ↦ rw (beq_ne n name other) (lookup-erase_ne n name cache other ∙ r n)
  ],
)

-- Both end the watch, or both go on, with a cache that stands for the view.
abbrev Agree : Result PodCache → Option View → Type 0
Agree (ok cache) (some view) = Represents cache view
Agree (ok cache) none = ⊥
Agree (raise e) (some view) = ⊥
Agree (raise e) none = Unit

choose-Agree :
    (b c : Bool) (x y z : Result PodCache) (u v w : Option View)
    → Agree x u
    → Agree y v
    → Agree z w
    → Agree (if b then x else if c then y else z) (if b then u else if c then v else w)
choose-Agree true c x y z u v w hx hy hz = hx
choose-Agree false true x y z u v w hx hy hz = hy
choose-Agree false false x y z u v w hx hy hz = hz

step-Agree :
    (t : Option String) (o : Option V1Pod) (cache : PodCache) (view : View)
    → Represents cache view
    → let event : Event = record { type_of = t; object_of = o } in
      Agree (handle_event event cache) (view_step event view)
unfolding handle_event store_pod delete_pod
step-Agree none o cache view h = h
step-Agree (some t) none cache view h =
    choose-Agree (t == "ADDED" || t == "MODIFIED") (t == "DELETED") _ _ _ _ _ _ tt tt h
step-Agree (some t) (some pod) cache view h =
    choose-Agree (t == "ADDED" || t == "MODIFIED") (t == "DELETED") _ _ _ _ _ _
      (insert-Represents pod cache view h) (erase-Represents pod.name cache view h) h

continue-Represents :
    (events : List Event) (cache : PodCache) (view : View)
    → Represents cache view
    → ((c : PodCache) (v : View)
        → Represents c v
        → Represents (watch_once events c) (view_once events v))
    → (r : Result PodCache) (o : Option View) → Agree r o
    → Represents
        (elim r [ raise e ↦ cache | ok after ↦ watch_once events after ])
        (elim o [ none ↦ view | some after ↦ view_once events after ])
continue-Represents events cache view h next (ok c) (some v) a = next c v a
continue-Represents events cache view h next (ok c) none a = absurd a
continue-Represents events cache view h next (raise e) (some v) a = absurd a
continue-Represents events cache view h next (raise e) none a = h

watch_once-Represents :
    (events : List Event) (cache : PodCache) (view : View)
    → Represents cache view
    → Represents (watch_once events cache) (view_once events view)
unfolding watch_once
watch_once-Represents [] cache view h = h
watch_once-Represents (event ∷ events) cache view h =
    continue-Represents events cache view h (watch_once-Represents events)
      (handle_event event cache) (view_step event view)
      (step-Agree event.type_of event.object_of cache view h)

watch-Represents :
    (streams : List (List Event)) (cache : PodCache) (view : View)
    → Represents cache view
    → Represents (watch streams cache) (view_watch streams view)
unfolding watch
watch-Represents [] cache view h = h
watch-Represents (stream ∷ streams) cache view h =
    watch-Represents streams (watch_once stream cache) (view_once stream view)
      (watch_once-Represents stream cache view h)

-- The pod manager implements its view: after any watches, each up to an event that raises, the cache of
-- a manager that began with none has every name once, and get_pod gives for a name the pod that the
-- events put there last and did not delete since.
pub watch-refines :
    (streams : List (List Event)) → Represents (watch streams []) (view_watch streams (λ n. none))
unfolding get_pod
watch-refines streams = watch-Represents streams [] (λ n. none) (tt, λ n. refl)
