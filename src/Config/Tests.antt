-- ===== src/Config/Tests.antt =====
-- Two properties, of which one changes.
use titus_isolate.Prelude.{
  ◌≡◌, refl, List, [], ◌∷◌, none, some, ◌==◌, string_eq, if◌then◌else◌, map, keep_if, ok, raise,
  type_error, pos,
}
use titus_isolate.Text.{int}
use titus_isolate.Config.{PropertyProvider}
use titus_isolate.Config.Manager.{Cache, get_int, get_str, get_cached_str}
use titus_isolate.Config.Watcher.{new_watcher, detect_changes, generic_property_change_exit}
use titus_isolate.Config.Changes.{Call, run_calls, original, has_changed, detect_changes_lem}

abbrev before : PropertyProvider
before k = if k == "a" then some "1" else none

abbrev now : PropertyProvider
now k = if k == "a" then some "2" else none

abbrev empty : Cache
empty k d = none

abbrev calls : List Call
calls = record { provider = now; key = "a"; default = none } ∷ []

detect_changes_lem_example :
    (detect_changes now
      ("a" ∷ "b" ∷ [])
      (run_calls calls (new_watcher before ("a" ∷ "b" ∷ []) empty))).0
    ≡ map
        (λ p. generic_property_change_exit)
        (keep_if (has_changed (original before empty) now) ("a" ∷ "b" ∷ []))
detect_changes_lem_example = detect_changes_lem before now ("a" ∷ "b" ∷ []) calls empty

one_exit :
    (detect_changes now ("a" ∷ "b" ∷ []) (new_watcher before ("a" ∷ "b" ∷ []) empty)).0 ≡ 3 ∷ []
unfolding detect_changes new_watcher get_cached_str get_str
one_exit = refl

numbers : (get_int now "a" none ≡ ok (pos 2)) × (get_int now "b" none ≡ raise type_error)
unfolding get_int get_str int
numbers = (refl, refl)
