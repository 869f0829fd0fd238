-- ===== src/Config/Watcher.antt =====
-- titus_isolate/config/restart_property_watcher.py. The exits of the exit handler are the list of their codes,
-- as a handler that does not end the process would see them.
use titus_isolate.Prelude.{ℕ, String, not, List, [], ◌∷◌, none, string_eq, if◌then◌else◌}
use titus_isolate.Config.{PropertyProvider}
use titus_isolate.Config.Manager.{Cache, get_str, get_cached_str, same_text}

abbrev pub generic_property_change_exit : ℕ
generic_property_change_exit = 3

-- `RestartPropertyWatcher(config_manager, exit_handler, properties)` asks for each property once.
unfoldable pub new_watcher : PropertyProvider → List String → Cache → Cache
unfolding get_cached_str
new_watcher provider [] cache = cache
new_watcher provider (p ∷ properties) cache =
    new_watcher provider properties (get_cached_str provider p none cache).1

-- `__detect_property_changes()`
unfoldable pub detect_changes : PropertyProvider → List String → Cache → List ℕ × Cache
unfolding get_cached_str get_str
detect_changes provider [] cache = ([], cache)
detect_changes provider (p ∷ properties) cache =
    let (original_value, after) = get_cached_str provider p none cache in
    let curr_value = get_str provider p none in
    let (exits, last) = detect_changes provider properties after in
    (
      if not (same_text original_value curr_value)
          then generic_property_change_exit ∷ exits
          else exits,
      last,
    )
