-- ===== src/Config.antt =====
-- titus_isolate/config/config_manager.py over a property provider, which asks an agent or the
-- environment and is a function from keys to values here. The `get_cached_…` methods keep the first
-- answer for a key: for them the function stands for those first answers.
pub mod Manager
pub mod Watcher
pub mod Changes
mod Tests
use titus_isolate.Prelude.{String, Bool, Option, none, some, not, ◌==◌, string_eq}

abbrev pub PropertyProvider : Type 0
PropertyProvider = String → Option String

-- `get_bool(key, default)`: `bool` of a text is true unless the text is empty.
unfoldable pub get_bool : PropertyProvider → String → Bool → Bool
get_bool provider key default = elim (provider key) [
  | none ↦ default
  | some value ↦ not (value == "")
]
