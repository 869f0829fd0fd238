-- ===== src/Config/Manager.antt =====
-- titus_isolate/config/config_manager.py with its caches. What the property provider answers changes with
-- time, so each call is given the answers of its moment.
use titus_isolate.Prelude.{
  String, Bool, true, false, Option, none, some, ◌&&◌, ◌==◌, string_eq, if◌then◌else◌, Result,
  raise, type_error, ℤ,
}
use titus_isolate.Text.{codes, int}
use titus_isolate.Config.{PropertyProvider}

-- `get_str(key, default)`
unfoldable pub get_str : PropertyProvider → String → Option String → Option String
get_str provider key default = elim (provider key) [ none ↦ default | some value ↦ some value ]

-- `int` of a text or None
abbrev int_of : Option String → Result ℤ
int_of none = raise type_error
int_of (some value) = int (codes value)

unfoldable pub get_int : PropertyProvider → String → Option String → Result ℤ
unfolding get_str
get_int provider key default = int_of (get_str provider key default)

abbrev float_of : {Float : Type 0} → (String → Result Float) → Option String → Result Float
float_of float none = raise type_error
float_of float (some value) = float value

-- `get_float(key, default)`, where `float` reads a text.
unfoldable pub get_float :
    {Float : Type 0}
    → (String → Result Float)
    → PropertyProvider
    → String
    → Option String
    → Result Float
unfolding get_str
get_float float provider key default = float_of float (get_str provider key default)

-- The arguments of a cached call: the key, and the default if one is passed.
abbrev pub Cache : Type 0
Cache = String → Option (Option String) → Option (Option String)

abbrev pub same_text : Option String → Option String → Bool
same_text none none = true
same_text none (some t) = false
same_text (some s) none = false
same_text (some s) (some t) = s == t

abbrev pub same_default : Option (Option String) → Option (Option String) → Bool
same_default none none = true
same_default none (some t) = false
same_default (some s) none = false
same_default (some s) (some t) = same_text s t

abbrev pub remember : String → Option (Option String) → Option String → Cache → Cache
remember key default value cache k d =
    if k == key && same_default d default then some value else cache k d

abbrev pub or_none : Option (Option String) → Option String
or_none none = none
or_none (some default) = default

-- `get_cached_str(key, default)` under `lru_cache(maxsize=None)`
unfoldable pub get_cached_str :
    PropertyProvider → String → Option (Option String) → Cache → Option String × Cache
unfolding get_str
get_cached_str provider key default cache = elim (cache key default) [
  | some value ↦ (value, cache)
  | none ↦
      let value = get_str provider key (or_none default) in
      (value, remember key default value cache)
]
