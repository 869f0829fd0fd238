-- ===== src/Json/Tests.antt =====
-- Fields of an object.
use titus_isolate.Prelude.{◌≡◌, refl, ok, raise, key_error, type_error}
use titus_isolate.Json.{number, text, object, end, entry, get_field, get_or}

fields :
    (get_field "a" (object (entry "a" (number 1) end)) ≡ ok (number 1))
    × (get_field "b" (object (entry "a" (number 1) end)) ≡ raise key_error)
fields = (refl, refl)

other_values :
    (get_field "a" (number 1) ≡ raise type_error)
    × (get_or "b" (text "c") (object end) ≡ ok (text "c"))
other_values = (refl, refl)
