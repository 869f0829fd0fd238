-- ===== src/Text/Tests.antt =====
-- Texts on concrete input.
use titus_isolate.Prelude.{◌≡◌, refl, [], ◌∷◌, ok, raise, value_error, pos, negsuc}
use titus_isolate.Text.{codes, split, strip, str, int}

split_text : split b':' (codes "4:cpuset:/a") ≡ codes "4" ∷ codes "cpuset" ∷ codes "/a" ∷ []
split_text = refl

strip_text : strip (codes " a b ") ≡ codes "a b"
strip_text = refl

str_number : str 1024 ≡ codes "1024"
unfolding str
str_number = refl

int_text : (int (codes " -12 ") ≡ ok (negsuc 11)) × (int (codes "+1_0") ≡ ok (pos 10))
unfolding int
int_text = (refl, refl)

int_raises : (int (codes "1__0") ≡ raise value_error) × (int [] ≡ raise value_error)
unfolding int
int_raises = (refl, refl)
