-- ===== src/Text.antt =====
-- Python texts where their letters matter: a list of code points, with `str.split`, `str.strip`, `str(n)`
-- and `int(text)` as the sources use them. Of the digits only the ASCII ones are read.
pub mod Decimal
pub mod Parts
mod Tests
use Prim.Native.Char.{code}
use titus_isolate.Prelude.{
  ℕ, zero, suc, ◌+◌, ◌-◌, ◌*◌, ◌/◌, ◌%◌, ◌↔◌, ◌≡◌, refl, ap, String, Bool, true, false, ◌&&◌, ◌||◌,
  List, [], ◌∷◌, ◌++◌, Option, none, some, if◌then◌else◌, ltb, leb, ◌==◌, nat_eq, Eq, Result, ok,
  raise, value_error, index_error, ℤ, pos, negsuc, eq_cases, inl, inr, arith,
}

abbrev pub Text : Type 0
Text = List ℕ

-- The code points of a literal.
abbrev pub codes : String → Text
codes String.[] = []
codes (String.◌∷◌ c s) = code c ∷ codes s

abbrev text_beq : Text → Text → Bool
text_beq [] [] = true
text_beq [] (d ∷ t) = false
text_beq (c ∷ s) [] = false
text_beq (c ∷ s) (d ∷ t) = c == d && text_beq s t

pub text_beq_iff : (s t : Text) → (text_beq s t ≡ true) ↔ (s ≡ t)
text_beq_iff [] [] = (λ h. refl, λ h. refl)
text_beq_iff [] (d ∷ t) = (λ h. cc, λ h. cc)
text_beq_iff (c ∷ s) [] = (λ h. cc, λ h. cc)
text_beq_iff (c ∷ s) (d ∷ t) = ground (arith, text_beq_iff s t)

instance abbrev pub text_eq : Eq Text
text_eq = record { beq = text_beq; beq_iff = text_beq_iff }

abbrev prepend : ℕ → List Text → List Text
prepend c [] = (c ∷ []) ∷ []
prepend c (p ∷ ps) = (c ∷ p) ∷ ps

-- `s.split(sep)`, for a separator of one character
abbrev pub split : ℕ → Text → List Text
split sep [] = [] ∷ []
split sep (c ∷ s) = let rest = split sep s in if c == sep then [] ∷ rest else prepend c rest

-- `sep.join(parts)`
abbrev pub join : ℕ → List Text → Text
join sep [] = []
join sep (p ∷ []) = p
join sep (p ∷ q ∷ ps) = p ++ sep ∷ join sep (q ∷ ps)

-- `r[i]` for `i` at least 0
abbrev pub get_item : List Text → ℕ → Result Text
get_item [] i = raise index_error
get_item (p ∷ ps) zero = ok p
get_item (p ∷ ps) (suc i) = get_item ps i

-- `r[-1]`
abbrev pub get_last : List Text → Result Text
get_last [] = raise index_error
get_last (p ∷ []) = ok p
get_last (p ∷ q ∷ ps) = get_last (q ∷ ps)

abbrev pub within : ℕ → ℕ → ℕ → Bool
within low high c = leb low c && leb c high

abbrev pub is_space : ℕ → Bool
is_space c =
    within 9 13 c
    || within 28 32 c
    || c == 133
    || c == 160
    || c == 5760
    || within 8192 8202 c
    || within 8232 8233 c
    || c == 8239
    || c == 8287
    || c == 12288

abbrev pub left_strip : Text → Text
left_strip [] = []
left_strip (c ∷ s) = let rest = left_strip s in if is_space c then rest else c ∷ s

abbrev drop_space : ℕ → Text → Text
drop_space c [] = if is_space c then [] else c ∷ []
drop_space c (d ∷ s) = c ∷ d ∷ s

abbrev pub right_strip : Text → Text
right_strip [] = []
right_strip (c ∷ s) = drop_space c (right_strip s)

-- `s.strip()`
abbrev pub strip : Text → Text
strip s = right_strip (left_strip s)

-- The decimal digits of a number in front of `out`, on fuel.
abbrev pub digits : ℕ → ℕ → Text → Text
digits zero n out = out
digits (suc fuel) n out = elim (ltb n 10) [
  | true ↦ (b'0' + n) ∷ out
  | false ↦ digits fuel (n / 10) ((b'0' + n % 10) ∷ out)
]

-- `str(n)`
unfoldable pub str : ℕ → Text
str n = digits (suc n) n []

-- Digits, with single underscores between them; `after` tells whether a digit was just read.
abbrev pub read_digits : Bool → ℕ → Text → Result ℕ
read_digits after n [] = if after then ok n else raise value_error
read_digits after n (c ∷ s) =
    let more = read_digits true (n * 10 + (c - b'0')) s in
    let later = read_digits false n s in
    if within b'0' b'9' c then more else if c == b'_' && after then later else raise value_error

abbrev negate : ℕ → ℤ
negate zero = pos 0
negate (suc n) = negsuc n

abbrev pub as_int : (ℕ → ℤ) → Result ℕ → Result ℤ
as_int sign (ok n) = ok (sign n)
as_int sign (raise e) = raise e

abbrev pub read_int : Text → Result ℤ
read_int [] = raise value_error
read_int (c ∷ s) =
    if c == b'-'
    then as_int negate (read_digits false 0 s)
    else if c == b'+'
    then as_int pos (read_digits false 0 s)
    else as_int pos (read_digits false 0 (c ∷ s))

-- `int(text)`
unfoldable pub int : Text → Result ℤ
int text = read_int (strip text)
