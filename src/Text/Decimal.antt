-- ===== src/Text/Decimal.antt =====
-- Decimal texts of numbers.
use titus_isolate.Prelude.{
  ℕ, zero, suc, ◌+◌, ◌*◌, ◌/◌, ◌%◌, ◌-◌, ◌≤◌, ◌<◌, ◌≡◌, refl, sym, subst, ap, ◌∙◌, Bool, true,
  false, [], ◌∷◌, ◌++◌, ltb, All, All-map, ok, pos, Bool-cases, inl, inr, arith,
}
use titus_isolate.Text.{
  Text, is_space, left_strip, right_strip, strip, digits, str, read_digits, read_int, int, as_int,
}

abbrev pub IsDigit : ℕ → Type 0
IsDigit c = (b'0' ≤ c) × (c ≤ b'9')

digits_small :
    (fuel n : ℕ) (out : Text) → ltb n 10 ≡ true → digits (suc fuel) n out ≡ (b'0' + n) ∷ out
digits_small fuel n out h = rw (digits, h)

digits_large :
    (fuel n : ℕ) (out : Text)
    → ltb n 10 ≡ false
    → digits (suc fuel) n out ≡ digits fuel (n / 10) ((b'0' + n % 10) ∷ out)
digits_large fuel n out h = rw (digits, h)

digits-IsDigit : (fuel n : ℕ) (out : Text) → All IsDigit out → All IsDigit (digits fuel n out)
digits-IsDigit zero n out h = h
digits-IsDigit (suc fuel) n out h = elim (Bool-cases (ltb n 10)) [
  | inl small ↦ subst (All IsDigit) (sym (digits_small fuel n out small)) (ground arith, h)
  | inr large ↦
      subst (All IsDigit) (sym (digits_large fuel n out large))
        (digits-IsDigit fuel (n / 10) _ (omega arith, h))
]

pub str-IsDigit : (n : ℕ) → All IsDigit (str n)
unfolding str
str-IsDigit n = digits-IsDigit (suc n) n [] tt

-- No white space.
abbrev pub IsVisible : ℕ → Type 0
IsVisible c = is_space c ≡ false

is_space-false : (c : ℕ) → IsDigit c → is_space c ≡ false
is_space-false c h = ground arith

left_strip-IsVisible : (s : Text) → All IsVisible s → left_strip s ≡ s
left_strip-IsVisible [] h = refl
left_strip-IsVisible (c ∷ s) h = rw h.0

right_strip-IsVisible : (s : Text) → All IsVisible s → right_strip s ≡ s
right_strip-IsVisible [] h = refl
right_strip-IsVisible (c ∷ []) h = rw h.0
right_strip-IsVisible (c ∷ d ∷ s) h = rw (right_strip-IsVisible (d ∷ s) h.1)

pub strip-IsVisible : (s : Text) → All IsVisible s → strip s ≡ s
strip-IsVisible s h = rw (left_strip-IsVisible s h) (right_strip-IsVisible s h)

right_strip-line : (s : Text) → All IsVisible s → right_strip (s ++ b'\n' ∷ []) ≡ s
right_strip-line [] h = refl
right_strip-line (c ∷ []) h = rw h.0
right_strip-line (c ∷ d ∷ s) h = rw (right_strip-line (d ∷ s) h.1)

-- A line loses its end.
pub strip-line : (s : Text) → All IsVisible s → strip (s ++ b'\n' ∷ []) ≡ s
strip-line [] h = refl
strip-line (c ∷ s) h = rw h.0 (right_strip-line (c ∷ s) h)

pub str-IsVisible : (n : ℕ) → All IsVisible (str n)
str-IsVisible n = All-map IsDigit IsVisible is_space-false (str n) (str-IsDigit n)

read_digit :
    (b : Bool) (m c : ℕ) (s : Text)
    → IsDigit c
    → read_digits b m (c ∷ s) ≡ read_digits true (m * 10 + (c - b'0')) s
read_digit b m c s h = ground arith

read_digits-digits :
    (fuel n : ℕ) (b : Bool) (out : Text)
    → n < fuel
    → read_digits b 0 (digits fuel n out) ≡ read_digits true n out
read_digits-digits zero n b out h = absurd (omega arith)
read_digits-digits (suc fuel) n b out h = elim (Bool-cases (ltb n 10)) [
  | inl small ↦
      ap (read_digits b 0) (digits_small fuel n out small)
      ∙ (read_digit b 0 (b'0' + n) out (ground arith)
          ∙ ap (λ m. read_digits true m out) (omega arith))
  | inr large ↦
      ap (read_digits b 0) (digits_large fuel n out large)
      ∙ (read_digits-digits fuel (n / 10) b ((b'0' + n % 10) ∷ out) (ground arith)
          ∙ (read_digit true (n / 10) (b'0' + n % 10) out (omega arith)
              ∙ ap (λ m. read_digits true m out) (omega arith)))
]

read_int-IsDigit : (s : Text) → All IsDigit s → read_int s ≡ as_int pos (read_digits false 0 s)
read_int-IsDigit [] h = refl
read_int-IsDigit (c ∷ s) h = ground arith

-- `int(str(n))` is `n`.
pub int-str : (n : ℕ) → int (str n) ≡ ok (pos n)
unfolding int str
int-str n =
    let d = digits (suc n) n [] in
    let h : All IsDigit d = digits-IsDigit (suc n) n [] tt in
    ap read_int (strip-IsVisible d (All-map IsDigit IsVisible is_space-false d h))
    ∙ (read_int-IsDigit d h ∙ ap (as_int pos) (read_digits-digits (suc n) n false [] (omega arith)))
