-- ===== src/Prelude/Keys.antt =====
-- Equality of keys as an interface, membership, and Python's sets as lists without repetition.
use Prim.Native.Nat.{ℕ}
use Prim.Native.String.{String}
use mathlib.Core.Path.{◌≡◌, refl}
use mathlib.Core.Logic.{◌↔◌, ◌⊎◌, ◌≢◌, inl, inr}
use mathlib.Core.Bool.{Bool, true, false, ◌||◌}
use mathlib.Core.List.{List, [], ◌∷◌, ◌++◌}
use text.Mathlib.Text.{◌==◌ as str_eq}
use text.Mathlib.TextEquality.{eq_iff}
use titus_isolate.Prelude.Tests.{nat_beq, nat_beq_iff, if◌then◌else◌, Bool-cases}

-- What the keys of a dict and the elements of a set need: a test that decides equality.
pub record Eq {ℓ} (Key : Type ℓ) : Type ℓ where
  pub beq : Key → Key → Bool
  pub beq_iff : (k j : Key) → (beq k j ≡ true) ↔ (k ≡ j)

-- Texts first: most keys are task ids.
instance abbrev pub string_eq : Eq String
string_eq = record { beq = str_eq; beq_iff = eq_iff }

instance abbrev pub nat_eq : Eq ℕ
nat_eq = record { beq = nat_beq; beq_iff = nat_beq_iff }

infix 50 ◌==◌
abbrev pub ◌==◌ {ℓ} : {Key : Type ℓ} ⦃keys : Eq Key⦄ → Key → Key → Bool
◌==◌ ⦃keys⦄ k j = keys.beq k j

module _ {ℓ} {A : Type ℓ} ⦃e : Eq A⦄ where
  pub beq_refl : (a : A) → (a == a) ≡ true
  beq_refl a = (e.beq_iff a a).1 refl

  pub beq_ne : (a b : A) → a ≢ b → (a == b) ≡ false
  beq_ne a b h = elim (Bool-cases (a == b)) [
    | inl same ↦ absurd (h ((e.beq_iff a b).0 same))
    | inr other ↦ other
  ]

  pub eq_cases : (a b : A) → (a ≡ b) ⊎ (a ≢ b)
  eq_cases a b = elim (Bool-cases (a == b)) [
    | inl same ↦ inl ((e.beq_iff a b).0 same)
    | inr other ↦ inr (λ p. cc ((e.beq_iff a b).1 p))
  ]

  -- `a in xs`
  abbrev pub contains : List A → A → Bool
  contains [] a = false
  contains (x ∷ xs) a = (a == x) || contains xs a

  -- `list(set(xs))`: each element once, where it occurs first.
  abbrev pub add_new : List A → A → List A
  add_new xs a = if contains xs a then xs else xs ++ a ∷ []

  abbrev pub distinct_from : List A → List A → List A
  distinct_from seen [] = seen
  distinct_from seen (x ∷ xs) = distinct_from (add_new seen x) xs

  abbrev pub distinct : List A → List A
  distinct xs = distinct_from [] xs

  -- `xs.remove(a)`, guarded by `if a in xs`: the first occurrence goes.
  abbrev pub remove : List A → A → List A
  remove [] a = []
  remove (x ∷ xs) a = if a == x then xs else x ∷ remove xs a

  -- No element occurs twice.
  abbrev pub IsDistinct : List A → Type 0
  IsDistinct [] = Unit
  IsDistinct (x ∷ xs) = (contains xs x ≡ false) × IsDistinct xs
