-- ===== src/Prelude/Sets.antt =====
-- Laws of membership, and of Python's sets as lists without repetition.
use mathlib.Core.Path.{◌≡◌, refl, sym, ap, ◌∙◌, subst}
use mathlib.Core.Logic.{◌≢◌, inl, inr}
use mathlib.Core.Bool.{true, false, ◌||◌}
use mathlib.Core.List.{List, [], ◌∷◌, ◌++◌, append_assoc, append-nil}
use native.Mathlib.Omega.{arith}
use titus_isolate.Prelude.Tests.{Bool-cases}
use titus_isolate.Prelude.Keys.{
  Eq, ◌==◌, contains, add_new, distinct_from, distinct, remove, IsDistinct, beq_ne, eq_cases,
}

module _ {ℓ} {A : Type ℓ} ⦃e : Eq A⦄ where
  pub contains-append :
      (xs ys : List A) (a : A) → contains (xs ++ ys) a ≡ (contains xs a || contains ys a)
  contains-append [] ys a = refl
  contains-append (x ∷ xs) ys a = ground (arith, contains-append xs ys a)

  pub contains-eq : (xs : List A) {a b : A} → b ≡ a → contains xs b ≡ contains xs a
  contains-eq xs p = ap (contains xs) p

  pub contains-add_new :
      (xs : List A) (a b : A) → contains (add_new xs a) b ≡ (contains xs b || (b == a))
  contains-add_new xs a b = elim (eq_cases b a) [
    | inl same ↦
        ground (arith, contains-append xs (a ∷ []) b, contains-eq xs same, (e.beq_iff b a).1 same)
    | inr other ↦ ground (arith, contains-append xs (a ∷ []) b, beq_ne b a other)
  ]

  pub contains-distinct_from :
      (seen xs : List A) (a : A)
      → contains (distinct_from seen xs) a ≡ (contains seen a || contains xs a)
  contains-distinct_from seen [] a = ground arith
  contains-distinct_from seen (x ∷ xs) a =
      ground (arith, contains-distinct_from (add_new seen x) xs a, contains-add_new seen x a)

  -- `list(set(xs))` has the elements of `xs`.
  pub contains-distinct : (xs : List A) (a : A) → contains (distinct xs) a ≡ contains xs a
  contains-distinct xs a = contains-distinct_from [] xs a

  append-IsDistinct :
      (xs : List A) (a : A) → IsDistinct xs → contains xs a ≡ false → IsDistinct (xs ++ a ∷ [])
  append-IsDistinct [] a d h = (refl, tt)
  append-IsDistinct (x ∷ xs) a d h = (
    contains-append xs (a ∷ []) x ∙ ground (arith, e.beq_iff x a, e.beq_iff a x, d.0),
    append-IsDistinct xs a d.1 (ground arith),
  )

  pub add_new-IsDistinct : (xs : List A) (a : A) → IsDistinct xs → IsDistinct (add_new xs a)
  add_new-IsDistinct xs a d = elim (Bool-cases (contains xs a)) [
    | inl old ↦ rw old d
    | inr new ↦ rw new (append-IsDistinct xs a d new)
  ]

  pub distinct_from-IsDistinct :
      (seen xs : List A) → IsDistinct seen → IsDistinct (distinct_from seen xs)
  distinct_from-IsDistinct seen [] d = d
  distinct_from-IsDistinct seen (x ∷ xs) d =
      distinct_from-IsDistinct (add_new seen x) xs (add_new-IsDistinct seen x d)

  -- It repeats none.
  pub distinct-IsDistinct : (xs : List A) → IsDistinct (distinct xs)
  distinct-IsDistinct xs = distinct_from-IsDistinct [] xs tt

  pub contains-remove_ne :
      (xs : List A) (a b : A) → b ≢ a → contains (remove xs a) b ≡ contains xs b
  contains-remove_ne [] a b h = refl
  contains-remove_ne (x ∷ xs) a b h = elim (eq_cases a x) [
    | inl same ↦ rw ((e.beq_iff a x).1 same, ← same, beq_ne b a h)
    | inr other ↦ rw (beq_ne a x other, contains-remove_ne xs a b h)
  ]

  pub contains-remove_self :
      (xs : List A) (a : A) → IsDistinct xs → contains (remove xs a) a ≡ false
  contains-remove_self [] a d = refl
  contains-remove_self (x ∷ xs) a d = elim (eq_cases a x) [
    | inl same ↦ rw ((e.beq_iff a x).1 same) (contains-eq xs same ∙ d.0)
    | inr other ↦ rw (beq_ne a x other, beq_ne a x other) (contains-remove_self xs a d.1)
  ]

  pub remove-IsDistinct : (xs : List A) (a : A) → IsDistinct xs → IsDistinct (remove xs a)
  remove-IsDistinct [] a d = tt
  remove-IsDistinct (x ∷ xs) a d = elim (eq_cases a x) [
    | inl same ↦ rw ((e.beq_iff a x).1 same) d.1
    | inr other ↦
        rw (beq_ne a x other)
          (contains-remove_ne xs a x (λ p. other (sym p)) ∙ d.0, remove-IsDistinct xs a d.1)
  ]

  pub not-contains_lem :
      (xs : List A) {a b : A} → contains xs a ≡ false → contains xs b ≡ true → b ≢ a
  not-contains_lem xs no_a has_b p = cc (contains-eq xs p)

  pub contains-false :
      (k j : A) (ks : List A) → contains (j ∷ ks) k ≡ false → (k ≢ j) × (contains ks k ≡ false)
  contains-false k j ks h = elim (eq_cases k j) [
    | inl same ↦ cc (h, (e.beq_iff k j).1 same)
    | inr other ↦ (other, ground (arith, h))
  ]

  before-IsDistinct :
      (seen : List A) (x : A) (xs : List A) → IsDistinct (seen ++ x ∷ xs) → contains seen x ≡ false
  before-IsDistinct [] x xs h = refl
  before-IsDistinct (s ∷ seen) x xs h = elim (eq_cases x s) [
    | inl same ↦
        absurd (ground (arith, contains-append seen (x ∷ xs) s, (e.beq_iff s x).1 (sym same), h.0))
    | inr other ↦ rw (beq_ne x s other) (before-IsDistinct seen x xs h.1)
  ]

  -- A list without repetition is its own set.
  pub distinct_from-same :
      (seen xs : List A) → IsDistinct (seen ++ xs) → distinct_from seen xs ≡ seen ++ xs
  distinct_from-same seen [] h = sym (append-nil seen)
  distinct_from-same seen (x ∷ xs) h = rw (before-IsDistinct seen x xs h) (
      distinct_from-same (seen ++ x ∷ []) xs
        (subst IsDistinct (sym (append_assoc seen (x ∷ []) xs)) h)
      ∙ append_assoc seen (x ∷ []) xs)

  pub IsDistinct-prefix : (xs ys : List A) → IsDistinct (xs ++ ys) → IsDistinct xs
  IsDistinct-prefix [] ys h = tt
  IsDistinct-prefix (x ∷ xs) ys h =
      (ground (arith, contains-append xs ys x, h.0), IsDistinct-prefix xs ys h.1)
