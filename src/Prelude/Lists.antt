-- ===== src/Prelude/Lists.antt =====
-- Lists measured and indexed by native numbers, comprehensions, and updates in place.
use Prim.Native.Nat.{ℕ, zero, suc, ◌+◌, min}
use mathlib.Core.Path.{◌≡◌, refl, subst}
use mathlib.Core.Logic.{inl, inr}
use mathlib.Core.Bool.{Bool}
use mathlib.Core.Option.{Option, none, some}
use mathlib.Core.List.{List, [], ◌∷◌, ◌++◌, map}
use native.Mathlib.Omega.{arith}
use titus_isolate.Prelude.Tests.{if◌then◌else◌, Bool-cases}

module _ {ℓ} {A : Type ℓ} where
  abbrev pub length : List A → ℕ
  length [] = 0
  length (x ∷ xs) = suc (length xs)

  abbrev pub get_elem? : List A → ℕ → Option A
  get_elem? [] i = none
  get_elem? (x ∷ xs) zero = some x
  get_elem? (x ∷ xs) (suc i) = get_elem? xs i

  abbrev pub take : ℕ → List A → List A
  take zero xs = []
  take (suc n) [] = []
  take (suc n) (x ∷ xs) = x ∷ take n xs

  -- An object in a list is changed through a reference to it, its position.
  abbrev pub modify : List A → ℕ → (A → A) → List A
  modify [] i f = []
  modify (x ∷ xs) zero f = f x ∷ xs
  modify (x ∷ xs) (suc i) f = x ∷ modify xs i f

  -- `[x for x in xs if p(x)]`
  abbrev pub keep_if : (A → Bool) → List A → List A
  keep_if p [] = []
  keep_if p (x ∷ xs) = let rest = keep_if p xs in if p x then x ∷ rest else rest

  abbrev pub sum_by : (A → ℕ) → List A → ℕ
  sum_by f [] = 0
  sum_by f (x ∷ xs) = f x + sum_by f xs

  abbrev pub All {κ} : (A → Type κ) → List A → Type κ
  All P [] = Unit
  All P (x ∷ xs) = P x × All P xs

  pub length-append : (xs ys : List A) → length (xs ++ ys) ≡ length xs + length ys
  length-append [] ys = omega arith
  length-append (x ∷ xs) ys = omega (arith, length-append xs ys)

  pub length-take : (n : ℕ) (xs : List A) → length (take n xs) ≡ min n (length xs)
  length-take zero xs = omega arith
  length-take (suc n) [] = omega arith
  length-take (suc n) (x ∷ xs) = omega (arith, length-take n xs)

  pub length-modify : (xs : List A) (i : ℕ) (f : A → A) → length (modify xs i f) ≡ length xs
  length-modify [] i f = refl
  length-modify (x ∷ xs) zero f = refl
  length-modify (x ∷ xs) (suc i) f = omega (arith, length-modify xs i f)

  pub sum_by-append : (f : A → ℕ) (xs ys : List A) → sum_by f (xs ++ ys) ≡ sum_by f xs + sum_by f ys
  sum_by-append f [] ys = omega arith
  sum_by-append f (x ∷ xs) ys = omega (arith, sum_by-append f xs ys)

  -- An update changes a sum by what it changes at its place.
  pub sum_by-modify :
      (m : A → ℕ) (xs : List A) (i : ℕ) (f : A → A) (x : A)
      → get_elem? xs i ≡ some x
      → sum_by m (modify xs i f) + m x ≡ sum_by m xs + m (f x)
  sum_by-modify m [] i f x h = ground arith
  sum_by-modify m (y ∷ xs) zero f x h = ground arith
  sum_by-modify m (y ∷ xs) (suc i) f x h = omega (arith, sum_by-modify m xs i f x h)

  pub length-keep_if :
      (p : A → Bool) (xs : List A) → length (keep_if p xs) ≡ sum_by (λ x. if p x then 1 else 0) xs
  length-keep_if p [] = refl
  length-keep_if p (x ∷ xs) = ground (arith, length-keep_if p xs)

  pub All-append {κ} : (P : A → Type κ) (xs ys : List A) → All P xs → All P ys → All P (xs ++ ys)
  All-append P [] ys hx hy = hy
  All-append P (x ∷ xs) ys hx hy = (hx.0, All-append P xs ys hx.1 hy)

  pub All-map {κ μ} :
      (P : A → Type κ) (Q : A → Type μ)
      → ((x : A) → P x → Q x)
      → (xs : List A) → All P xs
      → All Q xs
  All-map P Q f [] h = tt
  All-map P Q f (x ∷ xs) h = (f x h.0, All-map P Q f xs h.1)

  pub All-get_elem? {κ} :
      (P : A → Type κ) (xs : List A) (i : ℕ) {x : A} → All P xs → get_elem? xs i ≡ some x → P x
  All-get_elem? P [] i a e = cc
  All-get_elem? P (y ∷ xs) zero {x} a e = let same : y ≡ x = cc in subst P same a.0
  All-get_elem? P (y ∷ xs) (suc i) a e = All-get_elem? P xs i a.1 e

  pub All-keep_if {κ} :
      (P : A → Type κ) (p : A → Bool) (xs : List A) → All P xs → All P (keep_if p xs)
  All-keep_if P p [] a = tt
  All-keep_if P p (x ∷ xs) a = elim (Bool-cases (p x)) [
    | inl kept ↦ rw kept (a.0, All-keep_if P p xs a.1)
    | inr gone ↦ rw gone (All-keep_if P p xs a.1)
  ]

  pub All-modify {κ} :
      (P : A → Type κ) (xs : List A) (i : ℕ) (f : A → A)
      → ((x : A) → P x → P (f x))
      → All P xs
      → All P (modify xs i f)
  All-modify P [] i f h a = tt
  All-modify P (x ∷ xs) zero f h a = (h x a.0, a.1)
  All-modify P (x ∷ xs) (suc i) f h a = (a.0, All-modify P xs i f h a.1)

module _ {ℓ κ} {A : Type ℓ} {B : Type κ} where
  -- `reduce(list.__add__, [f(x) for x in xs])` over at least one `x`.
  abbrev pub concat_map : (A → List B) → List A → List B
  concat_map f [] = []
  concat_map f (x ∷ xs) = f x ++ concat_map f xs

  pub sum_by-concat_map :
      (m : B → ℕ) (f : A → List B) (xs : List A)
      → sum_by m (concat_map f xs) ≡ sum_by (λ x. sum_by m (f x)) xs
  sum_by-concat_map m f [] = refl
  sum_by-concat_map m f (x ∷ xs) =
      omega (arith, sum_by-append m (f x) (concat_map f xs), sum_by-concat_map m f xs)

  pub length-map : (xs : List A) (f : A → B) → length (map f xs) ≡ length xs
  length-map [] f = refl
  length-map (x ∷ xs) f = omega (arith, length-map xs f)
