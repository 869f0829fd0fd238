-- ===== src/Prelude/Dicts.antt =====
-- A Python dict as an association list in insertion order.
use titus_isolate.Prelude.Tests.{if◌then◌else◌, Bool-cases}
use titus_isolate.Prelude.Keys.{Eq, ◌==◌, contains, remove, IsDistinct, beq_refl, beq_ne, eq_cases}
use mathlib.Core.Path.{◌≡◌, refl, sym, ap, ◌∙◌}
use mathlib.Core.Logic.{◌≢◌, inl, inr}
use mathlib.Core.Bool.{◌||◌, false}
use mathlib.Core.Option.{Option, none, some}
use mathlib.Core.List.{List, [], ◌∷◌}
use native.Mathlib.Omega.{arith}

abbrev pub Dict {ℓ κ} : Type ℓ → Type κ → Type (ℓ ⊔ κ)
Dict K V = List (K × V)

module _ {ℓ κ} {K : Type ℓ} {V : Type κ} where
  abbrev pub keys : Dict K V → List K
  keys [] = []
  keys ((k, v) ∷ d) = k ∷ keys d

  abbrev pub values : Dict K V → List V
  values [] = []
  values ((k, v) ∷ d) = v ∷ values d

module _ {ℓ κ} {K : Type ℓ} {V : Type κ} ⦃e : Eq K⦄ where
  -- `d.get(k, None)`
  abbrev pub lookup : K → Dict K V → Option V
  lookup k [] = none
  lookup k ((j, v) ∷ d) = if k == j then some v else lookup k d

  -- `d[k] = v`
  abbrev pub insert : K → V → Dict K V → Dict K V
  insert k v [] = (k, v) ∷ []
  insert k v ((j, u) ∷ d) = if k == j then (j, v) ∷ d else (j, u) ∷ insert k v d

  -- `d.pop(k, None)`
  abbrev pub erase : K → Dict K V → Dict K V
  erase k [] = []
  erase k ((j, u) ∷ d) = if k == j then d else (j, u) ∷ erase k d

  pub lookup-insert_self : (k : K) (v : V) (d : Dict K V) → lookup k (insert k v d) ≡ some v
  lookup-insert_self k v [] = rw (beq_refl k)
  lookup-insert_self k v ((j, u) ∷ d) = ground (arith, lookup-insert_self k v d)

  pub lookup-insert_ne :
      (j k : K) (v : V) (d : Dict K V) → j ≢ k → lookup j (insert k v d) ≡ lookup j d
  lookup-insert_ne j k v [] h = rw (beq_ne j k h)
  lookup-insert_ne j k v ((i, u) ∷ d) h = elim (eq_cases k i) [
    | inl same ↦ rw ((e.beq_iff k i).1 same, ← same, beq_ne j k h)
    | inr other ↦ rw (beq_ne k i other, lookup-insert_ne j k v d h)
  ]

  pub lookup-erase_ne : (j k : K) (d : Dict K V) → j ≢ k → lookup j (erase k d) ≡ lookup j d
  lookup-erase_ne j k [] h = refl
  lookup-erase_ne j k ((i, u) ∷ d) h = elim (eq_cases k i) [
    | inl same ↦ rw ((e.beq_iff k i).1 same, ← same, beq_ne j k h)
    | inr other ↦ rw (beq_ne k i other, lookup-erase_ne j k d h)
  ]

  pub contains-keys-insert :
      (k : K) (v : V) (d : Dict K V) (a : K)
      → contains (keys (insert k v d)) a ≡ (a == k || contains (keys d) a)
  contains-keys-insert k v [] a = refl
  contains-keys-insert k v ((j, u) ∷ d) a = elim (eq_cases k j) [
    | inl same ↦ rw ((e.beq_iff k j).1 same, same) (ground arith)
    | inr other ↦ rw (beq_ne k j other) (ground (arith, contains-keys-insert k v d a))
  ]

  pub keys-erase : (k : K) (d : Dict K V) → keys (erase k d) ≡ remove (keys d) k
  keys-erase k [] = refl
  keys-erase k ((j, u) ∷ d) = ground (arith, keys-erase k d)

  pub insert-IsDistinct :
      (k : K) (v : V) (d : Dict K V) → IsDistinct (keys d) → IsDistinct (keys (insert k v d))
  insert-IsDistinct k v [] h = (refl, tt)
  insert-IsDistinct k v ((j, u) ∷ d) h = elim (eq_cases k j) [
    | inl same ↦ rw ((e.beq_iff k j).1 same) h
    | inr other ↦ rw (beq_ne k j other) (
      ground (arith, contains-keys-insert k v d j, beq_ne j k (λ p. other (sym p)), h.0),
      insert-IsDistinct k v d h.1,
    )
  ]

  pub lookup-none : (k : K) (d : Dict K V) → contains (keys d) k ≡ false → lookup k d ≡ none
  lookup-none k [] h = refl
  lookup-none k ((j, u) ∷ d) h = ground (arith, lookup-none k d)

  pub lookup-erase_self : (k : K) (d : Dict K V) → IsDistinct (keys d) → lookup k (erase k d) ≡ none
  lookup-erase_self k [] h = refl
  lookup-erase_self k ((j, u) ∷ d) h = elim (eq_cases k j) [
    | inl same ↦ rw ((e.beq_iff k j).1 same) (lookup-none k d (ap (contains (keys d)) same ∙ h.0))
    | inr other ↦ rw (beq_ne k j other, beq_ne k j other) (lookup-erase_self k d h.1)
  ]

  -- To store what is stored changes nothing.
  pub insert-lookup : (k : K) (v : V) (d : Dict K V) → lookup k d ≡ some v → insert k v d ≡ d
  insert-lookup k v [] h = cc
  insert-lookup k v ((j, u) ∷ d) h = elim (Bool-cases (k == j)) [
    | inl same ↦
        let found : some u ≡ some v = rw (same) at h in
        rw same (ap (λ o. elim o [ none ↦ (j, u) ∷ d | some w ↦ (j, w) ∷ d ]) (sym found))
    | inr other ↦ rw other (ap (◌∷◌ (j, u)) (insert-lookup k v d (rw other at h)))
  ]
