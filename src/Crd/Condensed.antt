-- ===== src/Crd/Condensed.antt =====
-- The sum of predictions of one shape.
use titus_isolate.Prelude.{
  ℕ, zero, suc, ◌≡◌, refl, ap, String, List, [], ◌∷◌, Option, none, some, map, All, eq_cases,
  beq_refl, beq_ne, inl, inr, string_eq, Dict, lookup, ok, arith,
}
use titus_isolate.Crd.{
  ResourceTypeUsagePrediction, ResourceUsagePrediction, add_values, add_at, add_quantiles, add_type,
  add_types, add, add_all, condense_predictions,
}

-- The horizons of a resource, and for each quantile the number of values.
abbrev pub TypeShape : Type 0
TypeShape = Dict String (List String) × Dict String ℕ

-- What a dict has under a key is the value it is listed with.
abbrev pub IsDict {ℓ} : {A : Type ℓ} → Dict String A → Type ℓ
IsDict {A = A} d = All (λ (e : String × A). lookup e.0 d ≡ some e.1) d

abbrev pub IsShape : Dict String TypeShape → Type 0
IsShape shape = IsDict shape × All (λ (e : String × TypeShape). IsDict e.1.1) shape

module _ {Value : Type 0} where
  abbrev tabulate : ℕ → (ℕ → Value) → List Value
  tabulate zero f = []
  tabulate (suc n) f = f 0 ∷ tabulate n (λ i. f (suc i))

  abbrev quantiles_of : Dict String ℕ → (String → ℕ → Value) → Dict String (List Value)
  quantiles_of [] f = []
  quantiles_of ((q, n) ∷ d) f = (q, tabulate n (f q)) ∷ quantiles_of d f

  abbrev type_of : TypeShape → (String → ℕ → Value) → ResourceTypeUsagePrediction Value
  type_of (horizons, counts) f = record {
    horizon_minutes = horizons;
    predictions = quantiles_of counts f;
  }

  abbrev types_of :
      Dict String TypeShape
      → (String → String → ℕ → Value)
      → Dict String (ResourceTypeUsagePrediction Value)
  types_of [] f = []
  types_of ((r, s) ∷ shape) f = (r, type_of s (f r)) ∷ types_of shape f

  -- The prediction of a shape with given values, by resource, quantile and position.
  abbrev pub prediction_of :
      Dict String TypeShape → (String → String → ℕ → Value) → ResourceUsagePrediction Value
  prediction_of shape f = record { resource_type_predictions = types_of shape f }

  lookup-quantiles_of :
      (k : String) (d : Dict String ℕ) (f : String → ℕ → Value) (n : ℕ)
      → lookup k d ≡ some n
      → lookup k (quantiles_of d f) ≡ some (tabulate n (f k))
  lookup-quantiles_of k [] f n h = absurd (grind arith)
  lookup-quantiles_of k ((j, m) ∷ d) f n h = elim (eq_cases k j) [
    | inl same ↦
        let here : some m ≡ some n = grind (arith, same, beq_refl j) in
        rw (same, beq_refl j)
          (ap (λ (o : Option ℕ). elim o [ none ↦ none | some x ↦ some (tabulate x (f j)) ]) here)
    | inr other ↦
        let rest : lookup k d ≡ some n = grind (arith, beq_ne k j other) in
        rw (beq_ne k j other) (lookup-quantiles_of k d f n rest)
  ]

  lookup-types_of :
      (k : String) (shape : Dict String TypeShape) (f : String → String → ℕ → Value) (s : TypeShape)
      → lookup k shape ≡ some s
      → lookup k (types_of shape f) ≡ some (type_of s (f k))
  lookup-types_of k [] f s h = absurd (grind arith)
  lookup-types_of k ((j, m) ∷ d) f s h = elim (eq_cases k j) [
    | inl same ↦
        let here : some m ≡ some s = grind (arith, same, beq_refl j) in
        rw (same, beq_refl j)
          (ap (λ (o : Option TypeShape). elim o [ none ↦ none | some x ↦ some (type_of x (f j)) ])
            here)
    | inr other ↦
        let rest : lookup k d ≡ some s = grind (arith, beq_ne k j other) in
        rw (beq_ne k j other) (lookup-types_of k d f s rest)
  ]

module _ {Value : Type 0} (plus : Value → Value → Value) where
  add_values-tabulate :
      (n : ℕ) (f g : ℕ → Value)
      → add_values plus (tabulate n f) (tabulate n g) ≡ ok (tabulate n (λ i. plus (f i) (g i)))
  unfolding add_values
  add_values-tabulate zero f g = refl
  add_values-tabulate (suc n) f g =
      rw (add_values-tabulate n (λ i. f (suc i)) (λ i. g (suc i))) refl

  add_at-tabulate :
      (n : ℕ) (f g : ℕ → Value)
      → add_at plus (tabulate n f) (some (tabulate n g)) ≡ ok (tabulate n (λ i. plus (f i) (g i)))
  unfolding add_at
  add_at-tabulate zero f g = refl
  add_at-tabulate (suc n) f g = add_values-tabulate (suc n) f g

  add_quantiles-of :
      (full d : Dict String ℕ) (f g : String → ℕ → Value)
      → All (λ (e : String × ℕ). lookup e.0 full ≡ some e.1) d
      → add_quantiles plus (quantiles_of d f) (quantiles_of full g)
        ≡ ok (quantiles_of d (λ q i. plus (f q i) (g q i)))
  unfolding add_quantiles
  add_quantiles-of full [] f g h = refl
  add_quantiles-of full ((q, n) ∷ d) f g h =
      rw
        (
          lookup-quantiles_of q full g n h.0,
          add_at-tabulate n (f q) (g q),
          add_quantiles-of full d f g h.1,
        )
        refl

  add_types-of :
      (full d : Dict String TypeShape) (f g : String → String → ℕ → Value)
      → All (λ (e : String × TypeShape). lookup e.0 full ≡ some e.1) d
      → All (λ (e : String × TypeShape). IsDict e.1.1) d
      → add_types plus (types_of d f) (types_of full g)
        ≡ ok (types_of d (λ r q i. plus (f r q i) (g r q i)))
  unfolding add_types add_type
  add_types-of full [] f g h k = refl
  add_types-of full ((r, (horizons, counts)) ∷ d) f g h k =
      rw
        (
          lookup-types_of r full g (horizons, counts) h.0,
          add_quantiles-of counts counts (f r) (g r) k.0,
          add_types-of full d f g h.1 k.1,
        )
        refl

  -- The sum of the first function's values with those of the others, in order.
  abbrev pub total :
      (String → String → ℕ → Value)
      → List (String → String → ℕ → Value)
      → String
      → String
      → ℕ
      → Value
  total f [] = f
  total f (g ∷ gs) = total (λ r q i. plus (f r q i) (g r q i)) gs

  add_all-total :
      (shape : Dict String TypeShape) (f : String → String → ℕ → Value)
      (gs : List (String → String → ℕ → Value))
      → IsShape shape
      → add_all plus (prediction_of shape f) (map (prediction_of shape) gs)
        ≡ ok (prediction_of shape (total f gs))
  unfolding add_all add
  add_all-total shape f [] h = refl
  add_all-total shape f (g ∷ gs) h =
      rw (add_types-of shape shape f g h.0 h.1)
        (add_all-total shape (λ r q i. plus (f r q i) (g r q i)) gs h)

  -- Predictions of one shape, at least one, are condensed to a prediction of that shape: for every
  -- resource, quantile and position it has the sum of their values, added in order.
  pub condense_predictions-total :
      (shape : Dict String TypeShape) (f : String → String → ℕ → Value)
      (gs : List (String → String → ℕ → Value))
      → IsShape shape
      → condense_predictions plus (map (prediction_of shape) (f ∷ gs))
        ≡ ok (prediction_of shape (total f gs))
  unfolding condense_predictions
  condense_predictions-total shape f gs h = add_all-total shape f gs h
