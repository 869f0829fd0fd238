-- ===== src/Crd/Tests.antt =====
-- Three predictions of two resources.
use titus_isolate.Prelude.{
  ℕ, ◌+◌, ◌≡◌, refl, String, [], ◌∷◌, none, some, map, Dict, ok, raise, key_error,
}
use titus_isolate.Crd.{condense_predictions, new_prediction}
use titus_isolate.Crd.Condensed.{TypeShape, prediction_of, total, condense_predictions-total}

abbrev shape : Dict String TypeShape
shape =
    ("cpu", (("p50", "0-10" ∷ "10-30" ∷ []) ∷ [], ("p50", 2) ∷ ("p95", 1) ∷ []))
    ∷ ("memMB", ([], []))
    ∷ []

abbrev shifted : ℕ → String → String → ℕ → ℕ
shifted n r q i = n + i

condense_predictions-total_example :
    condense_predictions
      (λ a b. a + b)
      (map (prediction_of shape) (shifted 1 ∷ shifted 2 ∷ shifted 4 ∷ []))
    ≡ ok (prediction_of shape (total (λ a b. a + b) (shifted 1) (shifted 2 ∷ shifted 4 ∷ [])))
condense_predictions-total_example =
    condense_predictions-total (λ a b. a + b) shape (shifted 1) (shifted 2 ∷ shifted 4 ∷ [])
      ((refl, (refl, tt)), ((refl, (refl, tt)), (tt, tt)))

no_quantile :
    new_prediction {Value = ℕ} (
      ("task_id", none)
      ∷ (
        "cpu",
        some (record { quantile = none; horizon_minutes = some []; preds = some (1 ∷ []) } ∷ []),
      )
      ∷ [])
    ≡ raise key_error
unfolding new_prediction
no_quantile = refl
