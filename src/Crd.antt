-- ===== src/Crd.antt =====
-- titus_isolate/crd/model/resource_usage_prediction.py: the predictions of the tasks of a node and their sum.
-- Floats and their sum are parameters; a raw prediction is a dict that may lack a key.
pub mod Condensed
pub mod Resources
pub mod Predictions
pub mod Object
mod Tests
use titus_isolate.Prelude.{
  String, List, [], ◌∷◌, Option, none, some, if◌then◌else◌, contains, string_eq, Dict, lookup,
  insert, Result, ok, raise, key_error, index_error, ◌>>=◌,
}

abbrev or_key_error {ℓ} : {A : Type ℓ} → Option A → Result A
or_key_error none = raise key_error
or_key_error (some a) = ok a

pub record ResourceTypeUsagePrediction (Value : Type 0) : Type 0 where
  pub horizon_minutes : Dict String (List String)
  pub predictions : Dict String (List Value)

pub record ResourceUsagePrediction (Value : Type 0) : Type 0 where
  pub resource_type_predictions : Dict String (ResourceTypeUsagePrediction Value)

-- One of the raw predictions of a resource.
pub record RawPrediction (Value : Type 0) : Type 0 where
  pub quantile : Option String
  pub horizon_minutes : Option (List String)
  pub preds : Option (List Value)

abbrev pub resource_keys : List String
resource_keys = "cpu" ∷ "memMB" ∷ "net_transMbps" ∷ "net_recvMbps" ∷ []

module _ {Value : Type 0} where
  -- The loop of the constructor of `ResourceTypeUsagePrediction`.
  unfoldable pub read_raw :
      List (RawPrediction Value)
      → ResourceTypeUsagePrediction Value
      → Result (ResourceTypeUsagePrediction Value)
  read_raw [] self = ok self
  read_raw (p ∷ ps) self = or_key_error p.quantile >>= λ quantile.
      or_key_error p.horizon_minutes >>= λ horizon_minutes. or_key_error p.preds >>= λ preds.
      read_raw ps (record {
        horizon_minutes = insert quantile horizon_minutes self.horizon_minutes;
        predictions = insert quantile preds self.predictions;
      })

  unfoldable pub new_type_prediction :
      Option (List (RawPrediction Value)) → Result (ResourceTypeUsagePrediction Value)
  unfolding read_raw
  new_type_prediction none = ok (record { horizon_minutes = []; predictions = [] })
  new_type_prediction (some raw) = read_raw raw (record { horizon_minutes = []; predictions = [] })

  -- The loop of the constructor of `ResourceUsagePrediction`: other keys of the dict are passed over.
  unfoldable pub read_types :
      Dict String (Option (List (RawPrediction Value)))
      → Dict String (ResourceTypeUsagePrediction Value)
      → Result (Dict String (ResourceTypeUsagePrediction Value))
  unfolding new_type_prediction
  read_types [] d = ok d
  read_types ((k, v) ∷ raw) d =
      if contains resource_keys k
      then (new_type_prediction v >>= λ p. read_types raw (insert k p d))
      else read_types raw d

  unfoldable pub new_prediction :
      Dict String (Option (List (RawPrediction Value))) → Result (ResourceUsagePrediction Value)
  unfolding read_types
  new_prediction raw =
      read_types raw [] >>= λ types. ok (record { resource_type_predictions = types })

module _ {Value : Type 0} (plus : Value → Value → Value) where
  unfoldable pub add_values : List Value → List Value → Result (List Value)
  add_values [] ys = ok []
  add_values (x ∷ xs) [] = raise index_error
  add_values (x ∷ xs) (y ∷ ys) = add_values xs ys >>= λ zs. ok (plus x y ∷ zs)

  -- The inner loop: where there are no values, the other dict is not asked.
  unfoldable pub add_at : List Value → Option (List Value) → Result (List Value)
  unfolding add_values
  add_at [] other = ok []
  add_at (x ∷ xs) none = raise key_error
  add_at (x ∷ xs) (some ys) = add_values (x ∷ xs) ys

  unfoldable pub add_quantiles :
      Dict String (List Value) → Dict String (List Value) → Result (Dict String (List Value))
  unfolding add_at
  add_quantiles [] other = ok []
  add_quantiles ((percentile, xs) ∷ d) other = add_at xs (lookup percentile other) >>= λ sums.
      add_quantiles d other >>= λ rest. ok ((percentile, sums) ∷ rest)

  -- `ResourceTypeUsagePrediction.add`, on a copy of the first.
  unfoldable pub add_type :
      ResourceTypeUsagePrediction Value
      → Option (ResourceTypeUsagePrediction Value)
      → Result (ResourceTypeUsagePrediction Value)
  unfolding add_quantiles
  add_type self none = ok self
  add_type self (some other) = add_quantiles self.predictions other.predictions >>= λ sums.
      ok (record self { predictions = sums })

  unfoldable pub add_types :
      Dict String (ResourceTypeUsagePrediction Value)
      → Dict String (ResourceTypeUsagePrediction Value)
      → Result (Dict String (ResourceTypeUsagePrediction Value))
  unfolding add_type
  add_types [] other = ok []
  add_types ((res_type, p) ∷ d) other = or_key_error (lookup res_type other) >>= λ q.
      add_type p (some q) >>= λ sum. add_types d other >>= λ rest. ok ((res_type, sum) ∷ rest)

  -- `ResourceUsagePrediction.add`
  unfoldable pub add :
      ResourceUsagePrediction Value
      → Option (ResourceUsagePrediction Value)
      → Result (ResourceUsagePrediction Value)
  unfolding add_types
  add self none = ok self
  add self (some other) =
      add_types self.resource_type_predictions other.resource_type_predictions >>= λ sums.
      ok (record { resource_type_predictions = sums })

  unfoldable pub add_all :
      ResourceUsagePrediction Value
      → List (ResourceUsagePrediction Value)
      → Result (ResourceUsagePrediction Value)
  unfolding add
  add_all out [] = ok out
  add_all out (p ∷ ps) = add out (some p) >>= λ sum. add_all sum ps

  -- `__condense_predictions`
  unfoldable pub condense_predictions :
      List (ResourceUsagePrediction Value) → Result (ResourceUsagePrediction Value)
  unfolding add_all
  condense_predictions [] = ok (record { resource_type_predictions = [] })
  condense_predictions (p ∷ ps) = add_all p ps
