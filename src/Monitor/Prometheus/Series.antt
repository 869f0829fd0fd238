-- ===== src/Monitor/Prometheus/Series.antt =====
-- Answers of Prometheus, and the usages that are read from them.
use titus_isolate.Prelude.{
  ℕ, ◌≡◌, ◌⊎◌, false, refl, ap, String, true, List, [], ◌∷◌, ◌++◌, Option, none, some, map, All,
  concat_map, ◌==◌, string_eq, nat_beq, if◌then◌else◌, Bool-cases, inl, inr, Result, ok,
}
use mathlib.Core.List.{append_assoc, append-nil}
use titus_isolate.Json.{Json, Items, Fields, text, array, object, nil, cons, find, each, read_items}
use titus_isolate.Monitor.Collected.{ResourceUsage}
use titus_isolate.Monitor.Prometheus.{
  task_id_label, validate_prom_response, validate_result, read_value, read_result, read_results,
  parse_prom_response, get_usages, get_resource_usages,
}

-- A series of an answer: the task it is labelled with, and its times and values.
abbrev pub Series : Type 0
Series = Option String × List (Json × Json)

abbrev sample_json : Json × Json → Json
sample_json (ts, value) = array (cons ts (cons value nil))

abbrev label_json : Option String → Option Json
label_json none = none
label_json (some task_id) = some (text task_id)

-- A result that shows a series, among other fields and labels.
abbrev pub ShowsResult : Json → Series → Type 0
ShowsResult r s =
    (fields : Fields) × (labels : Fields) × (r ≡ object fields)
    × (find "metric" fields ≡ some (object labels))
    × (find task_id_label labels ≡ label_json s.0)
    × (find "values" fields ≡ some (array (each sample_json s.1)))

abbrev pub ShowsResults : Items → List Series → Type 0
ShowsResults nil [] = Unit
ShowsResults nil (s ∷ series) = ⊥
ShowsResults (cons r results) [] = ⊥
ShowsResults (cons r results) (s ∷ series) = ShowsResult r s × ShowsResults results series

-- A body that shows some series, in order, among other fields.
abbrev pub Shows : Json → List Series → Type 0
Shows body series =
    (fields : Fields) × (data_fields : Fields) × (results : Items) × (body ≡ object fields)
    × (find "data" fields ≡ some (object data_fields))
    × (find "result" data_fields ≡ some (array results))
    × ShowsResults results series

-- The resources, in the order of the queries.
abbrev pub resource_names : List String
resource_names =
    "cpu_usage" ∷ "mem_usage" ∷ "net_recv_usage" ∷ "net_trans_usage" ∷ "disk_usage" ∷ []

module _ {Value : Type 0} (float : Json → Result Value) (times : Value → Value → Value)
    (value : Json → Value) where
  abbrev scaled : Value → List (Json × Json) → List Value
  scaled scale samples = map (λ (s : Json × Json). times (value s.1) scale) samples

  -- The usages of the series that have a task and a sample.
  abbrev pub usages_of : String → Value → List Series → List (ResourceUsage Value)
  usages_of resource scale [] = []
  usages_of resource scale ((none, samples) ∷ series) = usages_of resource scale series
  usages_of resource scale ((some task_id, []) ∷ series) = usages_of resource scale series
  usages_of resource scale ((some task_id, s ∷ samples) ∷ series) =
      record {
        workload_id = task_id;
        resource_name = resource;
        start_time_epoch_sec = s.0;
        interval_sec = 60;
        values = scaled scale (s ∷ samples);
      }
      ∷ usages_of resource scale series

  -- `float` takes every value of the series.
  abbrev pub AllFloats : List Series → Type 0
  AllFloats = All (λ (s : Series). All (λ (p : Json × Json). float p.1 ≡ ok (value p.1)) s.1)

  values-scaled :
      (scale : Value) (samples : List (Json × Json))
      → All (λ (p : Json × Json). float p.1 ≡ ok (value p.1)) samples
      → read_items (read_value float times scale) (each sample_json samples)
        ≡ ok (scaled scale samples)
  values-scaled scale [] h = refl
  values-scaled scale ((ts, v) ∷ samples) h = rw (h.0, values-scaled scale samples h.1) refl

  -- A result without a task or without a sample is left out.
  validate_result-off :
      (r : Json) (s : Series)
      → ShowsResult r s
      → (s.0 ≡ none) ⊎ (s.1 ≡ [])
      → validate_result r ≡ ok false
  unfolding validate_result
  validate_result-off r (task, samples) (fields, labels, is, metric, label, values) (inl e) =
      rw (is, metric, is, metric, label, e) refl
  validate_result-off r (none, samples) (fields, labels, is, metric, label, values) (inr e) =
      rw (is, metric, is, metric, label) refl
  validate_result-off r (some t, samples) (fields, labels, is, metric, label, values) (inr e) =
      rw (is, metric, is, metric, label, is, values, is, values, e) refl

  read_result-series :
      (resource : String) (scale : Value) (r : Json) (task_id : String) (s : Json × Json)
      (samples : List (Json × Json))
      → ShowsResult r (some task_id, s ∷ samples)
      → All (λ (p : Json × Json). float p.1 ≡ ok (value p.1)) (s ∷ samples)
      → (validate_result r ≡ ok true)
        × (read_result float times resource scale r
            ≡ ok (record {
              workload_id = task_id;
              resource_name = resource;
              start_time_epoch_sec = s.0;
              interval_sec = 60;
              values = scaled scale (s ∷ samples);
            }))
  unfolding validate_result read_result
  read_result-series resource scale r task_id (ts, v) samples
        (fields, labels, is, metric, label, values) h =
      (
        rw (is, metric, is, metric, label, is, values, is, values) refl,
        rw (is, metric, label, values, h.0, values-scaled scale samples h.1) refl,
      )

  read_results-series :
      (resource : String) (scale : Value) (results : Items) (series : List Series)
      → ShowsResults results series
      → AllFloats series
      → read_results float times resource scale results ≡ ok (usages_of resource scale series)
  unfolding read_results
  read_results-series resource scale nil [] shows h = refl
  read_results-series resource scale nil (s ∷ series) shows h = absurd shows
  read_results-series resource scale (cons r results) [] shows h = absurd shows
  read_results-series resource scale (cons r results) ((none, samples) ∷ series) shows h =
      rw (validate_result-off r (none, samples) shows.0 (inl refl))
        (read_results-series resource scale results series shows.1 h.1)
  read_results-series resource scale (cons r results) ((some task_id, []) ∷ series) shows h =
      rw (validate_result-off r (some task_id, []) shows.0 (inr refl))
        (read_results-series resource scale results series shows.1 h.1)
  read_results-series resource scale (cons r results) ((some task_id, s ∷ samples) ∷ series) shows
        h =
      let (valid, read) = read_result-series resource scale r task_id s samples shows.0 h.0 in
      rw (valid, read, read_results-series resource scale results series shows.1 h.1) refl

  parse_prom_response-series :
      (resource : String) (scale : Value) (body : Json) (series : List Series)
      → Shows body series
      → AllFloats series
      → parse_prom_response float times resource body scale ≡ ok (usages_of resource scale series)
  unfolding parse_prom_response validate_prom_response read_results
  parse_prom_response-series resource scale body []
        (fields, data_fields, nil, is, with_data, with_result, shows) h =
      rw (is, with_data, is, with_data, with_result, with_result) refl
  parse_prom_response-series resource scale body (s ∷ series)
        (fields, data_fields, nil, is, with_data, with_result, shows) h =
      absurd shows
  parse_prom_response-series resource scale body series
        (fields, data_fields, cons r results, is, with_data, with_result, shows) h =
      rw (is, with_data, is, with_data, with_result, with_result, is, with_data, with_result)
        (read_results-series resource scale (cons r results) series shows h)

  get_usages-series :
      (code : ℕ) (resource : String) (scale : Value) (series : List Series) (answer : Result Json)
      → AllFloats series
      → (nat_beq code 200 ≡ true → (body : Json) × (answer ≡ ok body) × Shows body series)
      → get_usages float times (ok (code, answer)) resource scale
        ≡ ok (if nat_beq code 200 then usages_of resource scale series else [])
  unfolding get_usages
  get_usages-series code resource scale series answer h b = elim (Bool-cases (nat_beq code 200)) [
    | inl found_it ↦
        let (body, is, shows) = b found_it in
        rw (found_it, is, parse_prom_response-series resource scale body series shows h) refl
    | inr refused ↦ rw refused refl
  ]

  -- If the service answers every query, and where the status is 200 with a body that shows, whatever else is
  -- in it, series whose values `float` takes, then get_resource_usages returns, resource by resource, the
  -- usages of the series that have a task and a sample: from the first time on, with the values scaled.
  -- The resources with another status are left out.
  pub get_resource_usages-series :
      (nano one : Value) (code : String → ℕ) (body : String → Result Json)
      (series : String → List Series)
      → ((r : String) → AllFloats (series r))
      → ((r : String)
          → nat_beq (code r) 200 ≡ true
          → (j : Json) × (body r ≡ ok j) × Shows j (series r))
      → get_resource_usages float times (λ r. ok (code r, body r)) nano one
        ≡ ok (
            concat_map
              (λ r.
                if nat_beq (code r) 200
                then usages_of r (if r == "cpu_usage" then nano else one) (series r)
                else [])
              resource_names)
  unfolding get_resource_usages
  get_resource_usages-series nano one code body series h b =
      let at = λ (r : String) (scale : Value).
        get_usages-series (code r) r scale (series r) (body r) (h r) (b r) in
      rw
        (
          at "cpu_usage" nano,
          at "mem_usage" one,
          at "net_recv_usage" one,
          at "net_trans_usage" one,
          at "disk_usage" one,
        )
        (ap ok (
          regroup (used "cpu_usage" nano) (used "mem_usage" one) (used "net_recv_usage" one)
            (used "net_trans_usage" one) (used "disk_usage" one)))
    where
      used : String → Value → List (ResourceUsage Value)
      used r scale = if nat_beq (code r) 200 then usages_of r scale (series r) else []

      regroup :
          (a b c d e : List (ResourceUsage Value))
          → (((a ++ b) ++ c) ++ d) ++ e ≡ a ++ (b ++ (c ++ (d ++ (e ++ []))))
      regroup a b c d e = simp (append_assoc, append-nil) refl
