-- ===== src/Monitor/Prometheus.antt =====
-- titus_isolate/monitor/prom_resource_usage_provider.py: the answers of Prometheus. Floats, their
-- product and `float` are parameters, and so are the answers to the queries, whose texts and URL are left out.
pub mod Series
mod Tests
use titus_isolate.Prelude.{
  ℕ, String, Bool, true, false, List, [], ◌∷◌, ◌++◌, none, some, if◌then◌else◌, nat_beq, Result, ok,
  raise, index_error, ◌>>=◌,
}
use titus_isolate.Json.{
  Json, Items, nil, cons, Fields, as_object, as_array, as_text, find, get_field, read_items,
  read_each,
}
use titus_isolate.Monitor.Collected.{ResourceUsage}

-- `k in body`
abbrev pub has_field : String → Json → Result Bool
has_field k body = as_object body >>= λ fs. ok (elim (find k fs) [ none ↦ false | some v ↦ true ])

-- `len(items) != 0`
abbrev pub is_filled : Items → Bool
is_filled nil = false
is_filled (cons j js) = true

abbrev pub first : Items → Result Json
first nil = raise index_error
first (cons j js) = ok j

abbrev pub second : Items → Result Json
second nil = raise index_error
second (cons j nil) = raise index_error
second (cons j (cons k js)) = ok k

abbrev pub task_id_label : String
task_id_label = "v3_job_titus_netflix_com_task_id"

unfoldable pub validate_prom_response : Json → Result Bool
validate_prom_response resp = has_field "data" resp >>= λ with_data. elim with_data [
  | false ↦ ok false
  | true ↦ get_field "data" resp >>= λ data_. has_field "result" data_ >>= λ with_result.
      elim with_result [
        | false ↦ ok false
        | true ↦ get_field "result" data_ >>= as_array >>= λ result. ok (is_filled result)
      ]
]

unfoldable pub validate_result : Json → Result Bool
validate_result result = has_field "metric" result >>= λ with_metric. elim with_metric [
  | false ↦ ok false
  | true ↦ get_field "metric" result >>= λ metric. has_field task_id_label metric >>= λ with_id.
      elim with_id [
        | false ↦ ok false
        | true ↦ has_field "values" result >>= λ with_values. elim with_values [
          | false ↦ ok false
          | true ↦ get_field "values" result >>= as_array >>= λ values. ok (is_filled values)
        ]
      ]
]

module _ {Value : Type 0} (float : Json → Result Value) (times : Value → Value → Value) where
  -- `float(ts_val[1]) * scale`
  abbrev pub read_value : Value → Json → Result Value
  read_value scale ts_val = as_array ts_val >>= second >>= float >>= λ value. ok (times value scale)

  -- A result that is valid.
  unfoldable pub read_result : String → Value → Json → Result (ResourceUsage Value)
  read_result resource scale r =
      get_field "metric" r >>= get_field task_id_label >>= as_text >>= λ task_id.
      get_field "values" r >>= as_array >>= λ raw_values.
      first raw_values >>= as_array >>= first >>= λ start_ts.
      read_items (read_value scale) raw_values >>= λ values. ok (record {
        workload_id = task_id;
        resource_name = resource;
        start_time_epoch_sec = start_ts;
        interval_sec = 60;
        values = values;
      })

  -- The loop over the results; one that is not valid is logged and left out.
  unfoldable pub read_results : String → Value → Items → Result (List (ResourceUsage Value))
  unfolding validate_result read_result
  read_results resource scale nil = ok []
  read_results resource scale (cons r results) = validate_result r >>= λ valid. elim valid [
    | false ↦ read_results resource scale results
    | true ↦ read_result resource scale r >>= λ usage.
        read_results resource scale results >>= λ usages. ok (usage ∷ usages)
  ]

  unfoldable pub parse_prom_response : String → Json → Value → Result (List (ResourceUsage Value))
  unfolding validate_prom_response read_results
  parse_prom_response resource resp scale = validate_prom_response resp >>= λ valid. elim valid [
    | false ↦ ok []
    | true ↦ get_field "data" resp >>= get_field "result" >>= as_array >>= λ results.
        read_results resource scale results
  ]

  -- `__get_usages`, with the status code and the body of the answer; `resp.json()` may raise.
  unfoldable pub get_usages :
      Result (ℕ × Result Json) → String → Value → Result (List (ResourceUsage Value))
  unfolding parse_prom_response
  get_usages answer resource scale = answer >>= λ (status_code, body).
      if nat_beq status_code 200
      then (body >>= λ resp. parse_prom_response resource resp scale)
      else ok []

  -- `get_resource_usages`, with the answer to the query of each resource and the scales.
  unfoldable pub get_resource_usages :
      (String → Result (ℕ × Result Json)) → (nano one : Value) → Result (List (ResourceUsage Value))
  unfolding get_usages
  get_resource_usages ask nano one = get_usages (ask "cpu_usage") "cpu_usage" nano >>= λ cpu.
      get_usages (ask "mem_usage") "mem_usage" one >>= λ mem.
      get_usages (ask "net_recv_usage") "net_recv_usage" one >>= λ net_recv.
      get_usages (ask "net_trans_usage") "net_trans_usage" one >>= λ net_trans.
      get_usages (ask "disk_usage") "disk_usage" one >>= λ disk.
      ok ((((cpu ++ mem) ++ net_recv) ++ net_trans) ++ disk)
