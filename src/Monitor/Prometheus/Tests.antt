-- ===== src/Monitor/Prometheus/Tests.antt =====
-- An answer with three series, one of them without a task and one without a sample.
use titus_isolate.Prelude.{
  ℕ, ◌≡◌, refl, ◌*◌, true, false, Bool-cases, inl, inr, String, List, [], ◌∷◌, none, some,
  concat_map, ◌==◌, string_eq, nat_beq, if◌then◌else◌, Result, ok, raise, key_error, value_error,
  ◌>>=◌, pos, negsuc, arith,
}
use titus_isolate.Json.{
  Json, Items, Fields, decimal, text, array, object, nil, cons, entry, end, as_text,
}
use titus_isolate.Text.{codes, int}
use titus_isolate.Monitor.Prometheus.{task_id_label, get_resource_usages, validate_prom_response}
use titus_isolate.Monitor.Prometheus.Series.{
  Series, Shows, usages_of, resource_names, get_resource_usages-series,
}

abbrev first_time : Json
first_time = decimal "1604698494.296"

abbrev second_time : Json
second_time = decimal "1604698554.296"

abbrev series : List Series
series =
    (some "a", (first_time, text "3") ∷ (second_time, text "4") ∷ [])
    ∷ (none, (first_time, text "5") ∷ [])
    ∷ (some "b", [])
    ∷ []

-- `float` of a text with a natural number.
abbrev float : Json → Result ℕ
float j =
    as_text j >>= λ t. int (codes t) >>= λ z. elim z [ pos n ↦ ok n | negsuc n ↦ raise value_error ]

abbrev or_zero : Result ℕ → ℕ
or_zero (ok n) = n
or_zero (raise e) = 0

abbrev value : Json → ℕ
value j = or_zero (float j)

abbrev sample : Json → String → Json
sample time v = array (cons time (cons (text v) nil))

abbrev result_of : Fields → Items → Json
result_of labels samples = object (
    entry "metric"
      (object
        (entry "instance" (text "i-abc123") (entry "job" (text "agent-otel-ml-pipeline") labels)))
      (entry "values" (array samples) end))

-- An answer as the service gives it.
abbrev answer : Json
answer = object (
    entry "status" (text "success") (
      entry "data"
        (object (
          entry "resultType" (text "matrix") (
            entry "result"
              (array (
                cons
                  (result_of (entry task_id_label (text "a") end)
                    (cons (sample first_time "3") (cons (sample second_time "4") nil)))
                  (cons (result_of end (cons (sample first_time "5") nil))
                    (cons (result_of (entry task_id_label (text "b") end) nil) nil))))
              end)))
        end))

answer-Shows : Shows answer series
answer-Shows = (
  _,
  _,
  _,
  refl,
  refl,
  refl,
  (
    (_, _, refl, refl, refl, refl),
    ((_, _, refl, refl, refl, refl), ((_, _, refl, refl, refl, refl), tt)),
  ),
)

abbrev code : String → ℕ
code r = if r == "disk_usage" then 503 else 200

abbrev body : String → Result Json
body r = if r == "disk_usage" then raise key_error else ok answer

body-code :
    (r : String) → nat_beq (code r) 200 ≡ true → (j : Json) × (body r ≡ ok j) × Shows j series
body-code r h = elim (Bool-cases (r == "disk_usage")) [
  | inl disk ↦ absurd (ground (arith, disk, h))
  | inr other ↦ (answer, rw other refl, answer-Shows)
]

get_resource_usages-series_example :
    get_resource_usages float (λ a b. a * b) (λ r. ok (code r, body r)) 10 1
    ≡ ok (
        concat_map
          (λ r.
            if nat_beq (code r) 200
            then usages_of float (λ a b. a * b) value r (if r == "cpu_usage" then 10 else 1) series
            else [])
          resource_names)
unfolding int
get_resource_usages-series_example =
    get_resource_usages-series float (λ a b. a * b) value 10 1 code body (λ r. series)
      (λ r. ((refl, (refl, tt)), ((refl, tt), (tt, tt)))) body-code

no_data : validate_prom_response (object end) ≡ ok false
unfolding validate_prom_response
no_data = refl
