-- ===== src/Monitor/ResourceUsage.antt =====
-- titus_isolate/monitor/resource_usage.py: GlobalResourceUsage. Floats, their texts and `nan` are
-- parameters. A loop that gives each key of a dict a new value under the same key is a map, since the
-- keys of a dict differ.
pub mod Padded
pub mod RoundTrip
mod Tests
use titus_isolate.Prelude.{
  ℕ, zero, suc, ◌-◌, String, List, [], ◌∷◌, Option, none, some, map, length, take, string_eq, Dict,
  lookup, insert,
}

module _ {Value : Type 0} (nan : Value) where
  abbrev pub Usage : Type 0
  Usage = Dict String (Dict String (List Value))

  abbrev pub drop : ℕ → List Value → List Value
  drop zero xs = xs
  drop (suc n) [] = []
  drop (suc n) (x ∷ xs) = drop n xs

  abbrev pub repeat : ℕ → List Value
  repeat zero = []
  repeat (suc n) = nan ∷ repeat n

  -- `deque(values, maxlen=usage_length)` keeps the last values.
  unfoldable pub new_deque : List Value → ℕ → List Value
  new_deque values usage_length = drop (length values - usage_length) values

  -- `d.extendleft(pad)`: a full deque loses its last value.
  unfoldable pub extendleft : ℕ → List Value → List Value → List Value
  extendleft usage_length [] d = d
  extendleft usage_length (v ∷ pad) d = extendleft usage_length pad (take usage_length (v ∷ d))

  unfoldable pub pad_values : ℕ → List Value → List Value
  unfolding new_deque extendleft
  pad_values usage_length values =
      extendleft usage_length (repeat (usage_length - length values))
        (new_deque values usage_length)

  abbrev pub map_values {ℓ κ} : {A : Type ℓ} {B : Type κ} → (A → B) → Dict String A → Dict String B
  map_values f [] = []
  map_values f ((k, v) ∷ d) = (k, f v) ∷ map_values f d

  -- `pad_usage(usage, usage_length)`
  unfoldable pub pad_usage : Usage → ℕ → Usage
  unfolding pad_values
  pad_usage usage usage_length =
      map_values (λ workload_usage. map_values (pad_values usage_length) workload_usage) usage

  abbrev pub resource_usage_names : List String
  resource_usage_names =
      "cpu_usage" ∷ "mem_usage" ∷ "net_recv_usage" ∷ "net_trans_usage" ∷ "disk_usage" ∷ []

  unfoldable pub get_resource_usage_for_workload : Usage → String → String → Option (List Value)
  get_resource_usage_for_workload usages resource_name workload_id =
      elim (lookup resource_name usages) [ none ↦ none | some usage ↦ lookup workload_id usage ]

  -- The loop of `get_all_usage_for_workload` over the resource names.
  unfoldable pub add_usages :
      Usage → String → List String → Dict String (List Value) → Dict String (List Value)
  unfolding get_resource_usage_for_workload
  add_usages map_of workload_id [] usages = usages
  add_usages map_of workload_id (name ∷ names) usages =
      add_usages map_of workload_id names
        (elim (get_resource_usage_for_workload map_of name workload_id) [
          | none ↦ usages
          | some usage ↦ insert name usage usages
        ])

  unfoldable pub get_all_usage_for_workload : Usage → String → Dict String (List Value)
  unfolding add_usages
  get_all_usage_for_workload map_of workload_id =
      add_usages map_of workload_id resource_usage_names []

  module _ (print : Value → String) (parse : String → Value) where
    unfoldable pub serialize : Usage → Dict String (Dict String (List String))
    serialize map_of = map_values (λ usages. map_values (λ values. map print values) usages) map_of

    -- `usage_length` after the loops: the length of the last list, or what it was before.
    unfoldable pub last_length : ℕ → Dict String (List String) → ℕ
    last_length n [] = n
    last_length n ((w_id, values) ∷ usages) = last_length (length values) usages

    unfoldable pub last_lengths : ℕ → Dict String (Dict String (List String)) → ℕ
    unfolding last_length
    last_lengths n [] = n
    last_lengths n ((r_type, usages) ∷ s_map) = last_lengths (last_length n usages) s_map

    -- `deserialize_global_resource_usage(s_map)`
    unfoldable pub deserialize : Dict String (Dict String (List String)) → Usage
    unfolding pad_usage last_lengths
    deserialize s_map =
        pad_usage (map_values (λ usages. map_values (λ values. map parse values) usages) s_map)
          (last_lengths 60 s_map)
