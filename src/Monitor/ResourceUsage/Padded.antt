-- ===== src/Monitor/ResourceUsage/Padded.antt =====
-- The usages of a request have one length.
use titus_isolate.Prelude.{
  ℕ, zero, suc, ◌+◌, ◌-◌, ◌≤◌, ◌≡◌, refl, ap, ◌∙◌, String, List, [], ◌∷◌, ◌++◌, Option, none, some,
  length, length-append, take, All, string_eq, Dict, lookup, insert, eq_cases, beq_ne, inl, inr,
  arith,
}
use titus_isolate.Monitor.ResourceUsage.{
  Usage, drop, repeat, new_deque, extendleft, pad_values, map_values, pad_usage,
  resource_usage_names, get_resource_usage_for_workload, add_usages, get_all_usage_for_workload,
}

module _ {Value : Type 0} (nan : Value) where
  take_all : (n : ℕ) (xs : List Value) → length xs ≤ n → take n xs ≡ xs
  take_all zero [] h = refl
  take_all zero (x ∷ xs) h = absurd (omega arith)
  take_all (suc n) [] h = refl
  take_all (suc n) (x ∷ xs) h = ap (◌∷◌ x) (take_all n xs (omega arith))

  repeat_shift : (k : ℕ) (d : List Value) → repeat nan k ++ nan ∷ d ≡ nan ∷ (repeat nan k ++ d)
  repeat_shift zero d = refl
  repeat_shift (suc k) d = ap (◌∷◌ nan) (repeat_shift k d)

  extendleft-repeat :
      (n k : ℕ) (d : List Value)
      → k + length d ≤ n
      → extendleft nan n (repeat nan k) d ≡ repeat nan k ++ d
  unfolding extendleft
  extendleft-repeat n zero d h = refl
  extendleft-repeat n (suc k) d h =
      ap (extendleft nan n (repeat nan k)) (take_all n (nan ∷ d) (omega arith))
      ∙ (extendleft-repeat n k (nan ∷ d) (omega arith) ∙ repeat_shift k d)

  length-drop : (n : ℕ) (xs : List Value) → length (drop nan n xs) ≡ length xs - n
  length-drop zero xs = omega arith
  length-drop (suc n) [] = omega arith
  length-drop (suc n) (x ∷ xs) = omega (arith, length-drop n xs)

  length-repeat : (n : ℕ) → length (repeat nan n) ≡ n
  length-repeat zero = refl
  length-repeat (suc n) = omega (arith, length-repeat n)

  -- A padded list is the last values of the list, after as many `nan` as are missing; its length is the
  -- one that is asked for.
  pub pad_values_lem :
      (n : ℕ) (values : List Value)
      → (pad_values nan n values
          ≡ repeat nan (n - length values) ++ drop nan (length values - n) values)
        × (length (pad_values nan n values) ≡ n)
  unfolding pad_values new_deque
  pad_values_lem n values =
      let k = n - length values in
      let d = drop nan (length values - n) values in
      let room : k + length d ≤ n = omega (arith, length-drop (length values - n) values) in
      let padded = extendleft-repeat n k d room in
      (
        padded,
        ap length padded
            ∙ omega (
              arith,
              length-append (repeat nan k) d,
              length-repeat k,
              length-drop (length values - n) values,
            ),
      )

  abbrev HasLength : ℕ → Option (List Value) → Type 0
  HasLength n none = Unit
  HasLength n (some values) = length values ≡ n

  workload-HasLength :
      (n : ℕ) (usages : Dict String (List Value)) (w : String)
      → HasLength n (lookup w (map_values nan (pad_values nan n) usages))
  workload-HasLength n [] w = tt
  workload-HasLength n ((v, values) ∷ usages) w = elim (eq_cases w v) [
    | inl same ↦ rw ((string_eq.beq_iff w v).1 same) (pad_values_lem n values).1
    | inr other ↦ rw (beq_ne w v other) (workload-HasLength n usages w)
  ]

  usage-HasLength :
      (usage : Usage nan) (n : ℕ) (r w : String)
      → HasLength n (get_resource_usage_for_workload nan (pad_usage nan usage n) r w)
  unfolding get_resource_usage_for_workload pad_usage
  usage-HasLength [] n r w = tt
  usage-HasLength ((name, usages) ∷ usage) n r w = elim (eq_cases r name) [
    | inl same ↦
        rw (get_resource_usage_for_workload, (string_eq.beq_iff r name).1 same)
          (workload-HasLength n usages w)
    | inr other ↦
        rw (get_resource_usage_for_workload, beq_ne r name other) (usage-HasLength usage n r w)
  ]

  abbrev pub AllLength : ℕ → Dict String (List Value) → Type 0
  AllLength n = All (λ (e : String × List Value). length e.1 ≡ n)

  insert-AllLength :
      (n : ℕ) (k : String) (values : List Value) (d : Dict String (List Value))
      → length values ≡ n
      → AllLength n d
      → AllLength n (insert k values d)
  insert-AllLength n k values [] h a = (h, tt)
  insert-AllLength n k values ((j, u) ∷ d) h a = elim (eq_cases k j) [
    | inl same ↦ rw ((string_eq.beq_iff k j).1 same) (h, a.1)
    | inr other ↦ rw (beq_ne k j other) (a.0, insert-AllLength n k values d h a.1)
  ]

  add_usages-AllLength :
      (usage : Usage nan) (n : ℕ) (w : String) (names : List String) (d : Dict String (List Value))
      → AllLength n d
      → AllLength n (add_usages nan (pad_usage nan usage n) w names d)
  unfolding add_usages
  add_usages-AllLength usage n w [] d a = a
  add_usages-AllLength usage n w (name ∷ names) d a = add_usages-AllLength usage n w names _ (
      go (get_resource_usage_for_workload nan (pad_usage nan usage n) name w)
        (usage-HasLength usage n name w))
    where
      go :
          (o : Option (List Value))
          → HasLength n o
          → AllLength n (elim o [ none ↦ d | some usage ↦ insert name usage d ])
      go none h = a
      go (some values) h = insert-AllLength n name values d h a

  -- Every list that GlobalResourceUsage gives out for a workload has just usage_length values.
  pub get_all_usage_for_workload-AllLength :
      (usage : Usage nan) (usage_length : ℕ) (workload_id : String)
      → AllLength usage_length
          (get_all_usage_for_workload nan (pad_usage nan usage usage_length) workload_id)
  unfolding get_all_usage_for_workload
  get_all_usage_for_workload-AllLength usage usage_length workload_id =
      add_usages-AllLength usage usage_length workload_id (resource_usage_names nan) [] tt
