-- ===== src/Monitor/Collected/Latest.antt =====
-- Which usage the dict has.
use titus_isolate.Prelude.{
  ◌≡◌, refl, ap, ◌∙◌, String, List, [], ◌∷◌, Option, none, some, ◌==◌, ◌&&◌, string_eq, beq_refl,
  beq_ne, eq_cases, inl, inr, map, if◌then◌else◌, Dict, lookup, insert, lookup-insert_self,
  lookup-insert_ne,
}
use titus_isolate.Monitor.Collected.{ResourceUsage, or_empty, add_usages, resource_usages_to_dict}

-- The texts under a resource name and a workload id.
abbrev pub texts_at :
    String → String → Dict String (Dict String (List String)) → Option (List String)
texts_at r w d = lookup w (or_empty (lookup r d))

module _ {Value : Type 0} (print : Value → String) where
  -- The texts of the last usage with a resource name and a workload id, or what there was before.
  abbrev pub latest :
      String → String → List (ResourceUsage Value) → Option (List String) → Option (List String)
  latest r w [] before = before
  latest r w (u ∷ usages) before =
      latest r w usages
        (if r == u.resource_name && w == u.workload_id then some (map print u.values) else before)

  insert-texts :
      (r w name id : String) (texts : List String) (d : Dict String (Dict String (List String)))
      → texts_at r w (insert name (insert id texts (or_empty (lookup name d))) d)
        ≡ (if r == name && w == id then some texts else texts_at r w d)
  insert-texts r w name id texts d = elim (eq_cases r name) [
    | inr other ↦
        rw
          (
            beq_ne r name other,
            lookup-insert_ne r name (insert id texts (or_empty (lookup name d))) d other,
          )
          refl
    | inl same ↦
        rw
          (
            same,
            lookup-insert_self name (insert id texts (or_empty (lookup name d))) d,
            beq_refl name,
          )
          (elim (eq_cases w id) [
            | inl e ↦
                rw (e, lookup-insert_self id texts (or_empty (lookup name d)), beq_refl id) refl
            | inr ne ↦
                rw (beq_ne w id ne, lookup-insert_ne w id texts (or_empty (lookup name d)) ne) refl
          ])
  ]

  add_usages-latest :
      (r w : String) (usages : List (ResourceUsage Value))
      (d : Dict String (Dict String (List String)))
      → texts_at r w (add_usages print usages d) ≡ latest r w usages (texts_at r w d)
  unfolding add_usages
  add_usages-latest r w [] d = refl
  add_usages-latest r w (u ∷ usages) d =
      add_usages-latest r w usages _
      ∙ ap (latest r w usages)
          (insert-texts r w u.resource_name u.workload_id (map print u.values) d)

  -- The dict of a list of usages has, under a resource name and a workload id, the texts of the values of
  -- the last usage with both, and nothing where there is none.
  resource_usages_to_dict-latest :
      (r w : String) (usages : List (ResourceUsage Value))
      → texts_at r w (resource_usages_to_dict print usages) ≡ latest r w usages none
  unfolding resource_usages_to_dict
  resource_usages_to_dict-latest r w usages = add_usages-latest r w usages []
