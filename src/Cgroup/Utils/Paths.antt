-- ===== src/Cgroup/Utils/Paths.antt =====
-- The rows of `/proc/self/cgroup` as they are kept for a container, and the path that is found in them.
use titus_isolate.Prelude.{
  ◌≡◌, refl, sym, ap, ◌∙◌, List, [], ◌∷◌, ◌++◌, map, All, Dict, lookup, ok, eq_cases, beq_ne,
  beq_refl, inl, inr, arith,
}
use titus_isolate.Text.{Text, text_eq, split}
use titus_isolate.Text.Decimal.{IsVisible, strip-line}
use titus_isolate.Text.Parts.{Lacks, split-Lacks, split-append}
use titus_isolate.Cgroup.Utils.{get_cgroup_path_from_list}

-- A row `id:name:path`.
pub record Row : Type 0 where
  pub hierarchy : Text
  pub name : Text
  pub path : Text

abbrev pub row_text : Row → Text
row_text r = r.hierarchy ++ b':' ∷ (r.name ++ b':' ∷ (r.path ++ b'\n' ∷ []))

-- What a row is made of holds no colon, and its path no white space.
abbrev pub IsPlain : Row → Type 0
IsPlain r = Lacks b':' r.hierarchy × Lacks b':' r.name × Lacks b':' r.path × All IsVisible r.path

abbrev pub by_name : List Row → Dict Text Text
by_name [] = []
by_name (r ∷ rs) = (r.name, r.path) ∷ by_name rs

Lacks-line : (p : Text) → Lacks b':' p → Lacks b':' (p ++ b'\n' ∷ [])
Lacks-line [] h = (omega arith, tt)
Lacks-line (c ∷ p) h = (h.0, Lacks-line p h.1)

split-row :
    (r : Row)
    → IsPlain r
    → split b':' (row_text r) ≡ r.hierarchy ∷ r.name ∷ (r.path ++ b'\n' ∷ []) ∷ []
split-row r (h, n, p, v) =
    split-append b':' r.hierarchy (r.name ++ b':' ∷ (r.path ++ b'\n' ∷ [])) h
    ∙ ap (◌∷◌ r.hierarchy) (
        split-append b':' r.name (r.path ++ b'\n' ∷ []) n
        ∙ ap (◌∷◌ r.name) (split-Lacks b':' (r.path ++ b'\n' ∷ []) (Lacks-line r.path p)))

-- In rows `id:name:path` whose parts hold no colon, and whose paths no white space, the path that is
-- found for a cgroup is the path of the first row of that name, and None if no row has the name.
pub get_cgroup_path_from_list_lem :
    (rows : List Row) (cgroup_name : Text)
    → All IsPlain rows
    → get_cgroup_path_from_list (map row_text rows) cgroup_name
      ≡ ok (lookup cgroup_name (by_name rows))
unfolding get_cgroup_path_from_list
get_cgroup_path_from_list_lem [] cgroup_name h = refl
get_cgroup_path_from_list_lem (r ∷ rows) cgroup_name h =
    let (a, b, c, v) = h.0 in
    let parts = split-row r h.0 in
    elim (eq_cases cgroup_name r.name) [
      | inl same ↦ rw (parts, same, beq_refl r.name, strip-line r.path v) refl
      | inr other ↦
          rw
            (parts, beq_ne r.name cgroup_name (λ p. other (sym p)), beq_ne cgroup_name r.name other)
            (get_cgroup_path_from_list_lem rows cgroup_name h.1)
    ]
