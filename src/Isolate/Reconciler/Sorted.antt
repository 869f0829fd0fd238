-- ===== src/Isolate/Reconciler/Sorted.antt =====
-- Lists of ids with the same members are sorted to the same list.
use titus_isolate.Prelude.{
  ℕ, ◌≡◌, ◌≢◌, refl, sym, ap, ◌∙◌, true, false, List, [], ◌∷◌, ◌||◌, contains, remove, IsDistinct,
  Bool-cases, eq_cases, beq_refl, beq_ne, ◌⊎◌, inl, inr, nat_eq, arith,
}
use titus_isolate.Prelude.Sets.{contains-remove_ne, contains-remove_self, remove-IsDistinct}
use titus_isolate.Allocate.Response.{all_ids_in}
use titus_isolate.Isolate.Reconciler.{insert_sorted, sorted}

insert_sorted_comm :
    (x y : ℕ) (zs : List ℕ)
    → insert_sorted x (insert_sorted y zs) ≡ insert_sorted y (insert_sorted x zs)
insert_sorted_comm x y [] = ground arith
insert_sorted_comm x y (z ∷ zs) = ground (arith, insert_sorted_comm x y zs)

sorted-remove :
    (ys : List ℕ) (x : ℕ)
    → contains ys x ≡ true
    → sorted ys ≡ insert_sorted x (sorted (remove ys x))
sorted-remove [] x h = cc
sorted-remove (y ∷ ys) x h = elim (eq_cases x y) [
  | inl same ↦ rw (same, beq_refl y)
  | inr other ↦
      let there : contains ys x ≡ true = ground (arith, beq_ne x y other, h) in
      rw (beq_ne x y other) (
        ap (insert_sorted y) (sorted-remove ys x there)
        ∙ insert_sorted_comm y x (sorted (remove ys x)))
]

pub sorted-contains :
    (xs ys : List ℕ)
    → IsDistinct xs
    → IsDistinct ys
    → ((n : ℕ) → contains xs n ≡ contains ys n)
    → sorted xs ≡ sorted ys
sorted-contains [] [] dx dy h = refl
sorted-contains [] (y ∷ ys) dx dy h = absurd (ground (arith, h y, beq_refl y))
sorted-contains (x ∷ xs) ys dx dy h =
    let there : contains ys x ≡ true = sym (h x) ∙ ap (λ b. b || contains xs x) (beq_refl x) in
    ap (insert_sorted x) (
      sorted-contains xs (remove ys x) dx.1 (remove-IsDistinct ys x dy)
        (λ n. rest n (eq_cases n x)))
    ∙ sym (sorted-remove ys x there)
  where
    rest : (n : ℕ) → ((n ≡ x) ⊎ (n ≢ x)) → contains xs n ≡ contains (remove ys x) n
    rest n (inl same) =
        ap (contains xs) same
        ∙ dx.0
        ∙ sym (ap (contains (remove ys x)) same ∙ contains-remove_self ys x dy)
    rest n (inr other) =
        ap (λ b. b || contains xs n) (sym (beq_ne n x other))
        ∙ h n
        ∙ sym (contains-remove_ne ys x n other)

all_ids_in-contains :
    (xs ys : List ℕ) (n : ℕ) → all_ids_in xs ys ≡ true → contains xs n ≡ true → contains ys n ≡ true
all_ids_in-contains [] ys n h k = cc
all_ids_in-contains (x ∷ xs) ys n h k = elim (eq_cases n x) [
  | inl same ↦ ap (contains ys) same ∙ ground arith
  | inr other ↦ all_ids_in-contains xs ys n (ground arith) (ground (arith, beq_ne n x other))
]

pub sorted-all_ids_in :
    (xs ys : List ℕ)
    → IsDistinct xs
    → IsDistinct ys
    → all_ids_in xs ys ≡ true
    → all_ids_in ys xs ≡ true
    → sorted xs ≡ sorted ys
sorted-all_ids_in xs ys dx dy h k =
    sorted-contains xs ys dx dy
      λ n. both n (Bool-cases (contains xs n)) (Bool-cases (contains ys n))
  where
    both :
        (n : ℕ)
        → ((contains xs n ≡ true) ⊎ (contains xs n ≡ false))
        → ((contains ys n ≡ true) ⊎ (contains ys n ≡ false))
        → contains xs n ≡ contains ys n
    both n (inl p) q = p ∙ sym (all_ids_in-contains xs ys n h p)
    both n (inr p) (inl q) = all_ids_in-contains ys xs n k q ∙ sym q
    both n (inr p) (inr q) = p ∙ sym q
