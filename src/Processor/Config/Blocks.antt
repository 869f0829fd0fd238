-- ===== src/Processor/Config/Blocks.antt =====
-- Lists of numbers made block by block, and division with remainder.
use titus_isolate.Prelude.{
  ℕ, zero, suc, ◌+◌, ◌*◌, ◌/◌, ◌%◌, ◌≤◌, ◌<◌, ◌≡◌, ◌∙◌, inl, inr, ◌⊎◌, true, false, List, [], ◌∷◌,
  ◌++◌, length, length-append, concat_map, contains, IsDistinct, nat_eq, Bool-cases, arith,
}
use titus_isolate.Prelude.Sets.{contains-append}
use titus_isolate.Processor.Config.Shape.{upto}

abbrev pub flat : List (List ℕ) → List ℕ
flat = concat_map (λ (xs : List ℕ). xs)

IsDistinct-append :
    (xs ys : List ℕ)
    → IsDistinct xs
    → IsDistinct ys
    → ((a : ℕ) → contains xs a ≡ true → contains ys a ≡ false)
    → IsDistinct (xs ++ ys)
IsDistinct-append [] ys dx dy apart = dy
IsDistinct-append (x ∷ xs) ys dx dy apart = (
  contains-append xs ys x ∙ ground (arith, dx.0, apart x),
  IsDistinct-append xs ys dx.1 dy (λ a h. apart a (ground (arith, h))),
)

-- What holds of a member of each block holds of a member of all.
pub flat_member :
    (Q : Type 0) (F : ℕ → List ℕ) (a i n : ℕ)
    → ((j : ℕ) → i ≤ j → j < i + n → contains (F j) a ≡ true → Q)
    → contains (flat (upto F i n)) a ≡ true
    → Q
flat_member Q F a i zero h m = cc
flat_member Q F a i (suc n) h m = elim (Bool-cases (contains (F i) a)) [
  | inl here ↦ h i (omega arith) (omega arith) here
  | inr there ↦
      flat_member Q F a (suc i) n (λ j le lt. h j (omega arith) (omega arith))
        (ground (arith, contains-append (F i) (flat (upto F (suc i) n)) a))
]

-- Blocks that a key tells apart, each without repetition, make a list without repetition.
pub flat-IsDistinct :
    (F : ℕ → List ℕ) (key : ℕ → ℕ) (i n bound : ℕ)
    → i + n ≤ bound
    → ((j : ℕ) → j < bound → IsDistinct (F j))
    → ((j a : ℕ) → j < bound → contains (F j) a ≡ true → key a ≡ j)
    → IsDistinct (flat (upto F i n))
flat-IsDistinct F key i zero bound le d k = tt
flat-IsDistinct F key i (suc n) bound le d k =
    IsDistinct-append (F i) (flat (upto F (suc i) n)) (d i (omega arith))
      (flat-IsDistinct F key (suc i) n bound (omega arith) d k)
      (λ a h. apart a h (Bool-cases (contains (flat (upto F (suc i) n)) a)))
  where
    apart :
        (a : ℕ)
        → contains (F i) a ≡ true
        → (contains (flat (upto F (suc i) n)) a ≡ true)
          ⊎ (contains (flat (upto F (suc i) n)) a ≡ false)
        → contains (flat (upto F (suc i) n)) a ≡ false
    apart a h (inr absent) = absent
    apart a h (inl m) = absurd (
        flat_member ⊥ F a (suc i) n
          (λ j low high m'. omega (arith, k i a (omega arith) h, k j a (omega arith) m')) m)

pub length-flat :
    (F : ℕ → List ℕ) (k i n : ℕ) → ((j : ℕ) → length (F j) ≡ k) → length (flat (upto F i n)) ≡ n * k
length-flat F k i zero h = omega arith
length-flat F k i (suc n) h =
    omega (arith, h i, length-append (F i) (flat (upto F (suc i) n)), length-flat F k (suc i) n h)

pub divmod_unique : (q C c : ℕ) → c < C → ((q * C + c) / C ≡ q) × ((q * C + c) % C ≡ c)
divmod_unique q C c h = (grind arith, grind arith)
