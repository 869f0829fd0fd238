-- ===== src/Allocate/Remote/Positions.antt =====
-- The threads that an answer of the service names by their positions (deser of
-- titus_isolate/allocate/remote/allocator.py), and their ids.
use titus_isolate.Prelude.{
  ℕ, zero, suc, ◌<◌, ◌≡◌, refl, ap, ◌∙◌, List, [], ◌∷◌, some, ◌==◌, nat_eq, beq_refl, beq_ne,
  IsDistinct, true, map, length, get_elem?, contains, All, ok, arith,
}
use titus_isolate.Allocate.Remote.{original_ids}

-- The number at a position.
abbrev pub id_at : List ℕ → ℕ → ℕ
id_at [] i = 0
id_at (x ∷ xs) zero = x
id_at (x ∷ xs) (suc i) = id_at xs i

get_elem?-lt : (xs : List ℕ) (i : ℕ) → i < length xs → get_elem? xs i ≡ some (id_at xs i)
get_elem?-lt [] i h = absurd (omega arith)
get_elem?-lt (x ∷ xs) zero h = refl
get_elem?-lt (x ∷ xs) (suc i) h = get_elem?-lt xs i (omega arith)

pub original_ids-lt :
    (originals tids : List ℕ)
    → All (λ tid. tid < length originals) tids
    → original_ids originals tids ≡ ok (map (id_at originals) tids)
unfolding original_ids
original_ids-lt originals [] h = refl
original_ids-lt originals (tid ∷ tids) h =
    rw (get_elem?-lt originals tid h.0, original_ids-lt originals tids h.1) refl

contains-id_at : (xs : List ℕ) (i : ℕ) → i < length xs → contains xs (id_at xs i) ≡ true
contains-id_at [] i h = absurd (omega arith)
contains-id_at (x ∷ xs) zero h = rw (beq_refl x) refl
contains-id_at (x ∷ xs) (suc i) h = ground (arith, contains-id_at xs i (omega arith))

-- Of distinct numbers, those at two positions are the same just if the positions are.
id_at-eq :
    (xs : List ℕ) (i j : ℕ)
    → IsDistinct xs
    → i < length xs
    → j < length xs
    → (id_at xs i == id_at xs j) ≡ (i == j)
id_at-eq [] i j d h k = absurd (omega arith)
id_at-eq (x ∷ xs) zero zero d h k = beq_refl x
id_at-eq (x ∷ xs) zero (suc j) d h k =
    beq_ne x (id_at xs j) (λ e. cc (contains-id_at xs j (omega arith), d.0, ap (contains xs) e))
    ∙ ground arith
id_at-eq (x ∷ xs) (suc i) zero d h k =
    beq_ne (id_at xs i) x (λ e. cc (contains-id_at xs i (omega arith), d.0, ap (contains xs) e))
    ∙ ground arith
id_at-eq (x ∷ xs) (suc i) (suc j) d h k =
    id_at-eq xs i j d.1 (omega arith) (omega arith) ∙ ground arith

-- So a thread is among those that positions name just where its position is one of them.
pub contains-ids :
    (originals tids : List ℕ) (i : ℕ)
    → IsDistinct originals
    → i < length originals
    → All (λ tid. tid < length originals) tids
    → contains (map (id_at originals) tids) (id_at originals i) ≡ contains tids i
contains-ids originals [] i d h a = refl
contains-ids originals (tid ∷ tids) i d h a =
    rw (id_at-eq originals i tid d h a.0, contains-ids originals tids i d h a.1) refl
