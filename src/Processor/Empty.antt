-- ===== src/Processor/Empty.antt =====
-- Empty threads: how many there are, where the emptiest core or package is, and what claiming the
-- first of them does.
use titus_isolate.Prelude.{
  ℕ, zero, suc, ◌+◌, ◌≤◌, ◌<◌, min, ◌≡◌, refl, sym, ap, ◌∙◌, String, Bool, true, false, not, List,
  [], ◌∷◌, map, length, sum_by, get_elem?, modify, take, some, All, if◌then◌else◌, ltb, ltb→lt,
  Bool-cases, inl, inr, arith,
}
use titus_isolate.Processor.Thread.{Thread, claim, is_claimed}
use titus_isolate.Processor.Claims.{Claims, done, keep, take as take_one, Claims-refl, Claims-eq}
use titus_isolate.Processor.Package.{emptiest_from, emptiest}
use titus_isolate.Processor.Utils.{refs_from, get_empty_threads, claim_all}

abbrev pub IsEmpty : Thread → Type 0
IsEmpty t = is_claimed t ≡ false

-- How many threads of a list are unclaimed.
abbrev pub empties : List Thread → ℕ
empties ts = sum_by (λ t. if not (is_claimed t) then 1 else 0) ts

refs_from-suc :
    (i : ℕ) (p : Thread → Bool) (ts : List Thread)
    → refs_from (suc i) p ts ≡ map suc (refs_from i p ts)
unfolding refs_from
refs_from-suc i p [] = refl
refs_from-suc i p (t ∷ ts) = ground (arith, refs_from-suc (suc i) p ts)

pub length-refs_from :
    (i : ℕ) (p : Thread → Bool) (ts : List Thread)
    → length (refs_from i p ts) ≡ sum_by (λ t. if p t then 1 else 0) ts
unfolding refs_from
length-refs_from i p [] = refl
length-refs_from i p (t ∷ ts) = ground (arith, length-refs_from (suc i) p ts)

pub length-get_empty_threads : (ts : List Thread) → length (get_empty_threads ts) ≡ empties ts
unfolding get_empty_threads
length-get_empty_threads ts = length-refs_from 0 _ ts

claim_all-suc :
    (w : String) (refs : List ℕ) (t : Thread) (ts : List Thread)
    → claim_all w (map suc refs) (t ∷ ts) ≡ t ∷ claim_all w refs ts
unfolding claim_all
claim_all-suc w [] t ts = refl
claim_all-suc w (i ∷ refs) t ts = claim_all-suc w refs t (modify ts i (λ u. claim u w))

take-map-suc : (n : ℕ) (xs : List ℕ) → take n (map suc xs) ≡ map suc (take n xs)
take-map-suc zero xs = refl
take-map-suc (suc n) [] = refl
take-map-suc (suc n) (x ∷ xs) = ap (◌∷◌ (suc x)) (take-map-suc n xs)

get_empty_threads-busy :
    (t : Thread) (ts : List Thread)
    → is_claimed t ≡ true
    → get_empty_threads (t ∷ ts) ≡ map suc (get_empty_threads ts)
unfolding get_empty_threads refs_from
get_empty_threads-busy t ts busy = rw busy (refs_from-suc 0 _ ts)

get_empty_threads-free :
    (t : Thread) (ts : List Thread)
    → is_claimed t ≡ false
    → get_empty_threads (t ∷ ts) ≡ 0 ∷ map suc (get_empty_threads ts)
unfolding get_empty_threads refs_from
get_empty_threads-free t ts free = rw free (ap (◌∷◌ 0) (refs_from-suc 0 _ ts))

get_empty_threads-nil : get_empty_threads [] ≡ []
unfolding get_empty_threads refs_from
get_empty_threads-nil = refl

take-nil : (n : ℕ) → take {A = ℕ} n [] ≡ []
take-nil zero = refl
take-nil (suc n) = refl

-- Claiming the first `n` empty threads claims `n` of them, or all.
pub claim_first :
    (w : String) (n : ℕ) (ts : List Thread)
    → Claims w IsEmpty (min n (empties ts)) ts (claim_all w (take n (get_empty_threads ts)) ts)
unfolding claim_all
claim_first w n [] = rw (get_empty_threads-nil, take-nil n) (done (omega arith))
claim_first w zero (t ∷ ts) = Claims-eq (omega arith) (Claims-refl (t ∷ ts))
claim_first w (suc n) (t ∷ ts) = elim (Bool-cases (is_claimed t)) [
  | inl busy ↦
      rw
        (
          get_empty_threads-busy t ts busy,
          take-map-suc (suc n) (get_empty_threads ts),
          claim_all-suc w (take (suc n) (get_empty_threads ts)) t ts,
          busy,
        )
        (keep t (Claims-eq (omega arith) (claim_first w (suc n) ts)))
  | inr free ↦
      rw
        (
          get_empty_threads-free t ts free,
          take-map-suc n (get_empty_threads ts),
          claim_all-suc w (take n (get_empty_threads ts)) (claim t w) ts,
          free,
        )
        (take_one t free (omega arith) (claim_first w n ts))
]

abbrev Follows : List ℕ → ℕ → List ℕ → Type 0
Follows all i ns = (j : ℕ) → get_elem? all (i + j) ≡ get_elem? ns j

Follows-head :
    (all : List ℕ) (i n : ℕ) (ns : List ℕ) → Follows all i (n ∷ ns) → get_elem? all i ≡ some n
Follows-head all i n ns f = let e : i + 0 ≡ i = omega arith in ap (get_elem? all) (sym e) ∙ f 0

Follows-tail :
    (all : List ℕ) (i n : ℕ) (ns : List ℕ) → Follows all i (n ∷ ns) → Follows all (suc i) ns
Follows-tail all i n ns f j =
    let e : suc i + j ≡ i + suc j = omega arith in ap (get_elem? all) e ∙ f (suc j)

All-le_trans : (ns : List ℕ) {k m : ℕ} → k ≤ m → All (λ n. n ≤ k) ns → All (λ n. n ≤ m) ns
All-le_trans [] h a = tt
All-le_trans (n ∷ ns) h a = (omega arith, All-le_trans ns h a.1)

-- The position that the search for the greatest count returns.
emptiest_from-max :
    (best count i : ℕ) (ns : List ℕ) (all : List ℕ)
    → get_elem? all best ≡ some count
    → Follows all i ns
    → (k : ℕ) × (get_elem? all (emptiest_from best count i ns) ≡ some k)
      × (count ≤ k)
      × All (λ n. n ≤ k) ns
unfolding emptiest_from
emptiest_from-max best count i [] all h rest = (count, h, omega arith, tt)
emptiest_from-max best count i (n ∷ ns) all h rest = elim (Bool-cases (ltb count n)) [
  | inl more ↦
      let (k, at, above, others) =
        emptiest_from-max i n (suc i) ns all (Follows-head all i n ns rest)
          (Follows-tail all i n ns rest) in
      rw more (k, at, omega (arith, ltb→lt count n more), (above, others))
  | inr less ↦
      let (k, at, above, others) =
        emptiest_from-max best count (suc i) ns all h (Follows-tail all i n ns rest) in
      let small : n ≤ count = ground arith in rw less (k, at, above, (omega arith, others))
]

-- It is in the list, and no count is greater.
pub emptiest-max :
    (n : ℕ) (ns : List ℕ)
    → (k : ℕ) × (get_elem? (n ∷ ns) (emptiest (n ∷ ns)) ≡ some k) × All (λ m. m ≤ k) (n ∷ ns)
unfolding emptiest
emptiest-max n ns =
    let follows : Follows (n ∷ ns) 1 ns =
      λ j. let e : 1 + j ≡ suc j = omega arith in ap (get_elem? (n ∷ ns)) e in
    let (k, at, above, others) = emptiest_from-max 0 n 1 ns (n ∷ ns) refl follows in
    (k, at, (above, others))

All-zero-sum : (ns : List ℕ) → All (λ n. n ≤ 0) ns → sum_by (λ n. n) ns ≡ 0
All-zero-sum [] a = refl
All-zero-sum (n ∷ ns) a = omega (arith, All-zero-sum ns a.1)

get_elem?-map {ℓ} :
    {A : Type ℓ} (f : A → ℕ) (xs : List A) (i k : ℕ)
    → get_elem? (map f xs) i ≡ some k
    → (x : A) × (get_elem? xs i ≡ some x) × (f x ≡ k)
get_elem?-map f [] i k h = cc
get_elem?-map f (x ∷ xs) zero k h = (x, refl, ground arith)
get_elem?-map f (x ∷ xs) (suc i) k h = get_elem?-map f xs i k h

sum_by-map {ℓ} : {A : Type ℓ} (f : A → ℕ) (xs : List A) → sum_by (λ n. n) (map f xs) ≡ sum_by f xs
sum_by-map f [] = refl
sum_by-map f (x ∷ xs) = omega (arith, sum_by-map f xs)

-- Where some element of a list counts more than zero, the emptiest one does, and is in the list.
pub emptiest-pos {ℓ} :
    {A : Type ℓ} (f : A → ℕ) (xs : List A)
    → 0 < sum_by f xs
    → (x : A) × (get_elem? xs (emptiest (map f xs)) ≡ some x) × (0 < f x)
emptiest-pos f [] h = absurd (omega arith)
emptiest-pos {A} f (x ∷ xs) h =
    let (k, at, above) = emptiest-max (f x) (map f xs) in
    let (y, found, e) = get_elem?-map f (x ∷ xs) _ k at in (y, found, pos_of k above y e)
  where
    pos_of : (k : ℕ) → All (λ m. m ≤ k) (f x ∷ map f xs) → (y : A) → f y ≡ k → 0 < f y
    pos_of zero above y e =
        absurd (omega (arith, All-zero-sum (f x ∷ map f xs) above, sum_by-map f (x ∷ xs)))
    pos_of (suc k) above y e = omega arith
