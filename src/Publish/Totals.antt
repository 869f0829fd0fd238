-- ===== src/Publish/Totals.antt =====
-- The two loops over the running pods: what they add up and what they count.
use titus_isolate.Prelude.{
  ℕ, ◌+◌, ◌≡◌, refl, sym, ap, ◌∙◌, ap₂, String, true, false, List, [], ◌∷◌, Option, none, some, inl,
  inr, if◌then◌else◌, string_eq, map, Result, ok, raise, ◌>>=◌, Result-cases, Bool-cases, ℤ, pos,
  negsuc, arith,
}
use titus_isolate.Pod.{
  V1Pod, Resources, get_requested_resources, is_batch_pod, is_service_pod, job_type, is_text,
}
use titus_isolate.Crd.Resources.{pos_part, neg_part, sub_ℕ, ◌+ℤ◌, add_resources, no_resources}
use titus_isolate.Predict.{for_each}
use titus_isolate.Publish.{
  allocated_from, compute_allocated_resources, count_from, compute_num_containers,
}

abbrev pub sum_of : (ℤ → ℕ) → List ℤ → ℕ
sum_of part [] = 0
sum_of part (z ∷ zs) = part z + sum_of part zs

-- What is positive in the list less what is negative.
abbrev pub total : List ℤ → ℤ
total zs = sub_ℕ (sum_of pos_part zs) (sum_of neg_part zs)

sub_ℕ-parts : (a b c d : ℕ) → sub_ℕ a b +ℤ sub_ℕ c d ≡ sub_ℕ (a + c) (b + d)
unfolding ◌+ℤ◌
sub_ℕ-parts a b c d = ground arith

parts-sub_ℕ : (z : ℤ) → sub_ℕ (pos_part z) (neg_part z) ≡ z
parts-sub_ℕ (pos n) = ground arith
parts-sub_ℕ (negsuc n) = ground arith

add-none : (a : ℤ) → a +ℤ total [] ≡ a
unfolding ◌+ℤ◌
add-none (pos n) = ground arith
add-none (negsuc n) = ground arith

add-total : (a z : ℤ) (zs : List ℤ) → (a +ℤ z) +ℤ total zs ≡ a +ℤ total (z ∷ zs)
unfolding ◌+ℤ◌
add-total a z zs =
    let p = sum_of pos_part zs in
    let n = sum_of neg_part zs in
    let left : pos_part a + pos_part z + p ≡ pos_part a + (pos_part z + p) = omega arith in
    let right : neg_part a + neg_part z + n ≡ neg_part a + (neg_part z + n) = omega arith in
    sub_ℕ-parts (pos_part a + pos_part z) (neg_part a + neg_part z) p n
    ∙ ap₂ sub_ℕ left right
    ∙ sym (sub_ℕ-parts (pos_part a) (neg_part a) (pos_part z + p) (neg_part z + n))
    ∙ ap (λ x. x +ℤ total (z ∷ zs)) (parts-sub_ℕ a)

none_add : (z : ℤ) → pos 0 +ℤ z ≡ z
unfolding ◌+ℤ◌
none_add (pos n) = ground arith
none_add (negsuc n) = ground arith

-- The sum of each of the five numbers.
abbrev pub total_of : List Resources → Resources
total_of rs = record {
  cpu = total (map (λ r. r.cpu) rs);
  mem = total (map (λ r. r.mem) rs);
  disk = total (map (λ r. r.disk) rs);
  net = total (map (λ r. r.net) rs);
  gpu = total (map (λ r. r.gpu) rs);
}

add-resources_total :
    (a r : Resources) (rs : List Resources)
    → add_resources (add_resources a r) (total_of rs) ≡ add_resources a (total_of (r ∷ rs))
unfolding add_resources
add-resources_total a r rs =
    rw
      (
        add-total a.cpu r.cpu (map (λ r. r.cpu) rs),
        add-total a.mem r.mem (map (λ r. r.mem) rs),
        add-total a.disk r.disk (map (λ r. r.disk) rs),
        add-total a.net r.net (map (λ r. r.net) rs),
        add-total a.gpu r.gpu (map (λ r. r.gpu) rs),
      )
      refl

no_resources-total : (rs : List Resources) → add_resources no_resources (total_of rs) ≡ total_of rs
unfolding add_resources
no_resources-total rs =
    rw
      (
        none_add (total (map (λ r. r.cpu) rs)),
        none_add (total (map (λ r. r.mem) rs)),
        none_add (total (map (λ r. r.disk) rs)),
        none_add (total (map (λ r. r.net) rs)),
        none_add (total (map (λ r. r.gpu) rs)),
      )
      refl

-- How many of the job types are the given one.
abbrev pub count_of : String → List (Option String) → ℕ
count_of t [] = 0
count_of t (x ∷ xs) = (if is_text t x then 1 else 0) + count_of t xs

module _ (quantity : String → Result ℤ) where
  allocated_from-total :
      (pods : List V1Pod) (a : Resources)
      → allocated_from quantity pods a ≡ (
          for_each (get_requested_resources quantity) pods >>= λ rs.
          ok (add_resources a (total_of rs)))
  unfolding allocated_from add_resources
  allocated_from-total [] a =
      (sym (
        ap ok (
          rw (add-none a.cpu, add-none a.mem, add-none a.disk, add-none a.net, add-none a.gpu)
            refl)))
  allocated_from-total (pod ∷ pods) a = elim (Result-cases (get_requested_resources quantity pod)) [
    | inr (e, raises) ↦ rw raises refl
    | inl (r, found) ↦
        rw (found, allocated_from-total pods (add_resources a r))
          (elim (Result-cases (for_each (get_requested_resources quantity) pods)) [
            | inr (e, raises) ↦ rw raises refl
            | inl (rs, read) ↦ rw read (ap ok (add-resources_total a r rs))
          ])
  ]

batch_only : (t : Option String) → is_text "BATCH" t ≡ true → is_text "SERVICE" t ≡ false
batch_only none h = refl
batch_only (some s) h = let same : s ≡ "BATCH" = (string_eq.beq_iff s "BATCH").0 h in rw same refl

-- Two counts with those of the job types added.
abbrev counts_from : ℕ → ℕ → List (Option String) → Result (ℕ × ℕ)
counts_from batch service ts = ok (batch + count_of "BATCH" ts, service + count_of "SERVICE" ts)

ok_pair : (a b c d : ℕ) → a ≡ c → b ≡ d → ◌≡◌ {A = Result (ℕ × ℕ)} (ok (a, b)) (ok (c, d))
ok_pair a b c d p q = rw (p, q) refl

-- With the first pod's job type read, both sides are those of the others.
count-step :
    (t : Option String) (rest : Result (List (Option String))) (batch service : ℕ)
    → (if is_text "BATCH" t
        then (rest >>= counts_from (batch + 1) service)
        else (rest >>= counts_from batch (if is_text "SERVICE" t then service + 1 else service)))
      ≡ ((rest >>= λ ts. ok (t ∷ ts)) >>= counts_from batch service)
count-step t (raise e) batch service = elim (Bool-cases (is_text "BATCH" t)) [
  | inl same ↦ rw same refl
  | inr other ↦ rw other refl
]
count-step t (ok ts) batch service = elim (Bool-cases (is_text "BATCH" t)) [
  | inl same ↦ rw (same, batch_only t same) (ok_pair _ _ _ _ (omega arith) (omega arith))
  | inr other ↦ rw other (ok_pair _ _ _ _ (omega arith) (ground arith))
]

count_from-counts :
    (pods : List V1Pod) (batch service : ℕ)
    → count_from pods batch service ≡ (for_each job_type pods >>= counts_from batch service)
unfolding count_from is_batch_pod is_service_pod
count_from-counts [] batch service = ok_pair _ _ _ _ (omega arith) (omega arith)
count_from-counts (pod ∷ pods) batch service = elim (Result-cases (job_type pod)) [
  | inr (e, raises) ↦ rw raises refl
  | inl (t, found) ↦
      rw
        (
          found,
          count_from-counts pods (batch + 1) service,
          count_from-counts pods batch (if is_text "SERVICE" t then service + 1 else service),
        )
        (count-step t (for_each job_type pods) batch service)
]

module _ (quantity : String → Result ℤ) where
  -- The allocated resources are for each resource the sum of the pods' requests, whatever their order.
  pub compute_allocated_resources-total :
      (pods : List V1Pod)
      → compute_allocated_resources quantity pods
        ≡ (for_each (get_requested_resources quantity) pods >>= λ rs. ok (total_of rs))
  unfolding compute_allocated_resources
  compute_allocated_resources-total pods =
      rw (allocated_from-total quantity pods no_resources)
        (elim (Result-cases (for_each (get_requested_resources quantity) pods)) [
          | inr (e, raises) ↦ rw raises refl
          | inl (rs, read) ↦ rw read (ap ok (no_resources-total rs))
        ])

-- The counts are the numbers of pods of the two job types.
pub compute_num_containers-counts :
    (pods : List V1Pod)
    → compute_num_containers pods
      ≡ (for_each job_type pods >>= λ ts. ok (count_of "BATCH" ts, count_of "SERVICE" ts))
unfolding compute_num_containers
compute_num_containers-counts pods =
    rw (count_from-counts pods 0 0) (elim (Result-cases (for_each job_type pods)) [
      | inr (e, raises) ↦ rw raises refl
      | inl (ts, read) ↦ rw read (ok_pair _ _ _ _ (omega arith) (omega arith))
    ])
