-- ===== src/Allocate/Fallback/Answers.antt =====
-- When the fallback allocator answers, and what it counts.
use titus_isolate.Prelude.{
  ℕ, suc, ◌≡◌, Bool, true, false, ◌||◌, Option, if◌then◌else◌, Result, Result-cases, Bool-cases,
  inl, inr, ok, raise, arith,
}
use titus_isolate.Allocate.Response.{AllocateResponse}
use titus_isolate.Allocate.Request.{AllocateRequest}
use titus_isolate.Allocate.Fallback.{
  Allocator, Counts, isolate, should_fallback_immediately, get_fallback_allocator_calls_count,
}

abbrev pub is_raise {ℓ} : {A : Type ℓ} → Result A → Bool
is_raise (ok _) = false
is_raise (raise _) = true

-- An allocator that answers every request.
abbrev pub Answers : Allocator → Type 0
Answers allocate =
    (request : AllocateRequest)
    → (response : AllocateResponse) × ((allocate request).0 ≡ ok response)

module _ (primary secondary : Allocator) (fallback_queue_depth : ℕ) where
  -- The secondary allocator is called where the queue is too deep or the primary raises.
  abbrev pub falls_back : Option ℕ → AllocateRequest → Bool
  falls_back queue_depth request =
      should_fallback_immediately fallback_queue_depth queue_depth || is_raise (primary request).0

  -- If the secondary allocator answers every request, the fallback allocator does. Each call counts
  -- one primary call, and one fallback call where the queue is too deep or the primary raises.
  pub isolate-Answers :
      (queue_depth : Option ℕ) (request : AllocateRequest) (c : Counts)
      → Answers secondary
      → let (answer, after) =
          isolate primary secondary fallback_queue_depth queue_depth request c in
        ((response : AllocateResponse) × (answer.0 ≡ ok response))
        × (after.primary_assign_threads_call_count ≡ suc c.primary_assign_threads_call_count)
        × (get_fallback_allocator_calls_count after ≡ (
            if falls_back queue_depth request
            then suc (get_fallback_allocator_calls_count c)
            else get_fallback_allocator_calls_count c))
  unfolding isolate get_fallback_allocator_calls_count
  isolate-Answers queue_depth request c answers =
      let secondary_ok = answers request in
      let fallen_ok = answers (record request { cpu = (primary request).1 }) in
      elim (Bool-cases (should_fallback_immediately fallback_queue_depth queue_depth)) [
        | inl deep ↦ (
          (secondary_ok.0, ground (arith, deep, secondary_ok.1)),
          ground (arith, deep),
          ground (arith, deep),
        )
        | inr free ↦ elim (Result-cases (primary request).0) [
          | inl (response, e) ↦ (
            (response, ground (arith, free, e)),
            ground (arith, free, e),
            ground (arith, free, e),
          )
          | inr (x, e) ↦ (
            (fallen_ok.0, ground (arith, free, e, fallen_ok.1)),
            ground (arith, free, e),
            ground (arith, free, e),
          )
        ]
      ]
