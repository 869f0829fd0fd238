-- ===== src/Allocate/Choice/Names.antt =====
-- The names of the allocators.
use titus_isolate.Prelude.{
  ◌≡◌, refl, String, none, some, string_eq, lookup, ok, eq_cases, beq_ne, inl, inr,
}
use titus_isolate.Allocate.Choice.{grpc_remote, class_map, known, get_allocator}

-- get_allocator raises for no name: where the class map has a class under the name it is that one, and
-- for every other name, or none at all, the class of the default allocator.
get_allocator_lem :
    (allocator_str : String)
    → (get_allocator (some allocator_str)
        ≡ ok (elim (lookup allocator_str class_map) [ none ↦ grpc_remote | some c ↦ c ]))
      × (get_allocator none ≡ ok grpc_remote)
unfolding get_allocator
get_allocator_lem s = (by_name, refl)
  where
    by_name :
        get_allocator (some s) ≡ ok (elim (lookup s class_map) [ none ↦ grpc_remote | some c ↦ c ])
    by_name = elim (eq_cases s "GREEDY") [
      | inl same ↦ rw same refl
      | inr not_greedy ↦ elim (eq_cases s "NAIVE") [
        | inl same ↦ rw same refl
        | inr not_naive ↦ elim (eq_cases s "NOOP") [
          | inl same ↦ rw same refl
          | inr not_noop ↦ elim (eq_cases s "GRPC_REMOTE") [
            | inl same ↦ rw same refl
            | inr not_grpc ↦
                let a = beq_ne s "GREEDY" not_greedy in
                let b = beq_ne s "NAIVE" not_naive in
                let c = beq_ne s "NOOP" not_noop in
                let d = beq_ne s "GRPC_REMOTE" not_grpc in rw (known, a, b, c, d) refl
          ]
        ]
      ]
    ]
