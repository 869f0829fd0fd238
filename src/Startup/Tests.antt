-- ===== src/Startup/Tests.antt =====
-- Rounds of the scheduling loop, and the cell of an agent.
use titus_isolate.Prelude.{
  ◌≡◌, refl, true, false, [], ◌∷◌, none, some, ok, raise, exception, pos, negsuc,
}
use titus_isolate.Startup.{get_cell_name, unknown_cell, get_grpc_cell_name, get_http_cell_name}
use titus_isolate.Startup.Scheduling.{Round, idle_time, loop_round, schedule_once}

abbrev late : Round
late = record { run_pending = ok tt; next_run = ok true; idle_seconds = ok (negsuc 4) }

abbrev broken : Round
broken = record { run_pending = raise exception; next_run = ok true; idle_seconds = ok (pos 1) }

late_round : loop_round true late (ok (tt {0})) ≡ (some (some (pos 10)), [])
unfolding loop_round schedule_once idle_time
late_round = refl

-- The process ends in the first exit; a handler that returns is called again.
broken_round : loop_round true broken (ok (tt {0})) ≡ (none, 45 ∷ [])
unfolding loop_round schedule_once idle_time
broken_round = refl

broken_round_returns : loop_round false broken (ok (tt {0})) ≡ (some none, 45 ∷ 46 ∷ [])
unfolding loop_round schedule_once idle_time
broken_round_returns = refl

no_endpoint :
    get_cell_name (ok true) none (ok (tt {0})) (λ u t. ok []) none (λ e. ok "c") ≡ ok unknown_cell
unfolding get_cell_name get_grpc_cell_name
no_endpoint = refl

unreachable :
    get_cell_name (ok false) (some "url") (ok (tt {0})) (λ u t. raise exception) none (λ e. ok "c")
    ≡ ok unknown_cell
unfolding get_cell_name get_http_cell_name
unreachable = refl
