-- ===== src/Keystone/Tests.antt =====
-- A queue of two messages, and a service that answers the first request with 503.
use titus_isolate.Prelude.{
  length, ℕ, zero, suc, ◌+◌, ◌≤◌, ◌≡◌, refl, String, true, [], ◌∷◌, Result, ok, some, arith,
}
use titus_isolate.Keystone.{
  KeystoneEventLogManager, new_event_log_manager, report_event, process_events,
}
use titus_isolate.Keystone.Delivery.{process_events-kept, process_events-Delivered}

abbrev answer : ℕ → String → Result ℕ
answer zero msg = ok 503
answer (suc i) msg = ok 200

abbrev new_msg : String → Result String
new_msg payload = ok payload

abbrev waiting : KeystoneEventLogManager new_msg answer
waiting = record {
  enabled = true;
  q = "a" ∷ "b" ∷ [];
  succeeded_msg_count = 0;
  retry_msg_count = 0;
  failed_msg_count = 0;
  sent = 0;
}

reported :
    report_event new_msg answer "b"
      (report_event new_msg answer "a" (new_event_log_manager new_msg answer (some "url")))
    ≡ waiting
unfolding report_event new_event_log_manager
reported = refl

some_status : (i : ℕ) (msg : String) → (status : ℕ) × (answer i msg ≡ ok status)
some_status zero msg = (503, refl)
some_status (suc i) msg = (200, refl)

good : (i : ℕ) (msg : String) → 0 + 1 ≤ i → answer i msg ≡ ok 200
good zero msg h = absurd (omega arith)
good (suc i) msg h = refl

process_events-kept_example :
    let after = process_events new_msg answer 2 waiting in
    length after.q + after.succeeded_msg_count ≡ length waiting.q + waiting.succeeded_msg_count
process_events-kept_example = process_events-kept new_msg answer 2 waiting some_status refl

process_events-Delivered_example :
    let after = process_events new_msg answer 3 waiting in
    (after.q ≡ []) × (after.succeeded_msg_count ≡ 0 + 2) × (after.failed_msg_count ≡ 0)
process_events-Delivered_example =
    process_events-Delivered new_msg answer 3 1 waiting refl some_status good (omega arith)
