-- ===== src/Keystone.antt =====
-- titus_isolate/metrics/keystone_event_log_manager.py, titus_isolate/metrics/event_log.py. `answer i msg` is the
-- status code with which the i-th request is answered, or what it raises; the queue is unbounded, and a
-- `get` of an empty queue waits.
pub mod Delivery
mod Tests
use titus_isolate.Prelude.{
  ℕ, zero, suc, String, Bool, true, false, List, [], ◌∷◌, ◌++◌, Option, none, some, if◌then◌else◌,
  nat_beq, Result, ok, raise,
}

abbrev is_some : Option String → Bool
is_some none = false
is_some (some address) = true

module _ {Payload Msg : Type 0} (new_msg : Payload → Result Msg) (answer : ℕ → Msg → Result ℕ) where
  pub record KeystoneEventLogManager : Type 0 where
    pub enabled : Bool
    pub q : List Msg
    pub succeeded_msg_count : ℕ
    pub retry_msg_count : ℕ
    pub failed_msg_count : ℕ
    -- How many requests were sent.
    pub sent : ℕ

  -- `KeystoneEventLogManager()`, with the address that its properties give.
  unfoldable pub new_event_log_manager : Option String → KeystoneEventLogManager
  new_event_log_manager address = record {
    enabled = is_some address;
    q = [];
    succeeded_msg_count = 0;
    retry_msg_count = 0;
    failed_msg_count = 0;
    sent = 0;
  }

  unfoldable pub report_event : Payload → KeystoneEventLogManager → KeystoneEventLogManager
  report_event payload s = elim (new_msg payload) [
    | raise e ↦ record s { failed_msg_count = suc s.failed_msg_count }
    | ok msg ↦ record s { q = s.q ++ msg ∷ [] }
  ]

  -- What follows the answer to a message that was taken from the queue.
  abbrev pub answered : Msg → Result ℕ → KeystoneEventLogManager → KeystoneEventLogManager
  answered msg (raise e) s = record s { failed_msg_count = suc s.failed_msg_count }
  answered msg (ok status_code) s =
      if nat_beq status_code 200
      then record s { succeeded_msg_count = suc s.succeeded_msg_count }
      else record s { retry_msg_count = suc s.retry_msg_count; q = s.q ++ msg ∷ [] }

  abbrev pub take_next : List Msg → KeystoneEventLogManager → KeystoneEventLogManager
  take_next [] s = s
  take_next (msg ∷ q) s =
      if s.enabled
      then answered msg (answer s.sent msg) (record s { q = q; sent = suc s.sent })
      else record s { q = q }

  -- One round of `__process_events`; it waits on an empty queue.
  unfoldable pub process_event : KeystoneEventLogManager → KeystoneEventLogManager
  process_event s = take_next s.q s

  unfoldable pub process_events : ℕ → KeystoneEventLogManager → KeystoneEventLogManager
  unfolding process_event
  process_events zero s = s
  process_events (suc n) s = process_events n (process_event s)
