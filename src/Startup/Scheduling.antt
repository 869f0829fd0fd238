-- ===== src/Startup/Scheduling.antt =====
-- The scheduling loop of titus_isolate/utils.py. A round is given what the schedule library does in it: whether the
-- pending tasks raise, whether a run is scheduled, and for how many seconds the schedule is idle. An exit
-- is the code that the exit handler is called with.
use titus_isolate.Prelude.{
  ℕ, suc, Bool, true, false, List, [], ◌∷◌, ◌++◌, Option, none, some, if◌then◌else◌, Result, ok,
  raise, type_error, value_error, ◌>>=◌, ℤ, pos, negsuc,
}

abbrev pub schedule_once_failure_exit_code : ℕ
schedule_once_failure_exit_code = 45

abbrev pub scheduling_loop_failure_exit_code : ℕ
scheduling_loop_failure_exit_code = 46

abbrev pub scheduling_sleep_interval : ℤ
scheduling_sleep_interval = pos 10

pub record Round : Type 0 where
  pub run_pending : Result (Unit {0})
  pub next_run : Result Bool
  pub idle_seconds : Result ℤ

abbrev not_negative : ℤ → ℤ
not_negative (pos n) = pos n
not_negative (negsuc n) = scheduling_sleep_interval

-- The `try` block of `_schedule_once`, up to the test of the sign.
unfoldable pub idle_time : Round → Result ℤ
idle_time r = r.run_pending >>= λ u.
    r.next_run >>= λ scheduled. if scheduled then r.idle_seconds else ok scheduling_sleep_interval

-- `_schedule_once(exit_handler)`: the seconds, or None, and the exits. `ends` is whether the exit handler ends the
-- process, as RealExitHandler does; then there is no answer. A handler of the tests returns.
unfoldable pub schedule_once : Bool → Round → Option (Option ℤ) × List ℕ
unfolding idle_time
schedule_once ends r = elim (idle_time r) [
  | ok seconds ↦ (some (some (not_negative seconds)), [])
  | raise e ↦ (if ends then none else some none, schedule_once_failure_exit_code ∷ [])
]

-- What `time.sleep` does with the seconds, or with None; a negative number raises.
abbrev sleep : Option ℤ → Result ℤ
sleep none = raise type_error
sleep (some (pos n)) = ok (pos n)
sleep (some (negsuc n)) = raise value_error

abbrev after_once :
    Bool → Option (Option ℤ) × List ℕ → Result (Unit {0}) → Option (Option ℤ) × List ℕ
after_once ends (none, exits) notify = (none, exits)
after_once ends (some seconds, exits) notify = elim (notify >>= λ u. sleep seconds) [
  | ok slept ↦ (some (some slept), exits)
  | raise e ↦ (if ends then none else some none, exits ++ scheduling_loop_failure_exit_code ∷ [])
]

-- One round of `__schedule_loop`, with the call that notifies the watchdog: the seconds slept, if any,
-- unless the process has ended, and the exits.
unfoldable pub loop_round : Bool → Round → Result (Unit {0}) → Option (Option ℤ) × List ℕ
unfolding schedule_once
loop_round ends r notify = after_once ends (schedule_once ends r) notify

-- `start_periodic_scheduling(exit_handler)`, with the number of worker threads.
unfoldable pub start_periodic_scheduling : Bool × ℕ → Bool × ℕ
start_periodic_scheduling (true, threads) = (true, threads)
start_periodic_scheduling (false, threads) = (true, suc threads)
