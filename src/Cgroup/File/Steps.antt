-- ===== src/Cgroup/File/Steps.antt =====
-- What can happen to a file cgroup manager: calls of its clients and steps of its writers, in any order.
use titus_isolate.Prelude.{ℕ, ◌≡◌, refl, String, List, [], ◌∷◌, Option, arith}
use titus_isolate.Cgroup.File.{
  Write, Writer, starting, written, added, dead, FileCgroupManager, advance, start, run_thread,
  set_now, release_container, has_pending_work,
}

module _ {Files : Type 0} (write : Write → Files → Option Files) where
  pub data Step : List Write → FileCgroupManager write → FileCgroupManager write → Type 0 where
    start_step : (w : Write) (s : FileCgroupManager write) → Step (w ∷ []) s (start write w s)
    set_step : (w : Write) (s : FileCgroupManager write) → Step (w ∷ []) s (set_now write w s)
    thread_step : (i : ℕ) (s : FileCgroupManager write) → Step [] s (run_thread write i s)
    release_step :
        (c : String) (s : FileCgroupManager write) → Step [] s (release_container write c s)
    pending_step : (s : FileCgroupManager write) → Step [] s (has_pending_work write s).1

  -- The writes that were asked for between two states, one list for each step.
  pub data Run
      : List (List Write) → FileCgroupManager write → FileCgroupManager write → Type 0 where
    stay : (s : FileCgroupManager write) → Run [] s s
    step :
        {ws : List Write} {rest : List (List Write)} {s t u : FileCgroupManager write}
        → Step ws s t
        → Run rest t u
        → Run (ws ∷ rest) s u

  pub advance-threads :
      (t : Writer) (s : FileCgroupManager write) → (advance write t s).1.threads ≡ s.threads
  unfolding advance
  advance-threads (starting w) s = ground arith
  advance-threads (written c) s = refl
  advance-threads added s = refl
  advance-threads dead s = refl
