-- ===== src/Cgroup/File/Tests.antt =====
-- A file cgroup manager over files that refuse every write for one container.
use titus_isolate.Prelude.{
  ◌≡◌, ◌⊎◌, inl, inr, refl, true, false, ◌==◌, List, [], ◌∷◌, Option, none, some, if◌then◌else◌,
  contains, string_eq,
}
use titus_isolate.Cgroup.File.{
  Write, cpuset, memory_migrate, thread_ids, flag, FileCgroupManager, new_manager, advance, start,
  set_now, run_thread, release_container,
}
use titus_isolate.Cgroup.File.Steps.{start_step, set_step, thread_step, Run, stay, step}
use titus_isolate.Cgroup.File.Justified.{WrittenFor, Run-isolated}
use titus_isolate.Cgroup.File.Released.{release_container-stays, release_container-late}

abbrev log_write : Write → List Write → Option (List Write)
log_write w log = if "gone" == w.container_name then none else some (w ∷ log)

abbrev set_a : Write
set_a = record { func = cpuset; container_name = "a"; value = thread_ids (0 ∷ 4 ∷ []) }

abbrev set_gone : Write
set_gone = record { func = memory_migrate; container_name = "gone"; value = flag false }

abbrev s0 : FileCgroupManager log_write
s0 = new_manager log_write []

abbrev s1 : FileCgroupManager log_write
s1 = start log_write set_a s0

abbrev s2 : FileCgroupManager log_write
s2 = run_thread log_write 0 s1

abbrev s3 : FileCgroupManager log_write
s3 = set_now log_write set_gone s2

abbrev s4 : FileCgroupManager log_write
s4 = run_thread log_write 0 s3

abbrev s5 : FileCgroupManager log_write
s5 = run_thread log_write 0 s4

abbrev five_steps : Run log_write ((set_a ∷ []) ∷ [] ∷ (set_gone ∷ []) ∷ [] ∷ [] ∷ []) s0 s5
five_steps = step (start_step set_a s0) (
    step (thread_step 0 s1)
      (step (set_step set_gone s2) (step (thread_step 0 s3) (step (thread_step 0 s4) (stay s5)))))

-- A write for one of two containers.
abbrev ForTwo : Write → Type 0
ForTwo w = (w.container_name ≡ "a") ⊎ (w.container_name ≡ "gone")

Run-isolated_example : WrittenFor log_write ForTwo "a"
unfolding run_thread start set_now new_manager advance
Run-isolated_example =
    Run-isolated log_write ForTwo [] ((set_a ∷ []) ∷ [] ∷ (set_gone ∷ []) ∷ [] ∷ [] ∷ []) s5 "a"
      five_steps ((inl refl, tt), (tt, ((inr refl, tt), (tt, (tt, tt))))) refl

release_container-stays_example :
    contains
      (set_now log_write set_gone (release_container log_write "a" s5)).isolated_workload_ids
      "a"
    ≡ false
unfolding run_thread start set_now new_manager advance
release_container-stays_example =
    release_container-stays log_write [] ((set_a ∷ []) ∷ [] ∷ (set_gone ∷ []) ∷ [] ∷ [] ∷ [])
      ((set_gone ∷ []) ∷ []) "a" s5
      (set_now log_write set_gone (release_container log_write "a" s5)) five_steps (refl, tt)
      (step (set_step set_gone (release_container log_write "a" s5)) (stay _)) ((refl, tt), tt)

abbrev two_steps : Run log_write ((set_a ∷ []) ∷ [] ∷ []) s0 s2
two_steps = step (start_step set_a s0) (step (thread_step 0 s1) (stay s2))

release_container-late_example :
    let released = release_container log_write "a" s2 in
    (contains released.isolated_workload_ids "a" ≡ false)
    × (contains (run_thread log_write 0 released).isolated_workload_ids "a" ≡ true)
unfolding run_thread start new_manager advance
release_container-late_example =
    release_container-late log_write [] ((set_a ∷ []) ∷ [] ∷ []) "a" 0 s2 two_steps refl
