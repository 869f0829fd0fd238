-- ===== src/Cgroup/File/Order.antt =====
-- Two writers of one cpuset file.
use titus_isolate.Prelude.{
  ℕ, ◌≡◌, refl, sym, subst, String, List, [], Option, some, beq_refl, string_eq, arith,
}
use titus_isolate.Cgroup.File.{
  cpuset, thread_ids, Write, FileCgroupManager, advance, start, run_thread, new_write,
}
use titus_isolate.Cgroup.File.Settled.{ReadsBack}

module _ {Files : Type 0} (write : Write → Files → Option Files)
    (Reads : String → List ℕ → Files → Type 0) where
  abbrev cpuset_write : String → List ℕ → Write
  cpuset_write c ids = new_write write cpuset c (thread_ids ids)

  -- What `set_cpuset` does for a container, twice, and then a first step of each writer, the later first.
  abbrev pub later_first :
      String → List ℕ → List ℕ → FileCgroupManager write → FileCgroupManager write
  later_first c old new s =
      run_thread write 0
        (run_thread write 1 (start write (cpuset_write c new) (start write (cpuset_write c old) s)))

  -- If `set_cpuset` is called twice for a container while no writer is at work, the writer of the second call
  -- comes first to write, and both writes succeed, then the cpuset file is left with the ids of
  -- the first call.
  pub start-later_first :
      (c : String) (old new : List ℕ) (s : FileCgroupManager write) (files1 files2 : Files)
      → ReadsBack write Reads
      → s.threads ≡ []
      → write (cpuset_write c new) s.files ≡ some files1
      → write (cpuset_write c old) files1 ≡ some files2
      → Reads c old (later_first c old new s).files
  unfolding run_thread advance start
  start-later_first c old new s files1 files2 files_back idle first second =
      let last : (later_first c old new s).files ≡ files2 = ground (arith, idle, first, second) in
      subst (Reads c old) (sym last)
        (files_back.back c old (cpuset_write c old) files1 files2 (beq_refl c) refl second)
