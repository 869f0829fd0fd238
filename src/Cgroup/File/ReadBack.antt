-- ===== src/Cgroup/File/ReadBack.antt =====
-- What a writer wrote is read back.
use titus_isolate.Prelude.{
  ℕ, suc, ◌≡◌, ◌≢◌, refl, sym, ap, ◌∙◌, String, List, [], ◌∷◌, ◌++◌, Option, none, some, map,
  concat_map, Result, ok, raise, ◌>>=◌, pos, IsDistinct, nat_eq, arith,
}
use titus_isolate.Isolate.Reconciler.{sorted}
use titus_isolate.Text.{Text, codes, strip}
use titus_isolate.Text.Decimal.{strip-line}
use titus_isolate.Cgroup.Utils
use titus_isolate.Cgroup.Utils.{
  root_cgroup_path, get_info_path, get_cgroup_path_from_file, shown, cpuset_name, get_cpuset_path,
  parse_cpuset, get_cgroup_path_from_list, first_line,
}
use titus_isolate.Cgroup.Utils.Cpusets.{
  CpuRange, numbers, cpu_list, cpu_list-IsVisible, parse_cpuset-cpu_list,
}
use titus_isolate.Cgroup.File.{
  cpuset, thread_ids, new_write, Write, dead, FileCgroupManager, starting, written, Writer, advance,
}
use titus_isolate.Cgroup.File.Reads.{get_thread_ids_str, to_option, write_setting, get_cpuset}

abbrev second : Text → ℕ
second [] = 0
second (a ∷ []) = 0
second (a ∷ b ∷ t) = b

to_option-ok : {A : Type 0} (r : Result A) (a : A) → to_option r ≡ some a → r ≡ ok a
to_option-ok (ok b) a h = cc
to_option-ok (raise e) a h = cc

module _ {Files : Type 0} (write : Write → Files → Option Files) where
  advance-written :
      (w : Write) (s : FileCgroupManager write)
      → (advance write (starting w) s).0 ≡ written w.container_name
      → write w s.files ≡ some (advance write (starting w) s).1.files
  unfolding advance
  advance-written w s = go (write w s.files) refl
    where
      go :
          (o : Option Files)
          → write w s.files ≡ o
          → let (writer, after) : Writer × FileCgroupManager write = elim o [
            | none ↦ (dead, record s { fail_count = suc s.fail_count })
            | some files ↦ (written w.container_name, record s { files = files })
          ] in
            writer ≡ written w.container_name → write w s.files ≡ some after.files
      go none e h = cc
      go (some files) e h = e

module _ {Files : Type 0} (read_lines : Text → Files → Result (List Text))
    (write_text : Text → Text → Files → Result Files) where
  -- A file keeps its lines when another one is written.
  abbrev pub KeepsOthers : Type 0
  KeepsOthers =
      (path other text : Text) (before after : Files)
      → write_text path text before ≡ ok after
      → other ≢ path
      → read_lines other after ≡ read_lines other before

  -- A cpuset that is written reads as one line, the list of its CPUs as at least one range; the kernel
  -- keeps a set and prints it from the lowest CPU on, whatever order it was written in.
  abbrev pub PrintsCpuset : Text → List ℕ → Type 0
  PrintsCpuset path ids =
      (before after : Files)
      → write_text path (get_thread_ids_str ids) before ≡ ok after
      → (r : CpuRange) × (rs : List CpuRange) × (concat_map numbers (r ∷ rs) ≡ sorted ids)
        × (read_lines path after ≡ ok ((cpu_list (r ∷ rs) ++ b'\n' ∷ []) ∷ []))

  apart :
      (c path : Text) (r : Result (Option Text))
      → (r >>= λ p. ok (root_cgroup_path ++ codes "/cpuset" ++ shown p ++ codes "/cpuset.cpus"))
        ≡ ok path
      → get_info_path c ≢ path
  apart c path (ok p) h = λ q.
      (let e : 118 ≡ second path = ap second q in
        let d : 115 ≡ second path =
          ap (λ (r : Result Text). elim r [ ok t ↦ second t | raise e ↦ 0 ]) h in
        omega arith)
  apart c path (raise e) h = λ q. cc

  -- The path of the cgroup is found in the same file before and after.
  path_after :
      (c path text : Text) (before after : Files)
      → KeepsOthers
      → get_cpuset_path read_lines write_text c before ≡ ok path
      → write_text path text before ≡ ok after
      → get_cpuset_path read_lines write_text c after ≡ ok path
  unfolding get_cgroup_path_from_file
  path_after c path text before after keeps at_path h =
      let found =
        get_cgroup_path_from_file read_lines write_text (get_info_path c) cpuset_name before in
      ap
        (λ (r : Result (List Text)).
          (r >>= λ rows. get_cgroup_path_from_list rows cpuset_name) >>= λ p.
          ok (root_cgroup_path ++ codes "/cpuset" ++ shown p ++ codes "/cpuset.cpus"))
        (keeps path (get_info_path c) text before after h (apart c path found at_path))
      ∙ at_path

  read_cpuset :
      (c path : Text) (r : CpuRange) (rs : List CpuRange) (after : Files)
      → get_cpuset_path read_lines write_text c after ≡ ok path
      → read_lines path after ≡ ok ((cpu_list (r ∷ rs) ++ b'\n' ∷ []) ∷ [])
      → Utils.get_cpuset read_lines write_text c after ≡ ok (cpu_list (r ∷ rs))
  unfolding Utils.get_cpuset Utils.read
  read_cpuset c path r rs after at_path line =
      ap (λ (p : Result Text). p >>= λ path. Utils.read read_lines write_text path after) at_path
      ∙ (ap (λ (ls : Result (List Text)). ls >>= λ lines. ok (strip (first_line lines))) line
          ∙ ap ok (strip-line (cpu_list (r ∷ rs)) (cpu_list-IsVisible (r ∷ rs))))

  get_cpuset-set_cpuset :
      (c : String) (ids : List ℕ) (path : Text) (before after : Files)
      → KeepsOthers
      → PrintsCpuset path ids
      → get_cpuset_path read_lines write_text (codes c) before ≡ ok path
      → write_text path (get_thread_ids_str ids) before ≡ ok after
      → get_cpuset read_lines write_text c after ≡ ok (map pos (sorted ids))
  unfolding get_cpuset
  get_cpuset-set_cpuset c ids path before after keeps prints at_path h =
      let (r, rs, same, line) = prints before after h in
      let at_path_after = path_after (codes c) path _ before after keeps at_path h in
      ap
        (λ (t : Result Text). elim (to_option t) [
          | none ↦ ok []
          | some cpuset_str ↦ parse_cpuset cpuset_str
        ])
        (read_cpuset (codes c) path r rs after at_path_after line)
      ∙ (parse_cpuset-cpu_list r rs ∙ ap (λ ns. ok (map pos ns)) same)

  -- The first step of a writer that sets a cpuset.
  abbrev pub first_step :
      String
      → List ℕ
      → FileCgroupManager (write_setting read_lines write_text)
      → Writer × FileCgroupManager (write_setting read_lines write_text)
  first_step c ids s =
      let write = write_setting read_lines write_text in
      advance write (starting (new_write write cpuset c (thread_ids ids))) s

  -- If a cpuset file reads as the set of the CPUs that are written to it, sorted and as ranges, and a write
  -- changes no other file, then a writer that is started for a container whose cpuset file is at `path`,
  -- with thread ids of which none occurs twice, and has written there, leaves files in which
  -- `get_cpuset` finds the container's thread ids, sorted.
  pub get_cpuset-advance :
      (c : String) (ids : List ℕ) (path : Text)
      (s : FileCgroupManager (write_setting read_lines write_text))
      → IsDistinct ids
      → KeepsOthers
      → PrintsCpuset path ids
      → get_cpuset_path read_lines write_text (codes c) s.files ≡ ok path
      → (first_step c ids s).0 ≡ written c
      → get_cpuset read_lines write_text c (first_step c ids s).1.files ≡ ok (map pos (sorted ids))
  unfolding write_setting Utils.set_cpuset
  get_cpuset-advance c ids path s different keeps prints at_path h =
      let write = write_setting read_lines write_text in
      let w = new_write write cpuset c (thread_ids ids) in
      let text = get_thread_ids_str ids in
      let wrote = to_option-ok _ _ (advance-written write w s h) in
      get_cpuset-set_cpuset c ids path s.files _ keeps prints at_path
        (ap (λ (r : Result Text). r >>= λ path. write_text path text s.files) (sym at_path) ∙ wrote)
