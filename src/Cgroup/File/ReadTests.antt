-- ===== src/Cgroup/File/ReadTests.antt =====
-- A file system that keeps one line for a path, and a writer in it.
use titus_isolate.Prelude.{
  ◌≡◌, if◌then◌else◌, ◌==◌, refl, sym, ap, ◌∙◌, List, [], ◌∷◌, ◌++◌, Option, none, some, map, Dict,
  lookup, insert, lookup-insert_self, lookup-insert_ne, Result, ok, raise, exception, pos,
}
use titus_isolate.Text.{Text, codes, text_eq, str}
use titus_isolate.Cgroup.Utils.{get_cpuset_path, get_cgroup_path_from_file, set_cpuset}
use titus_isolate.Cgroup.Utils.Cpusets.{single, from_to}
use titus_isolate.Cgroup.File.{FileCgroupManager, written, advance}
use titus_isolate.Cgroup.File.Reads.{get_thread_ids_str, write_setting, get_cpuset}
use titus_isolate.Cgroup.File.ReadBack.{KeepsOthers, PrintsCpuset, first_step, get_cpuset-advance}

abbrev line_of : Option Text → Result (List Text)
line_of none = raise exception
line_of (some t) = ok ((t ++ b'\n' ∷ []) ∷ [])

abbrev read_lines : Text → Dict Text Text → Result (List Text)
read_lines path files = line_of (lookup path files)

-- The one cpuset that is written out of order, as the kernel prints it.
abbrev kernel : Text → Text
kernel text = if text == codes "5,0,1" then codes "0-1,5" else text

abbrev write_text : Text → Text → Dict Text Text → Result (Dict Text Text)
write_text path text files = ok (insert path (kernel text) files)

abbrev files : Dict Text Text
files = (codes "/var/lib/titus-inits/a/cgroup", codes "4:cpuset:/c") ∷ []

abbrev path : Text
path = codes "/sys/fs/cgroup/cpuset/c/cpuset.cpus"

abbrev from_ok : Dict Text Text → Result (Dict Text Text) → Dict Text Text
from_ok d (ok f) = f
from_ok d (raise e) = d

keeps : KeepsOthers read_lines write_text
keeps path other text before after h ne =
    let e : insert path (kernel text) before ≡ after = ap (from_ok before) h in
    ap (λ f. line_of (lookup other f)) (sym e)
    ∙ ap line_of (lookup-insert_ne other path (kernel text) before ne)

prints : PrintsCpuset read_lines write_text path (5 ∷ 0 ∷ 1 ∷ [])
unfolding str
prints before after h =
    let text = get_thread_ids_str (5 ∷ 0 ∷ 1 ∷ []) in
    let e : insert path (kernel text) before ≡ after = ap (from_ok before) h in
    (
      from_to 0 1,
      single 5 ∷ [],
      refl,
      ap (λ f. line_of (lookup path f)) (sym e)
          ∙ ap line_of (lookup-insert_self path (kernel text) before),
    )

at_path : get_cpuset_path read_lines write_text (codes "a") files ≡ ok path
unfolding get_cgroup_path_from_file
at_path = refl

abbrev fresh : FileCgroupManager (write_setting read_lines write_text)
fresh = record {
  threads = [];
  write_count = 0;
  fail_count = 0;
  isolated_workload_ids = [];
  files = files;
}

has_written : (first_step read_lines write_text "a" (5 ∷ 0 ∷ 1 ∷ []) fresh).0 ≡ written "a"
unfolding advance write_setting set_cpuset get_cgroup_path_from_file
has_written = refl

get_cpuset-advance_example :
    get_cpuset read_lines write_text "a"
      (first_step read_lines write_text "a" (5 ∷ 0 ∷ 1 ∷ []) fresh).1.files
    ≡ ok (map pos (0 ∷ 1 ∷ 5 ∷ []))
get_cpuset-advance_example =
    get_cpuset-advance read_lines write_text "a" (5 ∷ 0 ∷ 1 ∷ []) path fresh
      (refl, (refl, (refl, tt))) keeps prints at_path has_written
