-- ===== src/Cgroup/File/Reads.antt =====
-- titus_isolate/cgroup/file_cgroup_manager.py over titus_isolate/cgroup/utils.py: what the writers write, as
-- text, and the operations that read. `__get` catches what a read raises and gives None.
use titus_isolate.Prelude.{
  ℕ, String, Bool, true, false, not, List, [], Option, none, some, map, Result, ok, raise,
  type_error, ◌>>=◌, ℤ, pos, negsuc, ◌==◌, nat_eq,
}
use titus_isolate.Text.{Text, codes, join, str, int}
use titus_isolate.Cgroup.Utils
use titus_isolate.Cgroup.Utils.{parse_cpuset}
use titus_isolate.Cgroup.File.{
  Setting, cpuset, quota, shares, memory_migrate, memory_spread_page, memory_spread_slab, Value,
  thread_ids, number, flag, Write,
}

-- `__get_thread_ids_str(thread_ids)`
abbrev pub get_thread_ids_str : List ℕ → Text
get_thread_ids_str ids = join b',' (map str ids)

-- The text of a value: `str(quota)`, `str(int(on))`.
abbrev pub value_text : Value → Text
value_text (thread_ids ids) = get_thread_ids_str ids
value_text (number n) = str n
value_text (flag true) = str 1
value_text (flag false) = str 0

abbrev pub to_option {ℓ} : {A : Type ℓ} → Result A → Option A
to_option (ok a) = some a
to_option (raise e) = none

-- `bool(i)`
abbrev truth : ℤ → Bool
truth (pos n) = not (n == 0)
truth (negsuc n) = true

-- `int(text)` for a text or None
abbrev int_of : Option Text → Result ℤ
int_of none = raise type_error
int_of (some text) = int text

abbrev bool_of : Result ℤ → Result Bool
bool_of r = r >>= λ i. ok (truth i)

module _ {Files : Type 0} (read_lines : Text → Files → Result (List Text))
    (write_text : Text → Text → Files → Result Files) where
  -- The function of titus_isolate/cgroup/utils.py that writes a setting.
  abbrev pub setter : Setting → Text → Text → Files → Result Files
  setter cpuset = Utils.set_cpuset read_lines write_text
  setter quota = Utils.set_quota read_lines write_text
  setter shares = Utils.set_shares read_lines write_text
  setter memory_migrate = Utils.set_memory_migrate read_lines write_text
  setter memory_spread_page = Utils.set_memory_spread_page read_lines write_text
  setter memory_spread_slab = Utils.set_memory_spread_slab read_lines write_text

  -- `func(container_name, value)` in `__set`
  unfoldable pub write_setting : Write → Files → Option Files
  write_setting w files =
      to_option (setter w.func (codes w.container_name) (value_text w.value) files)

  abbrev getter : Setting → Text → Files → Result Text
  getter cpuset = Utils.get_cpuset read_lines write_text
  getter quota = Utils.get_quota read_lines write_text
  getter shares = Utils.get_shares read_lines write_text
  getter memory_migrate = Utils.get_memory_migrate read_lines write_text
  getter memory_spread_page = Utils.get_memory_spread_page read_lines write_text
  getter memory_spread_slab = Utils.get_memory_spread_slab read_lines write_text

  -- `__get(func, container_name)`
  abbrev pub get : Setting → String → Files → Option Text
  get func container_name files = to_option (getter func (codes container_name) files)

  unfoldable pub get_cpuset : String → Files → Result (List ℤ)
  get_cpuset container_name files = elim (get cpuset container_name files) [
    | none ↦ ok []
    | some cpuset_str ↦ parse_cpuset cpuset_str
  ]

  unfoldable pub get_quota : String → Files → Result ℤ
  get_quota container_name files = int_of (get quota container_name files)

  unfoldable pub get_shares : String → Files → Result ℤ
  get_shares container_name files = int_of (get shares container_name files)

  unfoldable pub get_memory_migrate : String → Files → Result Bool
  get_memory_migrate container_name files =
      bool_of (int_of (get memory_migrate container_name files))

  unfoldable pub get_memory_spread_page : String → Files → Result Bool
  get_memory_spread_page container_name files =
      bool_of (int_of (get memory_spread_page container_name files))

  unfoldable pub get_memory_spread_slab : String → Files → Result Bool
  get_memory_spread_slab container_name files =
      bool_of (int_of (get memory_spread_slab container_name files))
