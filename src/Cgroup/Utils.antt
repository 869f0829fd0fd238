-- ===== src/Cgroup/Utils.antt =====
-- titus_isolate/cgroup/utils.py: where the cgroup files of a container are, how they are read and
-- written, and how a cpuset is parsed. The file system is a parameter: `read_lines path` opens a file and
-- gives its lines, `write_text path text` replaces what is in it; both raise where `open` does.
pub mod Cpusets
pub mod Paths
mod Tests
use titus_isolate.Prelude.{
  ℕ, zero, suc, ◌+◌, ◌-◌, String, List, [], ◌∷◌, ◌++◌, Option, none, some, map, if◌then◌else◌, ◌==◌,
  Dict, lookup, Result, ok, raise, key_error, ◌>>=◌, ℤ, pos, negsuc,
}
use titus_isolate.Text.{Text, codes, text_eq, split, get_item, get_last, strip, int}

abbrev pub root_cgroup_path : Text
root_cgroup_path = codes "/sys/fs/cgroup"

abbrev pub titus_inits_path : Text
titus_inits_path = codes "/var/lib/titus-inits"

abbrev pub titus_environments_path : Text
titus_environments_path = codes "/var/lib/titus-environments"

abbrev pub cpuset_name : Text
cpuset_name = codes "cpuset"

abbrev pub cpu_cpuacct : Text
cpu_cpuacct = codes "cpu,cpuacct"

abbrev pub memory : Text
memory = codes "memory"

abbrev pub usage_file : Dict Text Text
usage_file = (cpu_cpuacct, codes "cpuacct.usage_all") ∷ (memory, codes "memory.usage_in_bytes") ∷ []

abbrev pub get_info_path : Text → Text
get_info_path container_name = titus_inits_path ++ b'/' ∷ (container_name ++ codes "/cgroup")

abbrev pub get_json_path : Text → Text
get_json_path container_name = titus_environments_path ++ b'/' ∷ (container_name ++ codes ".json")

abbrev pub get_env_path : Text → Text
get_env_path container_name = titus_environments_path ++ b'/' ∷ (container_name ++ codes ".env")

-- `_get_cgroup_path_from_list(cgroups_list, cgroup_name)`
unfoldable pub get_cgroup_path_from_list : List Text → Text → Result (Option Text)
get_cgroup_path_from_list [] cgroup_name = ok none
get_cgroup_path_from_list (row ∷ rows) cgroup_name =
    let rest = get_cgroup_path_from_list rows cgroup_name in
    let r = split b':' row in
    get_item r 1 >>= λ name.
    get_item r 2 >>= λ path. if name == cgroup_name then ok (some (strip path)) else rest

-- What `format` writes for a path or None.
abbrev pub shown : Option Text → Text
shown none = codes "None"
shown (some path) = path

abbrev next_int : ℤ → ℤ
next_int (pos n) = pos (suc n)
next_int (negsuc zero) = pos 0
next_int (negsuc (suc n)) = negsuc n

abbrev pub count_up : ℤ → ℕ → List ℤ
count_up i zero = []
count_up i (suc n) = i ∷ count_up (next_int i) n

-- `range(first, last + 1)`
abbrev pub range : ℤ → ℤ → List ℤ
range (pos m) (pos n) = count_up (pos m) (suc n - m)
range (pos m) (negsuc n) = []
range (negsuc m) (pos n) = count_up (negsuc m) (suc (suc m) + n)
range (negsuc m) (negsuc n) = count_up (negsuc m) (suc m - n)

-- The numbers of one part of a cpuset.
unfoldable pub parse_range : List Text → Result (List ℤ)
parse_range r = get_item r 0 >>= λ first.
    int first >>= λ low. get_last r >>= λ last. int last >>= λ high. ok (range low high)

unfoldable pub parse_ranges : List (List Text) → Result (List ℤ)
unfolding parse_range
parse_ranges [] = ok []
parse_ranges (r ∷ ranges) =
    parse_range r >>= λ numbers. parse_ranges ranges >>= λ rest. ok (numbers ++ rest)

unfoldable pub parse_cpuset : Text → Result (List ℤ)
unfolding parse_ranges
parse_cpuset cpuset_str = parse_ranges (map (split b'-') (split b',' cpuset_str))

abbrev pub first_line : List Text → Text
first_line [] = []
first_line (line ∷ lines) = line

module _ {Files : Type 0} (read_lines : Text → Files → Result (List Text))
    (write_text : Text → Text → Files → Result Files) where
  unfoldable pub get_cgroup_path_from_file : Text → Text → Files → Result (Option Text)
  unfolding get_cgroup_path_from_list
  get_cgroup_path_from_file file_path cgroup_name files =
      read_lines file_path files >>= λ data_. get_cgroup_path_from_list data_ cgroup_name

  -- `"{}/<controller>{}/<file>".format(ROOT_CGROUP_PATH, cgroup_path)`, for the path of the named cgroup.
  abbrev pub get_path : Text → String → String → Text → Files → Result Text
  get_path cgroup_name controller file container_name files =
      get_cgroup_path_from_file (get_info_path container_name) cgroup_name files >>= λ cgroup_path.
      ok (root_cgroup_path ++ codes controller ++ shown cgroup_path ++ codes file)

  abbrev pub get_cpuset_path : Text → Files → Result Text
  get_cpuset_path = get_path cpuset_name "/cpuset" "/cpuset.cpus"

  abbrev pub get_memory_migrate_path : Text → Files → Result Text
  get_memory_migrate_path = get_path cpuset_name "/cpuset" "/cpuset.memory_migrate"

  abbrev pub get_memory_spread_page_path : Text → Files → Result Text
  get_memory_spread_page_path = get_path cpuset_name "/cpuset" "/cpuset.memory_spread_page"

  abbrev pub get_memory_spread_slab_path : Text → Files → Result Text
  get_memory_spread_slab_path = get_path cpuset_name "/cpuset" "/cpuset.memory_spread_slab"

  abbrev pub get_quota_path : Text → Files → Result Text
  get_quota_path = get_path cpu_cpuacct "/cpu,cpuacct" "/cpu.cfs_quota_us"

  abbrev pub get_shares_path : Text → Files → Result Text
  get_shares_path = get_path cpu_cpuacct "/cpu,cpuacct" "/cpu.shares"

  abbrev pub get_usage_path : Text → Text → Files → Result Text
  get_usage_path container_name resource_key files =
      get_cgroup_path_from_file (get_info_path container_name) resource_key files >>= λ cgroup_path.
      elim (lookup resource_key usage_file) [
        | none ↦ raise key_error
        | some file ↦
            ok (root_cgroup_path ++ b'/' ∷ (resource_key ++ shown cgroup_path ++ b'/' ∷ file))
      ]

  -- `__read(path)`
  unfoldable pub read : Text → Files → Result Text
  read path files = read_lines path files >>= λ lines. ok (strip (first_line lines))

  abbrev read_at : (Text → Files → Result Text) → Text → Files → Result Text
  read_at get container_name files = get container_name files >>= λ path. read path files

  abbrev write_at : (Text → Files → Result Text) → Text → Text → Files → Result Files
  write_at get container_name value files =
      get container_name files >>= λ path. write_text path value files

  unfoldable pub set_cpuset : Text → Text → Files → Result Files
  set_cpuset = write_at get_cpuset_path

  unfoldable pub get_cpuset : Text → Files → Result Text
  unfolding read
  get_cpuset = read_at get_cpuset_path

  unfoldable pub set_memory_migrate : Text → Text → Files → Result Files
  set_memory_migrate = write_at get_memory_migrate_path

  unfoldable pub get_memory_migrate : Text → Files → Result Text
  unfolding read
  get_memory_migrate = read_at get_memory_migrate_path

  unfoldable pub set_memory_spread_page : Text → Text → Files → Result Files
  set_memory_spread_page = write_at get_memory_spread_page_path

  unfoldable pub get_memory_spread_page : Text → Files → Result Text
  unfolding read
  get_memory_spread_page = read_at get_memory_spread_page_path

  unfoldable pub set_memory_spread_slab : Text → Text → Files → Result Files
  set_memory_spread_slab = write_at get_memory_spread_slab_path

  unfoldable pub get_memory_spread_slab : Text → Files → Result Text
  unfolding read
  get_memory_spread_slab = read_at get_memory_spread_slab_path

  unfoldable pub set_quota : Text → Text → Files → Result Files
  set_quota = write_at get_quota_path

  unfoldable pub get_quota : Text → Files → Result Text
  unfolding read
  get_quota = read_at get_quota_path

  unfoldable pub set_shares : Text → Text → Files → Result Files
  set_shares = write_at get_shares_path

  unfoldable pub get_shares : Text → Files → Result Text
  unfolding read
  get_shares = read_at get_shares_path
