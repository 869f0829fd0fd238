-- ===== src/Cgroup/Utils/Tests.antt =====
-- Cpusets and the rows of a container's cgroup file.
use titus_isolate.Prelude.{
  ◌≡◌, refl, List, [], ◌∷◌, map, concat_map, lookup, ok, raise, value_error, index_error, pos,
  arith,
}
use titus_isolate.Text.{codes, text_eq, int}
use titus_isolate.Cgroup.Utils.{parse_cpuset, get_cgroup_path_from_list}
use titus_isolate.Cgroup.Utils.Cpusets.{single, from_to, numbers, cpu_list, parse_cpuset-cpu_list}
use titus_isolate.Cgroup.Utils.Paths.{Row, row_text, by_name, get_cgroup_path_from_list_lem}

abbrev row : List Row
row =
    record { hierarchy = codes "4"; name = codes "cpuset"; path = codes "/a" }
    ∷ record { hierarchy = codes "3"; name = codes "cpu,cpuacct"; path = codes "/b" }
    ∷ []

parse_cpuset-cpu_list_example :
    parse_cpuset (cpu_list (from_to 0 3 ∷ single 8 ∷ []))
    ≡ ok (map pos (concat_map numbers (from_to 0 3 ∷ single 8 ∷ [])))
parse_cpuset-cpu_list_example = parse_cpuset-cpu_list (from_to 0 3) (single 8 ∷ [])

get_cgroup_path_from_list_lem_example :
    get_cgroup_path_from_list (map row_text row) (codes "cpuset")
    ≡ ok (lookup (codes "cpuset") (by_name row))
get_cgroup_path_from_list_lem_example = get_cgroup_path_from_list_lem row (codes "cpuset") (
  (omega arith, omega arith, omega arith, (refl, (refl, tt))),
  ((omega arith, omega arith, omega arith, (refl, (refl, tt))), tt),
)

ranges_text : parse_cpuset (codes "0-2,7") ≡ ok (pos 0 ∷ pos 1 ∷ pos 2 ∷ pos 7 ∷ [])
unfolding parse_cpuset int
ranges_text = refl

empty_text : parse_cpuset [] ≡ raise value_error
unfolding parse_cpuset int
empty_text = refl

short_row : get_cgroup_path_from_list (codes "4:cpuset" ∷ []) (codes "x") ≡ raise index_error
unfolding get_cgroup_path_from_list
short_row = refl
