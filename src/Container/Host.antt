-- ===== src/Container/Host.antt =====
-- container.go: what is read of the host once for all containers.
use systats.Config.{SyStats}
use systats.Fileops.{read_file_with_error}
use systats.Go.Float.{Float64}
use systats.Go.Os.{Os}
use systats.Go.Outcome.{Outcome, ok, ◌>>=◌}
use systats.Go.Paths
use systats.Go.Strings.{fields, lines, has_prefix}
use systats.Go.Words.{mul64}
use systats.Memory.{parse_meminfo}
use systats.Prelude.Text.{Text, codes}
use systats.Prelude.{
  ℕ, ◌+◌, Bool, false, ◌&&◌, Option, none, some, List, [], ◌∷◌, ◌++◌, leb, get_elem?, if◌then◌else◌,
}
use systats.Stats.{Dict, put}

pub record ContainerHostInfo : Type 0 where
  pub cores : ℕ
  pub memory_bytes : ℕ
  pub disk_names : Dict Text
  pub net_ns : Text

abbrev is_digit_at : Option ℕ → Bool
is_digit_at none = false
is_digit_at (some c) = leb b'0' c && leb c b'9'

-- "cpu" and a digit
unfoldable pub is_cpu_line : Text → Bool
unfolding has_prefix
is_cpu_line line = has_prefix line (codes "cpu") && is_digit_at (get_elem? line 3)

unfoldable pub count_cpu_lines : List Text → ℕ
unfolding is_cpu_line
count_cpu_lines [] = 0
count_cpu_lines (line ∷ rest) = (if is_cpu_line line then 1 else 0) + count_cpu_lines rest

unfoldable pub count_stat_cpus : Text → ℕ
unfolding count_cpu_lines lines
count_stat_cpus content = count_cpu_lines (lines content)

unfoldable pub disk_name_line : List Text → Dict Text → Dict Text
unfolding put
disk_name_line (major ∷ minor ∷ name ∷ rest) names = put (major ++ (b':' ∷ minor)) name names
disk_name_line _ names = names

unfoldable pub disk_name_lines : List Text → Dict Text → Dict Text
unfolding disk_name_line
disk_name_lines [] names = names
disk_name_lines (line ∷ rest) names = disk_name_lines rest (disk_name_line (fields line) names)

unfoldable pub parse_disk_names : Text → Dict Text
unfolding disk_name_lines fields lines
parse_disk_names content = disk_name_lines (lines content) []

abbrev cores_of : Outcome Text → ℕ
unfolding count_stat_cpus
cores_of (ok stat) = count_stat_cpus stat
cores_of _ = 0

abbrev disk_names_of : Outcome Text → Dict Text
unfolding parse_disk_names
disk_names_of (ok diskstats) = parse_disk_names diskstats
disk_names_of _ = []

abbrev or_empty_link : Option Text → Text
or_empty_link (some target) = target
or_empty_link none = []

module _ (fl : Float64) where
  -- parseMeminfo may panic.
  abbrev memory_bytes_of : Outcome Text → Outcome ℕ
  unfolding parse_meminfo
  memory_bytes_of (ok meminfo) = do m ← parse_meminfo fl meminfo; ok (mul64 m.total 1024)
  memory_bytes_of _ = ok 0

  unfoldable pub read_container_host_info : Os → SyStats → Outcome ContainerHostInfo
  unfolding memory_bytes_of cores_of disk_names_of
  read_container_host_info os systats = do
    memory_bytes ← memory_bytes_of (read_file_with_error os systats.meminfo_path)
    ok (record {
      cores = cores_of (read_file_with_error os systats.stat_file_path);
      memory_bytes = memory_bytes;
      disk_names = disk_names_of (read_file_with_error os systats.disk_stats_path);
      net_ns = or_empty_link (
          os.read_link
            (Paths.join (systats.proc_path ∷ codes "1" ∷ codes "ns" ∷ codes "net" ∷ [])));
    })
