-- ===== src/Config.antt =====
-- systats.go: units, sort orders, CPU modes, the configuration, the panic boundary and the
-- interruptible wait.
use systats.Prelude.{◌*◌, ◌^◌, Bool, false, leb, if◌then◌else◌}
use systats.Prelude.Int.{ℤ, pos, negsuc}
use systats.Prelude.Text.{Text, codes}
use systats.Go.Outcome.{Outcome, ok, fail, panic, recovered, cancelled}

-- `type Unit string`
abbrev pub SizeUnit : Type 0
SizeUnit = Text

abbrev pub byte : SizeUnit
byte = codes "B"

abbrev pub kilobyte : SizeUnit
kilobyte = codes "KB"

abbrev pub megabyte : SizeUnit
megabyte = codes "MB"

abbrev pub gigabyte : SizeUnit
gigabyte = codes "GB"

-- `type SortOrder string`
abbrev pub SortOrder : Type 0
SortOrder = Text

abbrev pub sort_by_cpu : SortOrder
sort_by_cpu = codes "cpu"

abbrev pub sort_by_memory : SortOrder
sort_by_memory = codes "memory"

-- `type CPUMode string`
abbrev pub CpuMode : Type 0
CpuMode = Text

abbrev pub cpu_usage_instant : CpuMode
cpu_usage_instant = codes "instant"

abbrev pub cpu_usage_average : CpuMode
cpu_usage_average = codes "average"

-- Durations are nanoseconds.
abbrev pub default_cpu_sample_window : ℤ
default_cpu_sample_window = pos (300 * 10 ^ 6)

abbrev pub default_container_socket_timeout : ℤ
default_container_socket_timeout = pos (2 * 10 ^ 9)

pub record SyStats : Type 0 where
  pub meminfo_path : Text
  pub proc_path : Text
  pub stat_file_path : Text
  pub cpuinfo_file_path : Text
  pub version_path : Text
  pub etc_path : Text
  pub uptime_path : Text
  pub mounts_path : Text
  pub load_avg_path : Text
  pub disk_stats_path : Text
  pub net_tcp_path : Text
  pub net_tcp6_path : Text
  pub net_snmp_path : Text
  pub net_netstat_path : Text
  pub sys_class_net_path : Text
  pub pressure_path : Text
  pub hwmon_path : Text
  pub process_cpu_mode : CpuMode
  pub container_aware : Bool
  pub cgroup_root_path : Text
  pub self_cgroup_path : Text
  pub cpu_sample_window : ℤ
  pub container_socket_path : Text
  pub container_socket_timeout : ℤ
  pub container_layer_size : Bool

abbrev positive : ℤ → Bool
positive (pos n) = leb 1 n
positive (negsuc n) = false

unfoldable pub sample_window : SyStats → ℤ
sample_window systats =
    if positive systats.cpu_sample_window
    then systats.cpu_sample_window
    else default_cpu_sample_window

abbrev pub new : SyStats
new = record {
  meminfo_path = codes "/proc/meminfo";
  proc_path = codes "/proc";
  stat_file_path = codes "/proc/stat";
  cpuinfo_file_path = codes "/proc/cpuinfo";
  version_path = codes "/proc/version";
  etc_path = codes "/etc/";
  uptime_path = codes "/proc/uptime";
  mounts_path = codes "/proc/mounts";
  load_avg_path = codes "/proc/loadavg";
  disk_stats_path = codes "/proc/diskstats";
  net_tcp_path = codes "/proc/net/tcp";
  net_tcp6_path = codes "/proc/net/tcp6";
  net_snmp_path = codes "/proc/net/snmp";
  net_netstat_path = codes "/proc/net/netstat";
  sys_class_net_path = codes "/sys/class/net";
  pressure_path = codes "/proc/pressure";
  hwmon_path = codes "/sys/class/hwmon";
  process_cpu_mode = cpu_usage_instant;
  container_aware = false;
  cgroup_root_path = codes "/sys/fs/cgroup";
  self_cgroup_path = codes "/proc/self/cgroup";
  cpu_sample_window = default_cpu_sample_window;
  container_socket_path = codes "/var/run/docker.sock";
  container_socket_timeout = default_container_socket_timeout;
  container_layer_size = false;
}

-- The flag is whether the context is done before the timer fires.
unfoldable pub sleep_ctx : Bool → ℤ → Outcome (Unit {0})
sleep_ctx done d = if done then fail cancelled else ok tt

unfoldable pub with_recover {ℓ} : {A : Type ℓ} → Outcome A → Outcome A
with_recover (ok a) = ok a
with_recover (fail e) = fail e
with_recover (panic p) = fail (recovered p)
