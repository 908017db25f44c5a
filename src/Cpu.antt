-- ===== src/Cpu.antt =====
-- cpu.go: getCPU, from two samples of /proc/stat and of the cgroup's counter.
pub mod Stat
pub mod Topology
pub mod Quota
pub mod Info
use systats.Config.{SyStats, sample_window, sleep_ctx}
use systats.Cpu.Info.{CpuInfo, no_info, process_cpu_info_lines, LoadAverage, process_load_avg}
use systats.Cpu.Quota.{
  CgroupCpuInfo, no_cgroup_cpu, resolve_cgroup_cpu, sample_cgroup_cpu_usage_seconds, CpuLoad,
  apply_cgroup_cpu,
}
use systats.Cpu.Stat.{Utilisation, process_stat_file_contents}
use systats.Cpu.Topology.{CpuTopology, parse_cpu_topology}
use systats.Fileops.{read_file_with_error}
use systats.Go.Float.{Float64}
use systats.Go.Os.{Os}
use systats.Go.Outcome.{Outcome, ok, fail, panic, ◌>>=◌, ◌>>◌}
use systats.Go.Strings.{lines}
use systats.Prelude.Int.{ℤ, pos}
use systats.Prelude.Text.{Text}
use systats.Prelude.{
  ℕ, Bool, true, false, ◌&&◌, Option, none, some, List, [], ◌==◌, if◌then◌else◌, length,
}

-- The counts that are reported, where `logical_fallback` stands in for a /proc/cpuinfo without
-- "processor" lines.
unfoldable pub core_counts : CpuTopology → ℕ → CpuTopology
core_counts topo logical_fallback =
    if topo.logical == 0
    then record { logical = logical_fallback; physical_cores = logical_fallback; sockets = 1 }
    else topo

module _ (fl : Float64) where
  open fl use {F}

  pub record Cpu : Type 0 where
    pub load : CpuLoad fl
    pub average : LoadAverage fl
    pub info : CpuInfo
    pub counts : CpuTopology
    pub time : ℕ

  -- A cgroup sample is taken only where the process's cgroup was found.
  abbrev sample_if : Bool → Os → CgroupCpuInfo fl → Outcome (Option F)
  sample_if false os info = ok none
  sample_if true os info = sample_cgroup_cpu_usage_seconds fl os info

  -- `os1` and `os2` are the system before and after the wait, `done` whether the context is done
  -- before the timer, and `elapsed_seconds` the measured time.
  unfoldable pub get_cpu : Os → Os → Bool → F → SyStats → Outcome Cpu
  unfolding process_stat_file_contents parse_cpu_topology core_counts sleep_ctx
  get_cpu os1 os2 done elapsed_seconds systats = do
    stat_str1 ← read_file_with_error os1 systats.stat_file_path
    cg_info ←
        (if systats.container_aware
          then resolve_cgroup_cpu fl os1 systats
          else ok (no_cgroup_cpu fl))
    cg_usage1 ← sample_if (systats.container_aware && cg_info.ok) os1 cg_info
    sleep_ctx done (sample_window systats)
    stat_str2 ← read_file_with_error os2 systats.stat_file_path
    cg_usage2 ← sample_if (systats.container_aware && cg_info.ok) os2 cg_info
    host ← process_stat_file_contents stat_str1 stat_str2
    let logical_from_stat = length host.core_avg
    let load =
        (if systats.container_aware
          then apply_cgroup_cpu fl host cg_info cg_usage1 cg_usage2 elapsed_seconds
          else apply_cgroup_cpu fl host (no_cgroup_cpu fl) none none elapsed_seconds)
    cpuinfo_str ← read_file_with_error os2 systats.cpuinfo_file_path
    let info = process_cpu_info_lines (lines cpuinfo_str) no_info
    let counts = core_counts (parse_cpu_topology cpuinfo_str) logical_from_stat
    load_avg_str ← read_file_with_error os2 systats.load_avg_path
    average ← process_load_avg fl load_avg_str
    ok (record { load = load; average = average; info = info; counts = counts; time = os2.now })
